-- ===== src/Profile/Rules.antt =====
-- crates/ql-profile/src/policy.rs and lib.rs: argv rules, requirements, phases, and validation.
use Prim.Native.String.{String}
use quantmlayer.Prelude.{
  ℕ, Bool, true, false, not, ◌&&◌, ◌||◌, Option, none, some, List, [], ◌∷◌, ◌++◌, ◌==◌,
  if◌then◌else◌, all, retain, Outcome, ok, err, ◌>>◌, guard,
}
use quantmlayer.Text.{Text, text_eq, contains}
use quantmlayer.Digest.{ExecDigest}
use quantmlayer.Profile.{
  AgentType, coding, ArgvDeny, ArgvRule, ExecPolicy, ExecIdentity, content_hash, path_or_signer,
  SecretVisibility, absent, access_denied, Requirements, Guarantees, Phase, Profile, schema_version,
}
use quantmlayer.Profile.Matching.{is_sha256}

-- A denial carries the digest and the tokens from which the source formats its message.
pub data ArgvVerdict : Type 0 where
  allow : ArgvVerdict
  deny : (digest_hex : Text) (all_of : List Text) → ArgvVerdict

abbrev pub is_nil : List Text → Bool
is_nil [] = true
is_nil (x ∷ xs) = false

-- Every token stands in argv as an element.
unfoldable pub matches_argv : ArgvDeny → List Text → Bool
unfolding contains
matches_argv d argv = not (is_nil d.all_of) && all (λ tok. contains argv tok) d.all_of

-- The inner loop of `evaluate_argv`: the first shape that matches.
unfoldable pub first_match : List ArgvDeny → List Text → Option (List Text)
unfolding matches_argv
first_match [] argv = none
first_match (d ∷ ds) argv =
    let rest = first_match ds argv in if matches_argv d argv then some d.all_of else rest

abbrev pub verdict : Text → Option (List Text) → ArgvVerdict → ArgvVerdict
verdict digest_hex none rest = rest
verdict digest_hex (some all_of) rest = deny digest_hex all_of

unfoldable pub evaluate_rules : List ArgvRule → Text → List Text → ArgvVerdict
unfolding text_eq first_match
evaluate_rules [] digest_hex argv = allow
evaluate_rules (rule ∷ rules) digest_hex argv =
    let rest = evaluate_rules rules digest_hex argv in
    if not (is_sha256 rule.digest.algo) || not (text_eq rule.digest.hex digest_hex)
    then rest
    else verdict digest_hex (first_match rule.deny argv) rest

unfoldable pub evaluate_argv : ExecPolicy → Text → List Text → ArgvVerdict
unfolding evaluate_rules
evaluate_argv policy digest_hex argv = evaluate_rules policy.argv_deny digest_hex argv

pub record Unmet : Type 0 where
  pub requirement : String
  pub required : String
  pub available : String

-- `== Some(ContentHash)`, `!= ContentHash` and the like
abbrev pub wants_hash : Option ExecIdentity → Bool
wants_hash (some content_hash) = true
wants_hash _ = false

abbrev pub gives_hash : ExecIdentity → Bool
gives_hash content_hash = true
gives_hash path_or_signer = false

abbrev pub wants_absent : Option SecretVisibility → Bool
wants_absent (some absent) = true
wants_absent _ = false

abbrev pub gives_absent : SecretVisibility → Bool
gives_absent absent = true
gives_absent access_denied = false

unfoldable pub unmet : Requirements → Guarantees → List Unmet
unmet self have =
    (if wants_hash self.exec_identity && not (gives_hash have.exec_identity)
      then record {
        requirement = "exec_identity";
        required = "content_hash";
        available = "path_or_signer";
      }
        ∷ []
      else [])
    ++ (if wants_absent self.secret_visibility && not (gives_absent have.secret_visibility)
        then record {
          requirement = "secret_visibility";
          required = "absent";
          available = "access_denied";
        }
          ∷ []
        else [])

-- Phase::narrow, a field at a time
unfoldable pub narrow_domains : Phase → List Text → List Text
unfolding contains
narrow_domains ph domains =
    if ph.no_egress
    then []
    else if not (is_nil ph.only_domains)
    then retain (contains ph.only_domains) domains
    else domains

unfoldable pub narrow_readwrite : Phase → List Text → List Text
unfolding contains
narrow_readwrite ph globs =
    if not (is_nil ph.only_readwrite) then retain (contains ph.only_readwrite) globs else globs

unfoldable pub narrow : Phase → Profile → Profile
unfolding narrow_domains narrow_readwrite
narrow ph base = record base {
  network = record base.network {
    allow_domains = narrow_domains ph base.network.allow_domains;
    default_deny = if ph.no_egress then true else base.network.default_deny;
  };
  filesystem = record base.filesystem { readwrite = narrow_readwrite ph base.filesystem.readwrite };
  signature = none;
}

-- error.rs, less the parse errors of serde
pub data ProfileError : Type 0 where
  unsupported_schema_version : (found supported : ℕ) → ProfileError
  validation : (field : String) → ProfileError

abbrev pub no_digests : List ExecDigest → Bool
no_digests [] = true
no_digests (d ∷ ds) = false

-- `if let Some(0) = limit`
abbrev pub is_zero_limit : Option ℕ → Bool
is_zero_limit none = false
is_zero_limit (some n) = n == 0

unfoldable pub validate : Profile → Outcome ProfileError (Unit {0})
validate p = do
  guard (p.schema_version == schema_version)
      (unsupported_schema_version p.schema_version schema_version)
  guard (not (p.exec.enforce && no_digests p.exec.allow_digests)) (validation "exec.allow_digests")
  guard (not (not p.network.default_deny && is_nil p.network.allow_domains))
      (validation "network.default_deny")
  guard (not (is_zero_limit p.resources.pids_max)) (validation "resources.pids_max")
  guard (not (is_zero_limit p.resources.memory_max_bytes)) (validation "resources.memory_max_bytes")
  ok tt

abbrev pub is_coding : AgentType → Bool
is_coding coding = true
is_coding _ = false

unfoldable pub lint_authoring : Profile → Outcome ProfileError (Unit {0})
lint_authoring p =
    if is_coding p.agent_type && is_nil p.processes.allow_exec
    then err (validation "processes.allow_exec")
    else ok tt
