-- ===== src/Learn/Synthesis.antt =====
-- crates/ql-learn/src/synth.rs: turning an observation into a profile.
use quantmlayer.Prelude.{
  ℕ, ◌-◌, ◌*◌, ◌^◌, Bool, true, false, not, ◌&&◌, Option, none, some, List, [], ◌∷◌, ◌++◌, map,
  ◌==◌, any, retain, take, drop, length, min, max, if◌then◌else◌,
}
use quantmlayer.Text.{Text, codes, text_eq, includes, starts_with, strip_suffix, split}
use quantmlayer.Digest.{ExecDigest}
use quantmlayer.Profile
use quantmlayer.Profile.{Profile, coding, schema_version}
use quantmlayer.Broker.Address.{IpAddr}
use quantmlayer.Compile.{path_text}
use quantmlayer.Learn.{
  PathBuf, insert_path, Observation, executed_paths, has_syscall, is_external, has_external_egress,
}

-- The notes for the operator, without their wording.
pub data Note : Type 0 where
  left_permitted : Text → Note
  left_closed : List (IpAddr × ℕ) → Note
  left_disabled : ℕ → ℕ → Note

pub record SynthResult : Type 0 where
  pub profile : Profile
  pub notes : List Note

pub record Secret : Type 0 where
  pub segment : Text
  pub globs : List Text

abbrev pub home_and_root : Text → Text → Secret
home_and_root segment name = record {
  segment = segment;
  globs = (codes "/root/" ++ name ++ codes "/**") ∷ (codes "/home/*/" ++ name ++ codes "/**") ∷ [];
}

abbrev pub secrets : List Secret
secrets =
    home_and_root (codes "/.ssh/") (codes ".ssh")
    ∷ home_and_root (codes "/.aws/") (codes ".aws")
    ∷ home_and_root (codes "/.gnupg/") (codes ".gnupg")
    ∷ home_and_root (codes "/.kube/") (codes ".kube")
    ∷ record { segment = codes "/.config/gcloud"; globs = codes "/home/*/.config/gcloud/**" ∷ [] }
    ∷ record { segment = codes "/etc/shadow"; globs = codes "/etc/shadow" ∷ [] }
    ∷ []

abbrev pub dangerous : List Text
dangerous =
    codes "ptrace"
    ∷ codes "mount"
    ∷ codes "umount2"
    ∷ codes "unshare"
    ∷ codes "pivot_root"
    ∷ codes "process_vm_readv"
    ∷ codes "process_vm_writev"
    ∷ codes "bpf"
    ∷ codes "kexec_load"
    ∷ codes "init_module"
    ∷ codes "finit_module"
    ∷ codes "delete_module"
    ∷ []

-- p.is_absolute()
unfoldable pub is_absolute : PathBuf → Bool
is_absolute [] = false
is_absolute (c ∷ cs) = text_eq c []

-- p.parent().unwrap_or(p), of a path that is absolute: all but the last component; the root is its
-- own.
unfoldable pub parent_dir : PathBuf → PathBuf
parent_dir [] = []
parent_dir (c ∷ []) = c ∷ []
parent_dir (c ∷ d ∷ []) = c ∷ []
parent_dir (c ∷ d ∷ e ∷ es) = c ∷ parent_dir (d ∷ e ∷ es)

-- Path::starts_with, by components
unfoldable pub starts_with_path : PathBuf → PathBuf → Bool
unfolding text_eq
starts_with_path p [] = true
starts_with_path [] (b ∷ bs) = false
starts_with_path (a ∷ as_) (b ∷ bs) = text_eq a b && starts_with_path as_ bs

-- display, to_string_lossy
unfoldable pub display : PathBuf → Text
unfolding path_text
display [] = []
display ([] ∷ []) = codes "/"
display ((c ∷ cs) ∷ []) = c ∷ cs
display (p ∷ q ∷ ps) = path_text (p ∷ q ∷ ps)

-- The components of a text: empty ones and `.` ones are passed over, but for the root.
abbrev pub is_name : Text → Bool
unfolding text_eq
is_name c = not (text_eq c []) && not (text_eq c (codes "."))

unfoldable pub components : Text → PathBuf
unfolding split starts_with
components s =
    if starts_with (codes "/") s
    then [] ∷ retain is_name (split 47 s)
    else retain is_name (split 47 s)

-- truncate; `none` stands for usize::MAX
unfoldable pub truncate : PathBuf → Option ℕ → PathBuf
truncate dir none = dir
truncate dir (some n) = [] ∷ take n (drop 1 dir)

-- The first loop of `generalize`: the directories, as a sorted set.
unfoldable pub parents : Option ℕ → List PathBuf → List PathBuf
unfolding is_absolute insert_path truncate parent_dir
parents n [] = []
parents n (p ∷ ps) =
    let rest = parents n ps in
    if is_absolute p then insert_path (truncate (parent_dir p) n) rest else rest

-- The second: a directory under one that was kept is dropped.
unfoldable pub keep_outer : List PathBuf → List PathBuf → List PathBuf
unfolding starts_with_path
keep_outer kept [] = kept
keep_outer kept (d ∷ ds) =
    let under = keep_outer kept ds in
    let new = keep_outer (kept ++ d ∷ []) ds in if any (starts_with_path d) kept then under else new

unfoldable pub glob_of : PathBuf → Text
unfolding display
glob_of d = display d ++ codes "/**"

unfoldable pub covering : List PathBuf → Option ℕ → List PathBuf
unfolding parents keep_outer
covering paths n = keep_outer [] (parents n paths)

unfoldable pub generalize : List PathBuf → Option ℕ → List Text
unfolding covering glob_of
generalize paths n = map glob_of (covering paths n)

abbrev pub or_self : Text → Option Text → Text
or_self s none = s
or_self s (some t) = t

unfoldable pub under_any : PathBuf → List Text → Bool
unfolding starts_with_path components strip_suffix
under_any p globs =
    any (λ g. starts_with_path p (components (or_self g (strip_suffix (codes "/**") g)))) globs

unfoldable pub is_touched : Observation → Text → Bool
unfolding includes display
is_touched o segment = any (λ p. includes segment (display p)) (o.reads ++ o.writes)

-- The loop over the secrets: the denied globs and the notes.
unfoldable pub deny_secrets : Observation → List Secret → List Text
unfolding is_touched
deny_secrets o [] = []
deny_secrets o (s ∷ ss) =
    let rest = deny_secrets o ss in if not (is_touched o s.segment) then s.globs ++ rest else rest

unfoldable pub secret_notes : Observation → List Secret → List Note
unfolding is_touched
secret_notes o [] = []
secret_notes o (s ∷ ss) =
    let rest = secret_notes o ss in
    if not (is_touched o s.segment) then rest else left_permitted s.segment ∷ rest

-- obs.exec_digests.get(p)
unfoldable pub digest_of : Text → List (Text × ExecDigest) → Option ExecDigest
unfolding text_eq
digest_of p [] = none
digest_of p (e ∷ es) = let rest = digest_of p es in if text_eq (e.0) p then some (e.1) else rest

abbrev pub push_digest : Option ExecDigest → List ExecDigest → List ExecDigest
push_digest none rest = rest
push_digest (some d) rest = d ∷ rest

unfoldable pub digests_of : List (Text × ExecDigest) → List Text → List ExecDigest
unfolding digest_of
digests_of known [] = []
digests_of known (p ∷ ps) = push_digest (digest_of p known) (digests_of known ps)

unfoldable pub allowed_execs : Observation → List Text
unfolding executed_paths starts_with
allowed_execs o = retain (starts_with (codes "/")) (executed_paths o)

abbrev pub is_nonempty : List Text → Bool
is_nonempty [] = false
is_nonempty (c ∷ cs) = true

unfoldable pub fully_covered : List Text → List ExecDigest → Bool
fully_covered execs digests = is_nonempty execs && length digests == length execs

-- process_count.saturating_mul(8).max(64), on u32
unfoldable pub pids_max : ℕ → ℕ
pids_max process_count = max (min (process_count * 8) (2 ^ 32 - 1)) 64

module _ (number : Text → ℕ) where
  unfoldable pub deny_syscalls : Observation → List Text
  unfolding has_syscall
  deny_syscalls o = retain (λ name. not (has_syscall (number name) o.syscalls)) dangerous

  unfoldable pub synth_profile : Observation → Profile
  unfolding generalize under_any deny_secrets deny_syscalls allowed_execs digests_of fully_covered
      pids_max
  synth_profile o =
      let readwrite = generalize o.writes none in
      let execs = allowed_execs o in
      let digests = digests_of o.exec_digests execs in
      record {
        schema_version = schema_version;
        agent_type = coding;
        filesystem = record {
          readwrite = readwrite;
          readonly = generalize (retain (λ p. not (under_any p readwrite)) o.reads) (some 2);
          denied = deny_secrets o secrets;
        };
        network = record { default_deny = true; allow_domains = []; block_private_ranges = true };
        capabilities = record { retain = [] };
        syscalls = record {
          default_action = Profile.SeccompDefault.allow;
          deny = deny_syscalls o;
          notify = [];
        };
        resources = record {
          memory_max_bytes = some (4 * 1_024 * 1_024 * 1_024);
          cpu_max_percent = none;
          pids_max = some (pids_max o.process_count);
          wall_clock_secs = none;
        };
        processes = record { allow_exec = execs };
        exec = record {
          enforce = fully_covered execs digests;
          allow_digests = digests;
          argv_deny = [];
        };
        requirements = none;
        phases = [];
        approved_for = none;
        signature = none;
      }

  unfoldable pub egress_notes : Observation → List Note
  unfolding has_external_egress is_external
  egress_notes o =
      if has_external_egress o
      then left_closed (retain (λ c. is_external (c.0)) o.connects) ∷ []
      else []

  unfoldable pub coverage_notes : List Text → List ExecDigest → List Note
  unfolding fully_covered
  coverage_notes execs digests =
      if is_nonempty execs && not (fully_covered execs digests)
      then left_disabled (length digests) (length execs) ∷ []
      else []

  unfoldable pub synthesize : Observation → SynthResult
  unfolding synth_profile secret_notes egress_notes coverage_notes
  synthesize o = record {
    profile = synth_profile o;
    notes =
        secret_notes o secrets
        ++ egress_notes o
        ++ coverage_notes (allowed_execs o) (digests_of o.exec_digests (allowed_execs o));
  }
