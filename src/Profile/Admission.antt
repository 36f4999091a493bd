-- ===== src/Profile/Admission.antt =====
-- What the argv rules and the stated requirements mean.
use quantmlayer.Prelude.{
  ◌≡◌, ◌≢◌, refl, sym, ap, subst, ◌∙◌, ◌↔◌, inl, inr, true, false, not, ◌&&◌, ◌||◌, Option, none,
  some, List, [], ◌∷◌, arith, In, all, all_elim, all_intro, Bool-cases, Option-cases, &&-split,
}
use quantmlayer.Text.{Text, text_eq, contains}
use quantmlayer.Text.Laws.{contains_In, In_contains, text_eq_sound, text_eq_iff}
use quantmlayer.Digest.{HashAlgo, sha1, sha256, sha384, sha512}
use quantmlayer.Profile.{
  ArgvDeny, ArgvRule, ExecPolicy, ExecIdentity, content_hash, path_or_signer, SecretVisibility,
  absent, access_denied, Requirements, Guarantees,
}
use quantmlayer.Profile.Matching.{is_sha256}
use quantmlayer.Profile.Rules.{
  ArgvVerdict, allow, deny, is_nil, matches_argv, first_match, verdict, evaluate_rules,
  evaluate_argv, unmet, wants_hash, gives_hash, wants_absent, gives_absent,
}

-- A shape of a rule for this sha256 digest that is not empty and whose tokens are all in argv.
pub record Blocked (rules : List ArgvRule) (digest_hex : Text) (argv all_of : List Text)
    : Type 0 where
  pub rule : ArgvRule
  pub listed : In rule rules
  pub algo : rule.digest.algo ≡ sha256
  pub digest : rule.digest.hex ≡ digest_hex
  pub shape : ArgvDeny
  pub among : In shape rule.deny
  pub tokens : shape.all_of ≡ all_of
  pub nonempty : all_of ≢ []
  pub present : (tok : Text) → In tok all_of → In tok argv

is_sha256_sound : (a : HashAlgo) → is_sha256 a ≡ true → a ≡ sha256
is_sha256_sound sha256 h = refl
is_sha256_sound sha1 h = cc
is_sha256_sound sha384 h = cc
is_sha256_sound sha512 h = cc

not_nil : (xs : List Text) → not (is_nil xs) ≡ true → xs ≢ []
not_nil xs h e = clash (rw e at h)
  where
    clash : false ≡ true → ⊥
    clash c = cc

first_match_sound :
    (ds : List ArgvDeny) (argv ts : List Text)
    → first_match ds argv ≡ some ts
    → (d : ArgvDeny) × In d ds
      × (d.all_of ≡ ts)
      × (ts ≢ [])
      × ((tok : Text) → In tok ts → In tok argv)
unfolding first_match
first_match_sound (d ∷ ds) argv ts h = elim (Bool-cases (matches_argv d argv)) [
  | inl hit ↦ here (rw hit at h) (&&-split (not (is_nil d.all_of)) _ hit)
  | inr miss ↦
      let (e, m, t, n, p) = first_match_sound ds argv ts (rw miss at h) in (e, inr m, t, n, p)
]
  where
    here :
        some d.all_of ≡ some ts
        → (not (is_nil d.all_of) ≡ true) × (all (λ tok. contains argv tok) d.all_of ≡ true)
        → (e : ArgvDeny) × In e (d ∷ ds)
          × (e.all_of ≡ ts)
          × (ts ≢ [])
          × ((tok : Text) → In tok ts → In tok argv)
    here q (n, a) =
        let same : d.all_of ≡ ts = cc in
        (
          d,
          inl refl,
          same,
          (λ e. not_nil d.all_of n (same ∙ e)),
          λ tok m.
              contains_In tok argv
                (all_elim (λ t. contains argv t) tok d.all_of a (subst (In tok) (sym same) m)),
        )
first_match_sound [] argv ts h = cc

first_match_complete :
    (ds : List ArgvDeny) (argv : List Text) (d : ArgvDeny)
    → In d ds
    → d.all_of ≢ []
    → ((tok : Text) → In tok d.all_of → In tok argv)
    → (ts : List Text) × (first_match ds argv ≡ some ts)
unfolding first_match
first_match_complete (e ∷ ds) argv d (inl same) n p =
    let hit : matches_argv e argv ≡ true =
      unfold matches_argv in
      rw (← same) (
        joined d.all_of n
          (all_intro (λ t. contains argv t) d.all_of λ t m. In_contains t argv (p t m))) in
    (e.all_of, rw hit refl)
  where
    joined :
        (xs : List Text)
        → xs ≢ []
        → all (λ t. contains argv t) xs ≡ true
        → (not (is_nil xs) && all (λ t. contains argv t) xs) ≡ true
    joined [] k a = absurd (k refl)
    joined (x ∷ xs) k a = a
first_match_complete (e ∷ ds) argv d (inr m) n p =
    let (ts, found) = first_match_complete ds argv d m n p in
    elim (Bool-cases (matches_argv e argv)) [
      | inl hit ↦ (e.all_of, rw hit refl)
      | inr miss ↦ (ts, rw miss found)
    ]
first_match_complete [] argv d m n p = absurd m

Blocked-cons :
    {rule : ArgvRule} {rules : List ArgvRule} {digest_hex : Text} {argv ts : List Text}
    → Blocked rules digest_hex argv ts
    → Blocked (rule ∷ rules) digest_hex argv ts
Blocked-cons b = record {
  rule = b.rule;
  listed = inr b.listed;
  algo = b.algo;
  digest = b.digest;
  shape = b.shape;
  among = b.among;
  tokens = b.tokens;
  nonempty = b.nonempty;
  present = b.present;
}

evaluate_sound :
    (rules : List ArgvRule) (digest_hex h : Text) (argv ts : List Text)
    → evaluate_rules rules digest_hex argv ≡ deny h ts
    → Blocked rules digest_hex argv ts
unfolding evaluate_rules
evaluate_sound (rule ∷ rules) digest_hex h argv ts e =
    elim (Bool-cases
      (not (is_sha256 rule.digest.algo) || not (text_eq rule.digest.hex digest_hex))) [
        | inl other ↦ Blocked-cons (evaluate_sound rules digest_hex h argv ts (rw other at e))
        | inr own ↦ elim (Option-cases (first_match rule.deny argv)) [
          | inl missed ↦
              Blocked-cons (evaluate_sound rules digest_hex h argv ts (rw (own, missed) at e))
          | inr (us, found) ↦ here own us found (rw (own, found) at e)
        ]
      ]
  where
    here :
        (not (is_sha256 rule.digest.algo) || not (text_eq rule.digest.hex digest_hex)) ≡ false
        → (us : List Text) → first_match rule.deny argv ≡ some us
        → deny digest_hex us ≡ deny h ts
        → Blocked (rule ∷ rules) digest_hex argv ts
    here own us found q =
        let same : us ≡ ts = cc in
        let (shape, among, tokens, nonempty, present) =
          first_match_sound rule.deny argv ts (found ∙ ap (λ x. some x) same) in
        record {
          rule = rule;
          listed = inl refl;
          algo = is_sha256_sound rule.digest.algo (ground arith);
          digest = text_eq_sound rule.digest.hex digest_hex (ground arith);
          shape = shape;
          among = among;
          tokens = tokens;
          nonempty = nonempty;
          present = present;
        }
evaluate_sound [] digest_hex h argv ts e = cc

verdict_denies : (h : Text) (ts : List Text) (rest : ArgvVerdict) → verdict h (some ts) rest ≢ allow
verdict_denies h ts rest e = cc

denied_by :
    (rules : List ArgvRule) (digest_hex : Text) (argv : List Text) (r : ArgvRule) (us : List Text)
    → In r rules
    → r.digest.algo ≡ sha256
    → r.digest.hex ≡ digest_hex
    → first_match r.deny argv ≡ some us
    → evaluate_rules rules digest_hex argv ≢ allow
unfolding evaluate_rules
denied_by (rule ∷ rules) digest_hex argv r us (inl same) a d f =
    let algo : is_sha256 rule.digest.algo ≡ true = rw (← same) (rw a refl) in
    let hex : text_eq rule.digest.hex digest_hex ≡ true =
      (text_eq_iff rule.digest.hex digest_hex).1
        (ap (λ (x : ArgvRule). x.digest.hex) (sym same) ∙ d) in
    let found : first_match rule.deny argv ≡ some us =
      ap (λ (x : ArgvRule). first_match x.deny argv) (sym same) ∙ f in
    rw (algo, hex, found) (verdict_denies digest_hex us (evaluate_rules rules digest_hex argv))
denied_by (rule ∷ rules) digest_hex argv r us (inr m) a d f =
    elim (Bool-cases
      (not (is_sha256 rule.digest.algo) || not (text_eq rule.digest.hex digest_hex))) [
        | inl other ↦ rw other (denied_by rules digest_hex argv r us m a d f)
        | inr own ↦ elim (Option-cases (first_match rule.deny argv)) [
          | inl missed ↦ rw (own, missed) (denied_by rules digest_hex argv r us m a d f)
          | inr (ts, found) ↦
              rw (own, found) (verdict_denies digest_hex ts (evaluate_rules rules digest_hex argv))
        ]
      ]
denied_by [] digest_hex argv r us m a d f = absurd m

evaluate_complete :
    (rules : List ArgvRule) (digest_hex : Text) (argv ts : List Text)
    → Blocked rules digest_hex argv ts
    → evaluate_rules rules digest_hex argv ≢ allow
evaluate_complete rules digest_hex argv ts b =
    let (us, found) =
      first_match_complete b.rule.deny argv b.shape b.among (λ e. b.nonempty (sym b.tokens ∙ e))
        (λ tok m. b.present tok (subst (In tok) b.tokens m)) in
    denied_by rules digest_hex argv b.rule us b.listed b.algo b.digest found

-- An invocation is denied exactly when a rule for its sha256 digest lists a shape, not empty, whose
-- tokens all stand among the elements of argv; the denial names such a shape.
pub evaluate_argv_iff :
    (policy : ExecPolicy) (digest_hex : Text) (argv : List Text)
    → ((h : Text) (ts : List Text)
        → evaluate_argv policy digest_hex argv ≡ deny h ts
        → Blocked policy.argv_deny digest_hex argv ts)
      × ((ts : List Text)
          → Blocked policy.argv_deny digest_hex argv ts
          → evaluate_argv policy digest_hex argv ≢ allow)
unfolding evaluate_argv
evaluate_argv_iff policy digest_hex argv = (
  λ h ts e. evaluate_sound policy.argv_deny digest_hex h argv ts e,
  λ ts b. evaluate_complete policy.argv_deny digest_hex argv ts b,
)

hash_met :
    (e : Option ExecIdentity) (h : ExecIdentity)
    → (e ≡ some content_hash → h ≡ content_hash)
    → (wants_hash e && not (gives_hash h)) ≡ false
hash_met none h f = refl
hash_met (some path_or_signer) h f = refl
hash_met (some content_hash) content_hash f = refl
hash_met (some content_hash) path_or_signer f = cc (f refl)

absence_met :
    (e : Option SecretVisibility) (h : SecretVisibility)
    → (e ≡ some absent → h ≡ absent)
    → (wants_absent e && not (gives_absent h)) ≡ false
absence_met none h f = refl
absence_met (some access_denied) h f = refl
absence_met (some absent) absent f = refl
absence_met (some absent) access_denied f = cc (f refl)

-- A host qualifies, with nothing unmet, exactly when it hashes content if that is required and hides
-- secrets if that is required.
pub unmet-eq-nil_iff :
    (r : Requirements) (have : Guarantees)
    → (unmet r have ≡ []) ↔ (
        (r.exec_identity ≡ some content_hash → have.exec_identity ≡ content_hash)
        × (r.secret_visibility ≡ some absent → have.secret_visibility ≡ absent))
unfolding unmet
unmet-eq-nil_iff r have = (
  λ e. (λ q. needs_hash e q, λ q. needs_absent e q),
  λ t.
      rw (hash_met r.exec_identity have.exec_identity t.0)
        (rw (absence_met r.secret_visibility have.secret_visibility t.1) refl),
)
  where
    needs_hash :
        unmet r have ≡ [] → r.exec_identity ≡ some content_hash → have.exec_identity ≡ content_hash
    needs_hash e q = ground arith

    needs_absent :
        unmet r have ≡ [] → r.secret_visibility ≡ some absent → have.secret_visibility ≡ absent
    needs_absent e q = ground arith
