-- ===== src/Learn/Chains.antt =====
-- What a learning run of crates/ql-learn/src/lib.rs pins of the chain of programs behind a script.
use quantmlayer.Prelude.{
  ℕ, ◌*◌, ◌≡◌, refl, sym, ap, subst, inl, inr, Bool, true, false, not, ◌||◌, Bool-cases, some, List,
  [], ◌∷◌, ◌++◌, length, all, ◌==◌, In, retain, Outcome, ok, err, if◌then◌else◌,
}
use quantmlayer.Prelude.{>>=-eq-ok, ok-injective}
use quantmlayer.Digest.{
  HashAlgo, sha256, ExecDigest, ExecDigestError, digest_len, is_ascii_hexdigit, as_str, bad_hex,
  new,
}
use quantmlayer.Profile.Matching.{allow, admits_exec, is_sha256}
use quantmlayer.Identity.{hex_encode}
use quantmlayer.Text.Laws.{text_eq_sound}
use quantmlayer.Learn.Pinning.{synth_profile_enforces, synth_profile-admits_exec}
use quantmlayer.Text.{Text, codes, text_eq, to_ascii_lowercase, starts_with}
use quantmlayer.Text.Order.{sort_dedup}
use quantmlayer.Learn.{Observation, ExecEvent, executed_of, executed_paths}
use quantmlayer.Learn.Synthesis.{digest_of, allowed_execs, synth_profile, synthesize}
use quantmlayer.Learn.Hashing.{
  Hashed, add_digest, add_hash, hash_file, hash_each, hash_executables, learn, with_interpreters,
  with_digests,
}

executed_of_event :
    (xs ys : List Text) (es fs : List ExecEvent) (e : ExecEvent)
    → es ≡ e ∷ fs
    → executed_of xs es ≡ executed_of ys es
unfolding executed_of
executed_of_event xs ys es fs e h = rw h refl

module _ (digest : Text → Text) (read : Text → Outcome Text Text) (number : Text → ℕ) where
  -- The interpreters that a learning run resolves from shebang lines make no difference to the
  -- profile once the trace has recorded an exec event: the profile is the one learned without them.
  pub learn_without_interpreters :
      (resolve_shim_interpreters : List Text → List Text) (o : Observation) (e : ExecEvent)
      (es : List ExecEvent)
      → o.exec_events ≡ e ∷ es
      → (learn digest read number resolve_shim_interpreters o).profile
        ≡ (learn digest read number (λ execs. []) o).profile
  unfolding learn with_interpreters with_digests synthesize synth_profile allowed_execs
      executed_paths
  learn_without_interpreters resolve_shim_interpreters o e es h =
      rw
        (executed_of_event (sort_dedup (resolve_shim_interpreters o.execs ++ o.execs))
          (sort_dedup ([] ++ o.execs)) o.exec_events es e h)
        refl

-- The algorithm of a digest is the one it was made with.
new-algo : (a : HashAlgo) (raw : Text) (d : ExecDigest) → new a raw ≡ ok d → d.algo ≡ a
unfolding new
new-algo a raw d h =
    made
      (not (length (to_ascii_lowercase raw) == digest_len a * 2)
        || not (all is_ascii_hexdigit (to_ascii_lowercase raw)))
      (bad_hex (as_str a) (digest_len a * 2)) h
  where
    made :
        (b : Bool) (e : ExecDigestError)
        → (if b then err e else ok (record { algo = a; hex = to_ascii_lowercase raw })) ≡ ok d
        → d.algo ≡ a
    made true e h = cc
    made false e h = ap (λ (x : ExecDigest). x.algo) (sym (ok-injective h))

module _ (digest : Text → Text) (read : Text → Outcome Text Text) where
  -- A digest that is made of the bytes that reading a file gave.
  abbrev pub IsDigestOf : Text → ExecDigest → Type 0
  IsDigestOf p d =
      (bytes : Text) × (read p ≡ ok bytes) × (new sha256 (hex_encode (digest bytes)) ≡ ok d)

  hash_file-eq-ok :
      (p hex : Text) (d : ExecDigest)
      → hash_file digest read p ≡ ok hex
      → new sha256 hex ≡ ok d
      → IsDigestOf p d
  unfolding hash_file
  hash_file-eq-ok p hex d h made =
      let (bytes, got, same) = >>=-eq-ok (read p) (λ b. ok (hex_encode (digest b))) h in
      (bytes, got, subst (λ x. new sha256 x ≡ ok d) (sym (ok-injective same)) made)

  digest_of-pushed :
      (p q : Text) (x d : ExecDigest) (rest : List (Text × ExecDigest))
      → digest_of p ((q, x) ∷ rest) ≡ some d
      → IsDigestOf q x
      → (digest_of p rest ≡ some d → IsDigestOf p d)
      → IsDigestOf p d
  unfolding digest_of
  digest_of-pushed p q x d rest h made ih = elim (Bool-cases (text_eq q p)) [
    | inl e ↦
        let found : some x ≡ some d = rw e at h in
        let same : x ≡ d = cc in
        subst (λ z. IsDigestOf z d) (text_eq_sound q p e) (subst (IsDigestOf q) same made)
    | inr e ↦ ih (rw e at h)
  ]

  formed :
      (p q hex : Text) (d : ExecDigest) (rest : Hashed) (r : Outcome ExecDigestError ExecDigest)
      → new sha256 hex ≡ r
      → hash_file digest read q ≡ ok hex
      → digest_of p (add_digest q r rest).0 ≡ some d
      → (digest_of p rest.0 ≡ some d → IsDigestOf p d)
      → IsDigestOf p d
  unfolding add_digest
  formed p q hex d rest (ok x) n k h ih =
      digest_of-pushed p q x d (rest.0) h (hash_file-eq-ok q hex x k n) ih
  formed p q hex d rest (err e) n k h ih = ih h

  hashed :
      (p q : Text) (d : ExecDigest) (rest : Hashed) (r : Outcome Text Text)
      → hash_file digest read q ≡ r
      → digest_of p (add_hash q r rest).0 ≡ some d
      → (digest_of p rest.0 ≡ some d → IsDigestOf p d)
      → IsDigestOf p d
  unfolding add_hash
  hashed p q d rest (ok hex) k h ih = formed p q hex d rest (new sha256 hex) refl k h ih
  hashed p q d rest (err e) k h ih = ih h

  nothing : (p : Text) (d : ExecDigest) → digest_of p [] ≡ some d → IsDigestOf p d
  unfolding digest_of
  nothing p d h = cc

  -- Each digest that the hashing pass keeps is one of the bytes read.
  hash_each-IsDigestOf :
      (p : Text) (ps : List Text) (d : ExecDigest)
      → digest_of p ((hash_each digest read ps).0) ≡ some d
      → IsDigestOf p d
  unfolding hash_each
  hash_each-IsDigestOf p [] d h = nothing p d h
  hash_each-IsDigestOf p (q ∷ ps) d h =
      hashed p q d (hash_each digest read ps) (hash_file digest read q) refl h
        (hash_each-IsDigestOf p ps d)

  with_digests-IsDigestOf :
      (p : Text) (d : ExecDigest) (o : Observation)
      → digest_of p (with_digests digest read o).exec_digests ≡ some d
      → IsDigestOf p d
  unfolding with_digests hash_executables
  with_digests-IsDigestOf p d o h =
      hash_each-IsDigestOf p (retain (starts_with (codes "/")) (executed_paths o)) d h

  -- When a learning run enforces programs by content, each program that it allows was read, and the
  -- profile admits it by the SHA-256 of the bytes that were read.
  pub learn_pins :
      (number : Text → ℕ) (resolve_shim_interpreters : List Text → List Text) (o : Observation)
      (p : Text)
      → (learn digest read number resolve_shim_interpreters o).profile.exec.enforce ≡ true
      → In p (learn digest read number resolve_shim_interpreters o).profile.processes.allow_exec
      → (d : ExecDigest) × IsDigestOf p d
        × (admits_exec (learn digest read number resolve_shim_interpreters o).profile (some d.hex)
            ≡ allow)
  unfolding learn synthesize synth_profile
  learn_pins number resolve_shim_interpreters o p h m =
      let whole = with_interpreters digest read (resolve_shim_interpreters o.execs) o in
      let seen = with_digests digest read whole in
      let (some_ran, known) = (synth_profile_enforces number seen).0 h in
      let (d, e) = known p m in
      let (bytes, got, made) = with_digests-IsDigestOf p d whole e in
      let algo : is_sha256 d.algo ≡ true =
        ap is_sha256 (new-algo sha256 (hex_encode (digest bytes)) d made) in
      (d, (bytes, got, made), synth_profile-admits_exec number seen p d m e algo)
