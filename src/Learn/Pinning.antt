-- ===== src/Learn/Pinning.antt =====
-- When a profile of crates/ql-learn/src/synth.rs pins programs by content, and what it then admits.
use quantmlayer.Prelude.{
  ℕ, suc, ◌≤◌, ◌≡◌, refl, sym, ap, ◌∙◌, subst, ◌↔◌, ◌⊎◌, inl, inr, Bool, true, false, not, Option,
  none, some, List, [], ◌∷◌, any, any_intro, retain, retain_intro, length, In, &&-split, &&-join,
  ==_iff, if◌then◌else◌, arith,
}
use quantmlayer.Text.{Text, text_eq}
use quantmlayer.Text.Laws.{text_eq_refl}
use quantmlayer.Digest.{ExecDigest}
use quantmlayer.Profile.Matching.{allow, deny, admits_exec, is_sha256}
use quantmlayer.Learn.{Observation}
use quantmlayer.Learn.Synthesis.{
  digest_of, push_digest, digests_of, allowed_execs, is_nonempty, fully_covered, synth_profile,
}

module _ (known : List (Text × ExecDigest)) where
  length-digests_of : (ps : List Text) → length (digests_of known ps) ≤ length ps
  unfolding digests_of
  length-digests_of [] = omega arith
  length-digests_of (p ∷ ps) = pushed (digest_of p known) (length-digests_of ps)
    where
      pushed :
          (o : Option ExecDigest)
          → length (digests_of known ps) ≤ length ps
          → length (push_digest o (digests_of known ps)) ≤ suc (length ps)
      pushed none h = omega arith
      pushed (some d) h = omega arith

  -- Each program has a digest.
  abbrev pub IsHashed : List Text → Type 0
  IsHashed ps = (p : Text) → In p ps → (d : ExecDigest) × (digest_of p known ≡ some d)

  full-IsHashed : (ps : List Text) → length (digests_of known ps) ≡ length ps → IsHashed ps
  unfolding digests_of
  full-IsHashed (q ∷ ps) e p m =
      split (digest_of q known) refl (length-digests_of ps) (λ h. full-IsHashed ps h p) e m
    where
      split :
          (o : Option ExecDigest)
          → digest_of q known ≡ o
          → length (digests_of known ps) ≤ length ps
          → (length (digests_of known ps) ≡ length ps
              → In p ps
              → (d : ExecDigest) × (digest_of p known ≡ some d))
          → length (push_digest o (digests_of known ps)) ≡ suc (length ps)
          → (p ≡ q) ⊎ In p ps
          → (d : ExecDigest) × (digest_of p known ≡ some d)
      split none k bound ih h n = absurd (omega arith)
      split (some d) k bound ih h (inl same) = (d, ap (λ x. digest_of x known) same ∙ k)
      split (some d) k bound ih h (inr n) = ih (omega arith) n
  full-IsHashed [] e p m = absurd m

  IsHashed-full : (ps : List Text) → IsHashed ps → length (digests_of known ps) ≡ length ps
  unfolding digests_of
  IsHashed-full [] f = refl
  IsHashed-full (q ∷ ps) f =
      let (d, e) = f q (inl refl) in
      ap (λ o. length (push_digest o (digests_of known ps))) e
      ∙ ap suc (IsHashed-full ps (λ p m. f p (inr m)))

  digests_of-In :
      (ps : List Text) (p : Text) (d : ExecDigest)
      → In p ps
      → digest_of p known ≡ some d
      → In d (digests_of known ps)
  unfolding digests_of
  digests_of-In (q ∷ ps) p d (inl same) e =
      let eq : digest_of q known ≡ some d = ap (λ x. digest_of x known) (sym same) ∙ e in
      subst (λ o. In d (push_digest o (digests_of known ps))) (sym eq) (inl refl)
  digests_of-In (q ∷ ps) p d (inr m) e = pushed (digest_of q known) (digests_of-In ps p d m e)
    where
      pushed :
          (o : Option ExecDigest)
          → In d (digests_of known ps)
          → In d (push_digest o (digests_of known ps))
      pushed none n = n
      pushed (some x) n = inr n
  digests_of-In [] p d m e = absurd m

module _ (number : Text → ℕ) where
  -- A learned profile enforces programs by content exactly when some program ran under an absolute
  -- path and each one that did was hashed.
  pub synth_profile_enforces :
      (o : Observation)
      → ((synth_profile number o).exec.enforce ≡ true)
        ↔ ((is_nonempty (allowed_execs o) ≡ true) × IsHashed o.exec_digests (allowed_execs o))
  unfolding synth_profile fully_covered
  synth_profile_enforces o = (
    λ h.
        let (some_ran, same) = &&-split (is_nonempty (allowed_execs o)) _ h in
        (
          some_ran,
          full-IsHashed o.exec_digests (allowed_execs o) (
              (==_iff (length (digests_of o.exec_digests (allowed_execs o)))
                  (length (allowed_execs o))).0
                same),
        ),
    λ q. &&-join _ _ (q.0) (
        (==_iff (length (digests_of o.exec_digests (allowed_execs o))) (length (allowed_execs o))).1
          (IsHashed-full o.exec_digests (allowed_execs o) (q.1))),
  )

  -- A learned profile admits each program that ran under an absolute path, by the SHA-256 digest
  -- that was taken of it, whether or not it enforces.
  pub synth_profile-admits_exec :
      (o : Observation) (p : Text) (d : ExecDigest)
      → In p (allowed_execs o)
      → digest_of p o.exec_digests ≡ some d
      → is_sha256 d.algo ≡ true
      → admits_exec (synth_profile number o) (some d.hex) ≡ allow
  unfolding synth_profile admits_exec
  synth_profile-admits_exec o p d m e h =
      let ds = digests_of o.exec_digests (allowed_execs o) in
      let kept =
        retain_intro (λ (x : ExecDigest). is_sha256 x.algo) d ds
          (digests_of-In o.exec_digests (allowed_execs o) p d m e) h in
      admitted (not (fully_covered (allowed_execs o) ds))
        (any (λ (x : ExecDigest). text_eq x.hex d.hex)
          (retain (λ (x : ExecDigest). is_sha256 x.algo) ds))
        (any_intro (λ (x : ExecDigest). text_eq x.hex d.hex) d _ kept (text_eq_refl d.hex))
    where
      admitted :
          (off found : Bool)
          → found ≡ true
          → (if off then allow else if found then allow else deny) ≡ allow
      admitted true found k = refl
      admitted false found k = rw k refl
