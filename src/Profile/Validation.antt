-- ===== src/Profile/Validation.antt =====
-- When a profile is valid, and which narrowings keep it so.
use quantmlayer.Prelude.{
  ℕ, ◌≡◌, ◌≢◌, refl, ap, ◌↔◌, inl, inr, Bool, true, false, not, ◌&&◌, Option, none, some, arith,
  ◌==◌, ==_iff, ok, guard->>-eq-ok, guard->>-ok, Bool-cases,
}
use quantmlayer.Profile.{Profile, schema_version}
use quantmlayer.Profile.Rules.{validate, is_nil, no_digests, is_zero_limit}

-- The conditions of `validate`, apart from their order.
pub record IsSound (p : Profile) : Type 0 where
  pub version : p.schema_version ≡ schema_version
  pub pinned : p.exec.enforce ≡ true → no_digests p.exec.allow_digests ≡ false
  pub egress : p.network.default_deny ≡ false → is_nil p.network.allow_domains ≡ false
  pub pids : p.resources.pids_max ≢ some 0
  pub memory : p.resources.memory_max_bytes ≢ some 0

positive_limit : (o : Option ℕ) → not (is_zero_limit o) ≡ true → o ≢ some 0
positive_limit none h e = cc
positive_limit (some n) h e = let zero_n : n ≡ 0 = cc in ground arith

limit_positive : (o : Option ℕ) → o ≢ some 0 → not (is_zero_limit o) ≡ true
limit_positive none h = refl
limit_positive (some n) h = elim (Bool-cases (n == 0)) [
  | inl e ↦ absurd (h (ap (λ k. some k) ((==_iff n 0).0 e)))
  | inr e ↦ rw e
]

-- Validation accepts exactly the profiles of the known schema version that, with the exec wall on,
-- pin some digest, without deny-by-default list some domain, and set no limit to zero.
pub validate_iff : (p : Profile) → (validate p ≡ ok tt) ↔ IsSound p
unfolding validate
validate_iff p = (
  λ h.
      let (version, h1) = guard->>-eq-ok _ _ _ h in
      let (pinned, h2) = guard->>-eq-ok _ _ _ h1 in
      let (egress, h3) = guard->>-eq-ok _ _ _ h2 in
      let (pids, h4) = guard->>-eq-ok _ _ _ h3 in
      let (memory, _) = guard->>-eq-ok _ _ _ h4 in
      record {
        version = (==_iff _ _).0 version;
        pinned = implied p.exec.enforce (no_digests p.exec.allow_digests) pinned;
        egress = implied_not p.network.default_deny (is_nil p.network.allow_domains) egress;
        pids = positive_limit p.resources.pids_max pids;
        memory = positive_limit p.resources.memory_max_bytes memory;
      },
  λ s. guard->>-ok _ _ _ ((==_iff _ _).1 s.version) (
      guard->>-ok _ _ _ (implies p.exec.enforce (no_digests p.exec.allow_digests) s.pinned) (
        guard->>-ok _ _ _
          (implies_not p.network.default_deny (is_nil p.network.allow_domains) s.egress)
          (guard->>-ok _ _ _ (limit_positive p.resources.pids_max s.pids)
            (guard->>-ok _ _ _ (limit_positive p.resources.memory_max_bytes s.memory) refl)))),
)
  where
    implied : (a b : Bool) → not (a && b) ≡ true → a ≡ true → b ≡ false
    implied a b h e = ground arith

    implied_not : (a b : Bool) → not (not a && b) ≡ true → a ≡ false → b ≡ false
    implied_not a b h e = ground arith

    implies : (a b : Bool) → (a ≡ true → b ≡ false) → not (a && b) ≡ true
    implies true b f = rw (f refl) refl
    implies false b f = refl

    implies_not : (a b : Bool) → (a ≡ false → b ≡ false) → not (not a && b) ≡ true
    implies_not true b f = refl
    implies_not false b f = rw (f refl) refl
