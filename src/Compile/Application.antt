-- ===== src/Compile/Application.antt =====
-- What a profile admits once an envelope of crates/ql-compile/src/lib.rs is applied to it.
use quantmlayer.Prelude.{
  ◌≡◌, refl, ◌↔◌, ◌⊎◌, inl, inr, true, false, not, if◌then◌else◌, List, ◌++◌, In, In-append,
  append-In, any, any_elim, any_intro, Bool-cases,
}
use quantmlayer.Text.{Text}
use quantmlayer.Text.Order.{sort_dedup, In-sort_dedup, sort_dedup-In}
use quantmlayer.Profile.{Profile}
use quantmlayer.Profile.Matching.{allow, deny, host_matches, admits_domain}
use quantmlayer.Compile
use quantmlayer.Compile.{source_hosting, RelPath, LockfileRef, GitAnswer}
use quantmlayer.Compile.Envelope.{Envelope, pin_lockfiles, apply_to, apply_to_replacing}
use quantmlayer.Compile.Provenance.{IsCompiled, compiled-domains}

-- A host matches one of the domains.
abbrev pub IsListed : Text → List Text → Type 0
IsListed host ds = (d : Text) × In d ds × (host_matches host d ≡ true)

admits_domain_iff :
    (p : Profile) (host : Text)
    → (admits_domain p host ≡ allow)
      ↔ ((p.network.default_deny ≡ false) ⊎ IsListed host p.network.allow_domains)
unfolding admits_domain
admits_domain_iff p host = (to, from)
  where
    clash : deny ≡ allow → ⊥
    clash e = cc

    to :
        (if not p.network.default_deny
            then allow
            else if any (host_matches host) p.network.allow_domains
            then allow
            else deny)
          ≡ allow
        → (p.network.default_deny ≡ false) ⊎ IsListed host p.network.allow_domains
    to h = elim (Bool-cases p.network.default_deny) [
      | inr open_ ↦ inl open_
      | inl closed ↦ elim (Bool-cases (any (host_matches host) p.network.allow_domains)) [
        | inl found ↦ inr (any_elim (host_matches host) p.network.allow_domains found)
        | inr missed ↦ absurd (clash (rw (closed, missed) at h))
      ]
    ]

    from :
        (p.network.default_deny ≡ false) ⊎ IsListed host p.network.allow_domains
        → (if not p.network.default_deny
            then allow
            else if any (host_matches host) p.network.allow_domains
            then allow
            else deny)
          ≡ allow
    from (inl open_) = rw open_ refl
    from (inr (d, m, matched)) =
        let found = any_intro (host_matches host) d p.network.allow_domains m matched in
        elim (Bool-cases p.network.default_deny) [
          | inl closed ↦ rw (closed, found) refl
          | inr open_ ↦ rw open_ refl
        ]

-- A profile with an envelope merged into it admits exactly the hosts that it admitted before and
-- those that match a domain of the envelope.
pub apply_to-admits_domain :
    (e : Envelope) (p : Profile) (host : Text)
    → (admits_domain (apply_to e p) host ≡ allow)
      ↔ ((admits_domain p host ≡ allow) ⊎ IsListed host e.domains)
unfolding apply_to pin_lockfiles
apply_to-admits_domain e p host = (
  λ h. split (((admits_domain_iff (apply_to e p) host)).0 h),
  λ q. ((admits_domain_iff (apply_to e p) host)).1 (join q),
)
  where
    split :
        (p.network.default_deny ≡ false)
          ⊎ IsListed host (sort_dedup (p.network.allow_domains ++ e.domains))
        → (admits_domain p host ≡ allow) ⊎ IsListed host e.domains
    split (inl open_) = inl ((admits_domain_iff p host).1 (inl open_))
    split (inr (d, m, matched)) =
        elim (In-append d p.network.allow_domains e.domains (In-sort_dedup d _ m)) [
          | inl n ↦ inl ((admits_domain_iff p host).1 (inr (d, n, matched)))
          | inr n ↦ inr (d, n, matched)
        ]

    listed :
        (d : Text)
        → In d p.network.allow_domains ⊎ In d e.domains
        → In d (sort_dedup (p.network.allow_domains ++ e.domains))
    listed d q = sort_dedup-In d _ (append-In d p.network.allow_domains e.domains q)

    join :
        (admits_domain p host ≡ allow) ⊎ IsListed host e.domains
        → (p.network.default_deny ≡ false)
          ⊎ IsListed host (sort_dedup (p.network.allow_domains ++ e.domains))
    join (inl h) = elim ((admits_domain_iff p host).0 h) [
      | inl open_ ↦ inl open_
      | inr q ↦ inr (q.0, listed q.0 (inl q.1), q.2)
    ]
    join (inr (d, m, matched)) = inr (d, listed d (inr m), matched)

-- The fixed domains that the ecosystems of some lockfiles stand for.
abbrev pub IsTabled : List LockfileRef → Text → Type 0
IsTabled ls d =
    In d source_hosting ⊎ ((l : LockfileRef) × In l ls × In d (Compile.domains l.ecosystem))

-- A default-deny profile whose allow-list a compiled envelope replaced admits a host exactly when
-- the host matches a fixed domain of source hosting or of the ecosystem of one of the lockfiles.
pub replacing-admits_domain :
    (sha256 : Text → Text) (git : RelPath → GitAnswer) (e : Envelope) (p : Profile) (host : Text)
    → IsCompiled sha256 git e
    → p.network.default_deny ≡ true
    → (admits_domain (apply_to_replacing e p) host ≡ allow)
      ↔ ((d : Text) × IsTabled e.lockfiles d × (host_matches host d ≡ true))
unfolding apply_to_replacing pin_lockfiles
replacing-admits_domain sha256 git e p host c closed = (
  λ h. to ((admits_domain_iff (apply_to_replacing e p) host).0 h),
  λ q. (admits_domain_iff (apply_to_replacing e p) host).1 (inr (from q)),
)
  where
    clash : p.network.default_deny ≡ false → ⊥
    clash h = cc

    to :
        (p.network.default_deny ≡ false) ⊎ IsListed host e.domains
        → (d : Text) × IsTabled e.lockfiles d × (host_matches host d ≡ true)
    to (inl open_) = absurd (clash open_)
    to (inr (d, m, matched)) = (d, (compiled-domains sha256 git e c d).0 m, matched)

    from :
        (d : Text) × IsTabled e.lockfiles d × (host_matches host d ≡ true) → IsListed host e.domains
    from (d, q, matched) = (d, (compiled-domains sha256 git e c d).1 q, matched)
