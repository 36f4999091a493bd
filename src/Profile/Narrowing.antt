-- ===== src/Profile/Narrowing.antt =====
-- A phase can only narrow: what the narrowed profile admits, the base admits.
use quantmlayer.Prelude.{
  ◌≡◌, refl, inl, inr, true, false, not, List, arith, In, any, any_elim, any_intro, retain_elim,
  Bool-cases, if◌then◌else◌,
}
use quantmlayer.Text.{Text, contains}
use quantmlayer.Capability.{path_in}
use quantmlayer.Capability.Attenuation.{path_in_intro, path_in_elim}
use quantmlayer.Capability.Containment.{path_within_iff, same}
use quantmlayer.Profile.{Phase, Profile}
use quantmlayer.Profile.Matching.{allow, deny, host_matches, admits_domain}
use quantmlayer.Profile.Rules.{is_nil, narrow, narrow_domains, narrow_readwrite}

-- `p` is `base` but for its egress allow-list and default, its path grants, its programs and its
-- signature; it admits no further domain, and covers no further path and no further program.
pub record NoWider (p base : Profile) : Type 0 where
  pub untouched : p ≡ record base {
    filesystem = record base.filesystem {
      readwrite = p.filesystem.readwrite;
      readonly = p.filesystem.readonly;
    };
    network = record base.network {
      allow_domains = p.network.allow_domains;
      default_deny = p.network.default_deny;
    };
    processes = p.processes;
    signature = p.signature;
  }
  pub domains : (host : Text) → admits_domain p host ≡ allow → admits_domain base host ≡ allow
  pub readwrite :
      (path : Text)
      → path_in path p.filesystem.readwrite ≡ true
      → path_in path base.filesystem.readwrite ≡ true
  pub readonly :
      (path : Text)
      → path_in path p.filesystem.readonly ≡ true
      → path_in path base.filesystem.readonly ≡ true
  pub programs : (x : Text) → In x p.processes.allow_exec → In x base.processes.allow_exec

pub path_in_of_In : (g : Text) (grants : List Text) → In g grants → path_in g grants ≡ true
path_in_of_In g grants m = path_in_intro g g grants m ((path_within_iff g g).1 (same refl))

path_in_mono :
    (path : Text) (xs ys : List Text)
    → ((g : Text) → In g xs → In g ys)
    → path_in path xs ≡ true
    → path_in path ys ≡ true
path_in_mono path xs ys sub h =
    let (g, m, k) = path_in_elim path xs h in path_in_intro path g ys (sub g m) k

-- With a shorter allow-list and a no weaker default, a profile admits no further domain.
pub admits_domain_mono :
    (p base : Profile) (host : Text)
    → (p.network.default_deny ≡ false → base.network.default_deny ≡ false)
    → ((d : Text) → In d p.network.allow_domains → In d base.network.allow_domains)
    → admits_domain p host ≡ allow
    → admits_domain base host ≡ allow
unfolding admits_domain
admits_domain_mono p base host strict sub h = elim (Bool-cases p.network.default_deny) [
  | inr open_ ↦ rw (strict open_) refl
  | inl closed ↦ elim (Bool-cases (any (host_matches host) p.network.allow_domains)) [
    | inl found ↦
        let (d, m, matched) = any_elim (host_matches host) p.network.allow_domains found in
        granted (any_intro (host_matches host) d base.network.allow_domains (sub d m) matched)
    | inr missed ↦ absurd (clash (rw (closed, missed) at h))
  ]
]
  where
    clash : deny ≡ allow → ⊥
    clash e = cc

    granted :
        any (host_matches host) base.network.allow_domains ≡ true
        → (if not base.network.default_deny
            then allow
            else if any (host_matches host) base.network.allow_domains
            then allow
            else deny)
          ≡ allow
    granted e = ground arith

In-narrow_domains : (ph : Phase) (d : Text) (ds : List Text) → In d (narrow_domains ph ds) → In d ds
unfolding narrow_domains
In-narrow_domains ph d ds m = elim (Bool-cases ph.no_egress) [
  | inl e ↦ absurd (rw e at m)
  | inr e ↦ elim (Bool-cases (is_nil ph.only_domains)) [
    | inl n ↦ rw (e, n) at m
    | inr n ↦ (retain_elim (contains ph.only_domains) d ds (rw (e, n) at m)).0
  ]
]

In-narrow_readwrite :
    (ph : Phase) (g : Text) (gs : List Text) → In g (narrow_readwrite ph gs) → In g gs
unfolding narrow_readwrite
In-narrow_readwrite ph g gs m = elim (Bool-cases (is_nil ph.only_readwrite)) [
  | inl n ↦ rw n at m
  | inr n ↦ (retain_elim (contains ph.only_readwrite) g gs (rw n at m)).0
]

-- Whatever the phase, the narrowed profile grants no more than the base: it admits no further
-- domain, each of its path grants is one of the base's, so that it covers no further path, and but for
-- the allow-list, its default, the writable grants and the signature it is the base.
pub narrow-NoWider :
    (ph : Phase) (base : Profile)
    → NoWider (narrow ph base) base
      × ((g : Text) → In g (narrow ph base).filesystem.readwrite → In g base.filesystem.readwrite)
      × ((narrow ph base).filesystem.readonly ≡ base.filesystem.readonly)
      × ((narrow ph base).processes ≡ base.processes)
unfolding narrow
narrow-NoWider ph base = (
  record {
    untouched = refl;
    domains = λ host h.
        admits_domain_mono (narrow ph base) base host strict
          (λ d m. In-narrow_domains ph d base.network.allow_domains m) h;
    readwrite = λ path h.
        path_in_mono path (narrow_readwrite ph base.filesystem.readwrite) base.filesystem.readwrite
          (λ g m. In-narrow_readwrite ph g base.filesystem.readwrite m) h;
    readonly = λ path h. h;
    programs = λ x m. m;
  },
  λ g m. In-narrow_readwrite ph g base.filesystem.readwrite m,
  refl,
  refl,
)
  where
    strict :
        (if ph.no_egress then true else base.network.default_deny) ≡ false
        → base.network.default_deny ≡ false
    strict e = ground arith

-- A phase with `no_egress` admits no host at all.
pub no_egress_denies :
    (ph : Phase) (base : Profile) (host : Text)
    → ph.no_egress ≡ true
    → admits_domain (narrow ph base) host ≡ deny
unfolding narrow narrow_domains admits_domain
no_egress_denies ph base host h = rw h refl

-- Over a base whose network is not deny-by-default, a phase that lists `only_domains` without
-- `no_egress` admits every host, listed or not.
pub only_domains_open :
    (ph : Phase) (base : Profile) (host : Text)
    → base.network.default_deny ≡ false
    → ph.no_egress ≡ false
    → admits_domain (narrow ph base) host ≡ allow
unfolding narrow admits_domain
only_domains_open ph base host open_ h = rw (h, open_) refl
