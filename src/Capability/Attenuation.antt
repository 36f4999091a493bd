-- ===== src/Capability/Attenuation.antt =====
-- Delegation may only attenuate: what `is_subset_of` promises about `permits`, and where it fails.
use mathlib.Core.List.{append_assoc}
use quantmlayer.Prelude.{
  ◌≡◌, refl, sym, ap, inl, inr, true, false, List, [], ◌∷◌, ◌++◌, arith, Bool-cases, length,
  length-append, In, any_elim, any_intro, all_elim, all_intro, &&-split, ||-split,
}
use quantmlayer.Text.{Text, contains}
use quantmlayer.Text.Laws.{contains_In, In_contains}
use quantmlayer.Text.Order.{In-sort_dedup, sort_dedup-In}
use quantmlayer.Capability.{
  Capability, Action, fs_read, fs_write, net_connect, exec, empty, glob_suffix, slash,
  path_within_one, path_in, paths_within, set_within, is_subset_of, permits, normalized,
}
use quantmlayer.Capability.Containment.{
  IsPlain, Covers, same, base, below, path_within_trans, path_within_iff, double_glob,
}

-- No path grant is `p/**/**`.
abbrev pub HasPlainGrants : Capability → Type 0
HasPlainGrants c =
    ((g : Text) → In g c.read_paths → IsPlain g) × ((g : Text) → In g c.write_paths → IsPlain g)

pub path_in_elim :
    (x : Text) (grants : List Text)
    → path_in x grants ≡ true
    → (g : Text) × In g grants × (path_within_one x g ≡ true)
unfolding path_in
path_in_elim x grants h = any_elim (path_within_one x) grants h

pub path_in_intro :
    (x g : Text) (grants : List Text)
    → In g grants
    → path_within_one x g ≡ true
    → path_in x grants ≡ true
unfolding path_in
path_in_intro x g grants m h = any_intro (path_within_one x) g grants m h

pub path_in-paths_within :
    (x : Text) (child parent : List Text)
    → ((g : Text) → In g parent → IsPlain g)
    → paths_within child parent ≡ true
    → path_in x child ≡ true
    → path_in x parent ≡ true
unfolding paths_within
path_in-paths_within x child parent plain sub h =
    let (g, mg, wg) = path_in_elim x child h in
    let (k, mk, wk) = path_in_elim g parent (all_elim (λ c. path_in c parent) g child sub mg) in
    path_in_intro x k parent mk (path_within_trans x g k (plain k mk) wg wk)

pub contains-set_within :
    (x : Text) (child parent : List Text)
    → set_within child parent ≡ true
    → contains child x ≡ true
    → contains parent x ≡ true
unfolding set_within
contains-set_within x child parent sub h =
    all_elim (λ c. contains parent c) x child sub (contains_In x child h)

-- The four parts of a subset.
pub record Parts (child parent : Capability) : Type 0 where
  pub reads : paths_within child.read_paths parent.read_paths ≡ true
  pub writes : paths_within child.write_paths parent.write_paths ≡ true
  pub nets : set_within child.net_domains parent.net_domains ≡ true
  pub execs : set_within child.allow_exec parent.allow_exec ≡ true

pub subset-Parts :
    (child parent : Capability) → is_subset_of child parent ≡ true → Parts child parent
unfolding is_subset_of
subset-Parts child parent h =
    let (r, h1) = &&-split (paths_within child.read_paths parent.read_paths) _ h in
    let (w, h2) = &&-split (paths_within child.write_paths parent.write_paths) _ h1 in
    let (n, e) = &&-split (set_within child.net_domains parent.net_domains) _ h2 in
    record { reads = r; writes = w; nets = n; execs = e }

pub Parts-subset :
    (child parent : Capability) → Parts child parent → is_subset_of child parent ≡ true
unfolding is_subset_of
Parts-subset child parent p = rw (p.reads, p.writes, p.nets) p.execs

-- A capability that is a subset of a parent with plain grants permits nothing that the parent
-- does not permit, whatever the action.
pub permits-is_subset_of :
    (child parent : Capability) (a : Action)
    → HasPlainGrants parent
    → is_subset_of child parent ≡ true
    → permits child a ≡ true
    → permits parent a ≡ true
unfolding permits
permits-is_subset_of child parent (fs_read path) plain sub h =
    let p = subset-Parts child parent sub in
    elim (||-split (path_in path child.read_paths) _ h) [
      | inl r ↦
          rw (path_in-paths_within path child.read_paths parent.read_paths plain.0 p.reads r) refl
      | inr w ↦
          let k =
            path_in-paths_within path child.write_paths parent.write_paths plain.1 p.writes w in
          ground (arith, k)
    ]
permits-is_subset_of child parent (fs_write path) plain sub h =
    path_in-paths_within path child.write_paths parent.write_paths plain.1
      (subset-Parts child parent sub).writes h
permits-is_subset_of child parent (net_connect domain) plain sub h =
    contains-set_within domain child.net_domains parent.net_domains
      (subset-Parts child parent sub).nets h
permits-is_subset_of child parent (exec program) plain sub h =
    contains-set_within program child.allow_exec parent.allow_exec
      (subset-Parts child parent sub).execs h

paths_within_trans :
    (a b c : List Text)
    → ((g : Text) → In g c → IsPlain g)
    → paths_within a b ≡ true
    → paths_within b c ≡ true
    → paths_within a c ≡ true
unfolding paths_within
paths_within_trans a b c plain h k =
    all_intro (λ x. path_in x c) a
      λ x m. path_in-paths_within x b c plain k (all_elim (λ y. path_in y b) x a h m)

set_within_trans :
    (a b c : List Text) → set_within a b ≡ true → set_within b c ≡ true → set_within a c ≡ true
unfolding set_within
set_within_trans a b c h k =
    all_intro (λ x. contains c x) a
      λ x m. contains-set_within x b c k (all_elim (λ y. contains b y) x a h m)

-- Attenuation composes: a subset of a subset of a capability with plain grants is a subset of it.
pub is_subset_of_trans :
    (a b c : Capability)
    → HasPlainGrants c
    → is_subset_of a b ≡ true
    → is_subset_of b c ≡ true
    → is_subset_of a c ≡ true
is_subset_of_trans a b c plain h k =
    let p = subset-Parts a b h in
    let q = subset-Parts b c k in
    Parts-subset a c (record {
      reads = paths_within_trans a.read_paths b.read_paths c.read_paths plain.0 p.reads q.reads;
      writes =
          paths_within_trans a.write_paths b.write_paths c.write_paths plain.1 p.writes q.writes;
      nets = set_within_trans a.net_domains b.net_domains c.net_domains p.nets q.nets;
      execs = set_within_trans a.allow_exec b.allow_exec c.allow_exec p.execs q.execs;
    })

paths_within_refl : (a b : List Text) → ((x : Text) → In x a → In x b) → paths_within a b ≡ true
unfolding paths_within
paths_within_refl a b f =
    all_intro (λ x. path_in x b) a
      λ x m. path_in_intro x x b (f x m) ((path_within_iff x x).1 (same refl))

set_within_refl : (a b : List Text) → ((x : Text) → In x a → In x b) → set_within a b ≡ true
unfolding set_within
set_within_refl a b f = all_intro (λ x. contains b x) a λ x m. In_contains x b (f x m)

pub is_subset_of_refl : (c : Capability) → is_subset_of c c ≡ true
is_subset_of_refl c = Parts-subset c c (record {
  reads = paths_within_refl c.read_paths c.read_paths λ x m. m;
  writes = paths_within_refl c.write_paths c.write_paths λ x m. m;
  nets = set_within_refl c.net_domains c.net_domains λ x m. m;
  execs = set_within_refl c.allow_exec c.allow_exec λ x m. m;
})

-- Normalising keeps the authority: the normal form and the original are subsets of one another.
pub normalized_same :
    (c : Capability)
    → (is_subset_of (normalized c) c ≡ true) × (is_subset_of c (normalized c) ≡ true)
unfolding normalized
normalized_same c = (
  Parts-subset (normalized c) c (record {
    reads =
        paths_within_refl (normalized c).read_paths c.read_paths
          λ x m. In-sort_dedup x c.read_paths m;
    writes =
        paths_within_refl (normalized c).write_paths c.write_paths
          λ x m. In-sort_dedup x c.write_paths m;
    nets =
        set_within_refl (normalized c).net_domains c.net_domains
          λ x m. In-sort_dedup x c.net_domains m;
    execs =
        set_within_refl (normalized c).allow_exec c.allow_exec
          λ x m. In-sort_dedup x c.allow_exec m;
  }),
  Parts-subset c (normalized c) (record {
    reads =
        paths_within_refl c.read_paths (normalized c).read_paths
          λ x m. sort_dedup-In x c.read_paths m;
    writes =
        paths_within_refl c.write_paths (normalized c).write_paths
          λ x m. sort_dedup-In x c.write_paths m;
    nets =
        set_within_refl c.net_domains (normalized c).net_domains
          λ x m. sort_dedup-In x c.net_domains m;
    execs =
        set_within_refl c.allow_exec (normalized c).allow_exec
          λ x m. sort_dedup-In x c.allow_exec m;
  }),
)

abbrev pub reads_only : Text → Capability
reads_only g = record empty { read_paths = g ∷ [] }

-- `p/**/**` does not cover `p`: by lengths.
double_misses : (p : Text) → path_within_one p (p ++ double_glob) ≡ false
double_misses p = elim (Bool-cases (path_within_one p (p ++ double_glob))) [
  | inl e ↦ absurd (refute ((path_within_iff p (p ++ double_glob)).0 e))
  | inr e ↦ e
]
  where
    refute : Covers (p ++ double_glob) p → ⊥
    refute (same e) = omega (arith, ap length e, length-append p double_glob)
    refute (base e) =
        omega (arith, ap length e, length-append p double_glob, length-append p glob_suffix)
    refute (below q r e f) = omega (
      arith,
      ap length e,
      ap length f,
      length-append p double_glob,
      length-append q glob_suffix,
      length-append q (slash ++ r),
    )

-- For every path `p`, the grant `p/**` counts as a subset of the grant `p/**/**` and permits
-- reading `p`, which the grant `p/**/**` does not permit.
pub double_glob_broadens :
    (p : Text)
    → (is_subset_of (reads_only (p ++ glob_suffix)) (reads_only (p ++ double_glob)) ≡ true)
      × (permits (reads_only (p ++ glob_suffix)) (fs_read p) ≡ true)
      × (permits (reads_only (p ++ double_glob)) (fs_read p) ≡ false)
double_glob_broadens p = (
  Parts-subset (reads_only (p ++ glob_suffix)) (reads_only (p ++ double_glob)) (record {
    reads =
        unfold paths_within path_in in
        rw
          ((path_within_iff (p ++ glob_suffix) (p ++ double_glob)).1
            (base (sym (append_assoc p glob_suffix glob_suffix))))
          refl;
    writes = unfold paths_within in refl;
    nets = unfold set_within in refl;
    execs = unfold set_within in refl;
  }),
  (unfold permits path_in in rw ((path_within_iff p (p ++ glob_suffix)).1 (base refl)) refl),
  (unfold permits path_in in rw (double_misses p) refl),
)
