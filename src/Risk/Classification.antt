-- ===== src/Risk/Classification.antt =====
-- Which grants a review may skip, and the counts of a report.
use quantmlayer.Prelude.{
  ℕ, ◌+◌, ◌≡◌, refl, ◌↔◌, ◌⊎◌, inl, inr, Bool, true, false, some, List, [], ◌∷◌, ◌++◌,
  if◌then◌else◌, length, retain, arith, Bool-cases,
}
use quantmlayer.Text.{Text, codes, includes}
use quantmlayer.Text.Laws.{starts_with-append}
use quantmlayer.Text.Occurrence.{StartsWithAny}
use quantmlayer.Risk.Places.{
  InSecret, InProject, InSystem, binary_places, is_system_binary_iff, sensitivity_in-project,
  sensitivity_in-system, system-sensitivity_in,
}
use quantmlayer.Risk.{
  RiskLevel, allow_candidate, review, deny_by_default, GrantKind, fs_read, fs_write, fs_denied,
  exec, net_egress, syscall_denied, Context, Sensitivity, secret, system_lib, system, home, project,
  unknown, is_secret, in_root, is_system_binary, sensitivity_in, classify_fs_read,
  classify_fs_write, classify_exec, classify_net, classify_in, GrantRisk, RiskSummary, count_level,
  summarise, new,
}

abbrev Readable : Sensitivity → Type 0
Readable s = (s ≡ project) ⊎ ((s ≡ system_lib) ⊎ (s ≡ system))

-- Where a grant needs no review, by the text of the path.
abbrev pub MayKeep : GrantKind → Text → Context → Type 0
MayKeep fs_read r ctx = (¬ InSecret r) × (InProject ctx r ⊎ InSystem r)
MayKeep fs_write r ctx = (¬ InSecret r) × InProject ctx r
MayKeep exec r ctx = StartsWithAny binary_places r
MayKeep fs_denied r ctx = ⊥
MayKeep net_egress r ctx = ⊥
MayKeep syscall_denied r ctx = ⊥

Readable-iff :
    (r : Text) (ctx : Context)
    → Readable (sensitivity_in r ctx) ↔ ((¬ InSecret r) × (InProject ctx r ⊎ InSystem r))
Readable-iff r ctx = (
  λ h. elim h [
    | inl e ↦ let (k, q) = (sensitivity_in-project r ctx).0 e in (k, inl q)
    | inr e ↦ let (k, q) = sensitivity_in-system r ctx e in (k, inr q)
  ],
  λ q. elim (q.1) [
    | inl p ↦ inl ((sensitivity_in-project r ctx).1 (q.0, p))
    | inr y ↦ system-sensitivity_in r ctx (q.0, y)
  ],
)

read_iff :
    (r : Text) (s : Sensitivity) → ((classify_fs_read r s).level ≡ allow_candidate) ↔ Readable s
unfolding classify_fs_read
read_iff r project = (λ h. inl refl, λ h. refl)
read_iff r system_lib = (λ h. inr (inl refl), λ h. refl)
read_iff r system = (λ h. inr (inr refl), λ h. refl)
read_iff r secret =
    ((λ h. cc), (λ h. elim h [ inl e ↦ cc | inr k ↦ elim k [ inl e ↦ cc | inr e ↦ cc ] ]))
read_iff r home =
    ((λ h. cc), (λ h. elim h [ inl e ↦ cc | inr k ↦ elim k [ inl e ↦ cc | inr e ↦ cc ] ]))
read_iff r unknown =
    ((λ h. cc), (λ h. elim h [ inl e ↦ cc | inr k ↦ elim k [ inl e ↦ cc | inr e ↦ cc ] ]))

write_iff :
    (r : Text) (s : Sensitivity) → ((classify_fs_write r s).level ≡ allow_candidate) ↔ (s ≡ project)
unfolding classify_fs_write
write_iff r project = (λ h. refl, λ h. refl)
write_iff r secret = ((λ h. cc), (λ h. cc))
write_iff r system_lib = ((λ h. cc), (λ h. cc))
write_iff r system = ((λ h. cc), (λ h. cc))
write_iff r home = ((λ h. cc), (λ h. cc))
write_iff r unknown = ((λ h. cc), (λ h. cc))

exec_iff : (r : Text) → ((classify_exec r).level ≡ allow_candidate) ↔ (is_system_binary r ≡ true)
unfolding classify_exec
exec_iff r = elim (Bool-cases (is_system_binary r)) [
  | inl e ↦ rw e ((λ h. refl), (λ h. refl))
  | inr e ↦ rw e ((λ h. cc), (λ h. cc))
]

net_never : (r : Text) → (classify_net r).level ≡ allow_candidate → ⊥
unfolding classify_net
net_never r h = elim (Bool-cases (includes (codes "169.254.169.254") r)) [
  | inl e ↦ metadata (rw e at h)
  | inr e ↦ external (rw e at h)
]
  where
    metadata : deny_by_default ≡ allow_candidate → ⊥
    metadata k = cc

    external : review ≡ allow_candidate → ⊥
    external k = cc

-- A grant is an allow candidate exactly when it reads outside the credential locations a path that
-- the code counts as the project's (its text continues the project root's, or it is temporary or
-- relative) or as the libraries' or the system's by its prefix; when it writes outside the credential
-- locations a path that counts as the project's; or when it executes a path under a directory of
-- system binaries. A network, denied or syscall line never is.
pub classify_in-MayKeep :
    (r : Text) (kind : GrantKind) (ctx : Context)
    → ((classify_in r kind ctx).level ≡ allow_candidate) ↔ MayKeep kind r ctx
unfolding classify_in
classify_in-MayKeep r fs_read ctx =
    let level = read_iff r (sensitivity_in r ctx) in
    let place = Readable-iff r ctx in (λ h. place.0 (level.0 h), λ q. level.1 (place.1 q))
classify_in-MayKeep r fs_write ctx =
    let level = write_iff r (sensitivity_in r ctx) in
    let place = sensitivity_in-project r ctx in (λ h. place.0 (level.0 h), λ q. level.1 (place.1 q))
classify_in-MayKeep r fs_denied ctx = ((λ h. cc), (λ h. absurd h))
classify_in-MayKeep r exec ctx =
    let place = is_system_binary_iff r in
    let level = exec_iff r in (λ h. place.0 (level.0 h), λ q. level.1 (place.1 q))
classify_in-MayKeep r net_egress ctx = ((λ h. net_never r h), (λ h. absurd h))
classify_in-MayKeep r syscall_denied ctx = ((λ h. cc), (λ h. absurd h))

-- The project root is compared as a text: every path that continues it, a sibling directory's too,
-- counts as the project's, and a write to it is an allow candidate, unless it is a secret.
pub classify_in_root_prefix :
    (c : ℕ) (root rest : Text)
    → is_secret ((c ∷ root) ++ rest) ≡ false
    → (classify_in ((c ∷ root) ++ rest) fs_write (record { project_root = some (c ∷ root) })).level
      ≡ allow_candidate
unfolding classify_in sensitivity_in in_root
classify_in_root_prefix c root rest h =
    rw (h, starts_with-append (c ∷ root) rest) (unfold classify_fs_write in refl)

abbrev same_level : RiskLevel → RiskLevel → Bool
same_level allow_candidate allow_candidate = true
same_level review review = true
same_level deny_by_default deny_by_default = true
same_level _ _ = false

-- How many grants have a level.
abbrev pub count_of : RiskLevel → List GrantRisk → ℕ
count_of l gs = length (retain (λ (g : GrantRisk). same_level l g.level) gs)

abbrev Counted : RiskSummary → List GrantRisk → RiskSummary → Type 0
Counted s gs t =
    (t.allow_count ≡ s.allow_count + count_of allow_candidate gs)
    × (t.review_count ≡ s.review_count + count_of review gs)
    × (t.deny_count ≡ s.deny_count + count_of deny_by_default gs)

abbrev one_if : Bool → ℕ
one_if b = if b then 1 else 0

count_cons :
    (l : RiskLevel) (g : GrantRisk) (gs : List GrantRisk)
    → count_of l (g ∷ gs) ≡ one_if (same_level l g.level) + count_of l gs
count_cons l g gs = elim (Bool-cases (same_level l g.level)) [
  | inl e ↦ rw e (omega arith)
  | inr e ↦ rw e (omega arith)
]

-- One grant raises the count of its own level by one, and no other.
level_adds :
    (l : RiskLevel) (s : RiskSummary)
    → ((count_level l s).allow_count ≡ s.allow_count + one_if (same_level allow_candidate l))
      × ((count_level l s).review_count ≡ s.review_count + one_if (same_level review l))
      × ((count_level l s).deny_count ≡ s.deny_count + one_if (same_level deny_by_default l))
level_adds allow_candidate s = (omega arith, omega arith, omega arith)
level_adds review s = (omega arith, omega arith, omega arith)
level_adds deny_by_default s = (omega arith, omega arith, omega arith)

summarise-Counted : (s : RiskSummary) (gs : List GrantRisk) → Counted s gs (summarise s gs)
unfolding summarise
summarise-Counted s [] = (omega arith, omega arith, omega arith)
summarise-Counted s (g ∷ gs) =
    let (a, r, d) = summarise-Counted (count_level g.level s) gs in
    let (x, y, z) = level_adds g.level s in
    (
      omega (arith, a, x, count_cons allow_candidate g gs),
      omega (arith, r, y, count_cons review g gs),
      omega (arith, d, z, count_cons deny_by_default g gs),
    )

one_level :
    (l : RiskLevel)
    → one_if (same_level allow_candidate l)
        + one_if (same_level review l)
        + one_if (same_level deny_by_default l)
      ≡ 1
one_level allow_candidate = refl
one_level review = refl
one_level deny_by_default = refl

by_level_length :
    (gs : List GrantRisk)
    → count_of allow_candidate gs + count_of review gs + count_of deny_by_default gs ≡ length gs
by_level_length [] = refl
by_level_length (g ∷ gs) = omega (
  arith,
  by_level_length gs,
  one_level g.level,
  count_cons allow_candidate g gs,
  count_cons review g gs,
  count_cons deny_by_default g gs,
)

-- A report's summary counts the grants of each level, and the three counts add up to the number of
-- grants, which it lists unchanged.
pub new_counts :
    (agent : Text) (gs : List GrantRisk)
    → ((new agent gs).summary.allow_count ≡ count_of allow_candidate gs)
      × ((new agent gs).summary.review_count ≡ count_of review gs)
      × ((new agent gs).summary.deny_count ≡ count_of deny_by_default gs)
      × ((new agent gs).summary.allow_count
            + (new agent gs).summary.review_count
            + (new agent gs).summary.deny_count
          ≡ length gs)
      × ((new agent gs).grants ≡ gs)
unfolding new
new_counts agent gs =
    let (a, r, d) =
      summarise-Counted (record { allow_count = 0; review_count = 0; deny_count = 0 }) gs in
    (
      omega (arith, a),
      omega (arith, r),
      omega (arith, d),
      omega (arith, a, r, d, by_level_length gs),
      refl,
    )
