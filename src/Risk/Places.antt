-- ===== src/Risk/Places.antt =====
-- The places of crates/ql-risk/src/lib.rs, described by the texts of their paths, and how the
-- sensitivity of a path depends on them.
use quantmlayer.Prelude.{
  ◌≡◌, refl, ◌↔◌, ◌⊎◌, inl, inr, Bool, true, false, Option, none, some, List, [], ◌∷◌, any,
  any_elim, any_intro, In, if◌then◌else◌,
}
use quantmlayer.Text.{Text, codes, includes}
use quantmlayer.Text.Laws.{text_eq_iff}
use quantmlayer.Text.Occurrence.{
  StartsWith, StartsWithAny, Occurs, starts_with_iff, includes_iff, any-starts_with_iff, ||_iff,
  false_iff, not_iff,
}
use quantmlayer.Risk.{
  Context, Sensitivity, secret, system_lib, system, home, project, unknown, starts_with_any,
  secret_markers, is_secret, is_project, is_system_lib, is_system, is_home, is_system_binary,
  in_root, sensitivity_in,
}

-- A credential location: a marker stands somewhere in the path, or it is one of the system's.
abbrev pub InSecret : Text → Type 0
InSecret r =
    ((m : Text) × In m secret_markers × Occurs m r)
    ⊎ (((r ≡ codes "/etc/shadow") ⊎ ((r ≡ codes "/etc/gshadow") ⊎ (r ≡ codes "/etc/sudoers")))
        ⊎ StartsWith (codes "/etc/sudoers.d") r)

-- Under the root, as a text: a sibling whose name continues the root's is in it too.
abbrev pub InRoot : Option Text → Text → Type 0
InRoot none r = ⊥
InRoot (some []) r = ⊥
InRoot (some (c ∷ root)) r = StartsWith (c ∷ root) r

-- A temporary place, or a relative path.
abbrev pub InTemporary : Text → Type 0
InTemporary r =
    (r ≡ codes "/tmp")
    ⊎ (StartsWith (codes "/tmp/") r
        ⊎ (StartsWith (codes "/var/tmp") r
            ⊎ (StartsWith (codes "/dev/shm") r ⊎ (¬ StartsWith (codes "/") r))))

abbrev pub library_places : List Text
library_places = codes "/usr/" ∷ codes "/lib/" ∷ codes "/lib64" ∷ codes "/opt/" ∷ []

abbrev pub system_places : List Text
system_places =
    codes "/etc"
    ∷ codes "/root"
    ∷ codes "/boot"
    ∷ codes "/sys"
    ∷ codes "/proc"
    ∷ codes "/dev"
    ∷ codes "/run"
    ∷ codes "/var"
    ∷ []

abbrev pub binary_places : List Text
binary_places =
    codes "/usr/bin/"
    ∷ codes "/bin/"
    ∷ codes "/usr/sbin/"
    ∷ codes "/sbin/"
    ∷ codes "/usr/local/bin/"
    ∷ codes "/usr/local/sbin/"
    ∷ []

marked_iff :
    (r : Text)
    → (any (λ m. includes m r) secret_markers ≡ true)
      ↔ ((m : Text) × In m secret_markers × Occurs m r)
marked_iff r = (
  λ h.
      let (m, k, e) = any_elim (λ m. includes m r) secret_markers h in
      (m, k, (includes_iff m r).0 e),
  λ q. any_intro (λ m. includes m r) (q.0) secret_markers (q.1) ((includes_iff (q.0) r).1 (q.2)),
)

is_secret_iff : (r : Text) → (is_secret r ≡ true) ↔ InSecret r
unfolding is_secret
is_secret_iff r = ||_iff _ _ (marked_iff r) (
    ||_iff _ _
      (||_iff _ _ (text_eq_iff r (codes "/etc/shadow"))
        (||_iff _ _ (text_eq_iff r (codes "/etc/gshadow")) (text_eq_iff r (codes "/etc/sudoers"))))
      (starts_with_iff (codes "/etc/sudoers.d") r))

in_root_iff : (root : Option Text) (r : Text) → (in_root root r ≡ true) ↔ InRoot root r
unfolding in_root
in_root_iff none r = (λ h. cc, λ q. absurd q)
in_root_iff (some []) r = (λ h. cc, λ q. absurd q)
in_root_iff (some (c ∷ root)) r = starts_with_iff (c ∷ root) r

is_project_iff : (r : Text) → (is_project r ≡ true) ↔ InTemporary r
unfolding is_project
is_project_iff r = ||_iff _ _ (text_eq_iff r (codes "/tmp")) (
    ||_iff _ _ (starts_with_iff (codes "/tmp/") r) (
      ||_iff _ _ (starts_with_iff (codes "/var/tmp") r) (
        ||_iff _ _ (starts_with_iff (codes "/dev/shm") r)
          (not_iff _ (starts_with_iff (codes "/") r)))))

pub is_system_binary_iff : (r : Text) → (is_system_binary r ≡ true) ↔ StartsWithAny binary_places r
unfolding is_system_binary starts_with_any
is_system_binary_iff r = any-starts_with_iff binary_places r

is_system_lib_iff : (r : Text) → (is_system_lib r ≡ true) ↔ StartsWithAny library_places r
unfolding is_system_lib starts_with_any
is_system_lib_iff r = any-starts_with_iff library_places r

is_system_iff : (r : Text) → (is_system r ≡ true) ↔ StartsWithAny system_places r
unfolding is_system starts_with_any
is_system_iff r = any-starts_with_iff system_places r

-- The order of the tests.
abbrev ranked : Bool → Bool → Bool → Bool → Bool → Bool → Sensitivity
ranked s i p l y h =
    if s
    then secret
    else if i
    then project
    else if p
    then project
    else if l
    then system_lib
    else if y
    then system
    else if h
    then home
    else unknown

ranked_project :
    (s i p l y h : Bool)
    → (ranked s i p l y h ≡ project) ↔ ((s ≡ false) × ((i ≡ true) ⊎ (p ≡ true)))
ranked_project true i p l y h = (λ e. cc, λ q. cc)
ranked_project false true p l y h = (λ e. (refl, inl refl), λ q. refl)
ranked_project false false true l y h = (λ e. (refl, inr refl), λ q. refl)
ranked_project false false false true y h = (λ e. cc, λ q. elim (q.1) [ inl e ↦ cc | inr e ↦ cc ])
ranked_project false false false false true h =
    (λ e. cc, λ q. elim (q.1) [ inl e ↦ cc | inr e ↦ cc ])
ranked_project false false false false false true =
    (λ e. cc, λ q. elim (q.1) [ inl e ↦ cc | inr e ↦ cc ])
ranked_project false false false false false false =
    (λ e. cc, λ q. elim (q.1) [ inl e ↦ cc | inr e ↦ cc ])

ranked_library :
    (s i p l y h : Bool) → ranked s i p l y h ≡ system_lib → (s ≡ false) × ((l ≡ true) ⊎ (y ≡ true))
ranked_library true i p l y h e = cc
ranked_library false true p l y h e = cc
ranked_library false false true l y h e = cc
ranked_library false false false true y h e = (refl, inl refl)
ranked_library false false false false true h e = cc
ranked_library false false false false false true e = cc
ranked_library false false false false false false e = cc

ranked_system :
    (s i p l y h : Bool) → ranked s i p l y h ≡ system → (s ≡ false) × ((l ≡ true) ⊎ (y ≡ true))
ranked_system true i p l y h e = cc
ranked_system false true p l y h e = cc
ranked_system false false true l y h e = cc
ranked_system false false false true y h e = cc
ranked_system false false false false true h e = (refl, inr refl)
ranked_system false false false false false true e = cc
ranked_system false false false false false false e = cc

-- Past the secrets and the project's places, the libraries and the system come before the homes.
ranked_readable :
    (i p l y h : Bool)
    → (l ≡ true) ⊎ (y ≡ true)
    → (ranked false i p l y h ≡ project)
      ⊎ ((ranked false i p l y h ≡ system_lib) ⊎ (ranked false i p l y h ≡ system))
ranked_readable true p l y h q = inl refl
ranked_readable false true l y h q = inl refl
ranked_readable false false true y h q = inr (inl refl)
ranked_readable false false false true h q = inr (inr refl)
ranked_readable false false false false h q = elim q [
  | inl e ↦ absurd (clash e)
  | inr e ↦ absurd (clash e)
]
  where
    clash : false ≡ true → ⊥
    clash e = cc

-- A path of the project, by its text: under the root, or temporary.
abbrev pub InProject : Context → Text → Type 0
InProject ctx r = InRoot ctx.project_root r ⊎ InTemporary r

pub sensitivity_in-project :
    (r : Text) (ctx : Context)
    → (sensitivity_in r ctx ≡ project) ↔ ((¬ InSecret r) × InProject ctx r)
unfolding sensitivity_in
sensitivity_in-project r ctx =
    let both =
      ranked_project (is_secret r) (in_root ctx.project_root r) (is_project r) (is_system_lib r)
        (is_system r) (is_home r) in
    let free = false_iff (is_secret r) (is_secret_iff r) in
    let root = in_root_iff ctx.project_root r in
    let place = is_project_iff r in
    (
      λ e.
          let (k, q) = both.0 e in
          (free.0 k, elim q [ inl i ↦ inl (root.0 i) | inr p ↦ inr (place.0 p) ]),
      λ q. both.1 (free.1 (q.0), elim (q.1) [ inl i ↦ inl (root.1 i) | inr p ↦ inr (place.1 p) ]),
    )

abbrev pub InSystem : Text → Type 0
InSystem r = StartsWithAny library_places r ⊎ StartsWithAny system_places r

pub sensitivity_in-system :
    (r : Text) (ctx : Context)
    → (sensitivity_in r ctx ≡ system_lib) ⊎ (sensitivity_in r ctx ≡ system)
    → (¬ InSecret r) × InSystem r
unfolding sensitivity_in
sensitivity_in-system r ctx h = elim h [
  | inl e ↦ placed (ranked_library _ _ _ _ _ _ e)
  | inr e ↦ placed (ranked_system _ _ _ _ _ _ e)
]
  where
    placed :
        (is_secret r ≡ false) × ((is_system_lib r ≡ true) ⊎ (is_system r ≡ true))
        → (¬ InSecret r) × InSystem r
    placed q = (
      (false_iff (is_secret r) (is_secret_iff r)).0 (q.0),
      elim (q.1) [ inl l ↦ inl ((is_system_lib_iff r).0 l) | inr y ↦ inr ((is_system_iff r).0 y) ],
    )

pub system-sensitivity_in :
    (r : Text) (ctx : Context)
    → (¬ InSecret r) × InSystem r
    → (sensitivity_in r ctx ≡ project)
      ⊎ ((sensitivity_in r ctx ≡ system_lib) ⊎ (sensitivity_in r ctx ≡ system))
unfolding sensitivity_in
system-sensitivity_in r ctx q = rw ((false_iff (is_secret r) (is_secret_iff r)).1 (q.0)) (
    ranked_readable (in_root ctx.project_root r) (is_project r) (is_system_lib r) (is_system r)
      (is_home r)
      (elim (q.1) [
        | inl l ↦ inl ((is_system_lib_iff r).1 l)
        | inr y ↦ inr ((is_system_iff r).1 y)
      ]))
