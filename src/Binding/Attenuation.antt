-- ===== src/Binding/Attenuation.antt =====
-- A bound profile is within both of its inputs.
use quantmlayer.Prelude.{
  ◌≡◌, refl, inl, inr, true, List, [], ◌∷◌, retain, retain_elim, Bool-cases, In, In-append,
  all_intro,
}
use quantmlayer.Text.{Text, contains}
use quantmlayer.Text.Laws.{contains_In, In_contains}
use quantmlayer.Text.Order.{sort_dedup, In-sort_dedup}
use quantmlayer.Capability.{
  Capability, normalized, path_within_one, path_in, paths_within, set_within, is_subset_of,
}
use quantmlayer.Capability.Attenuation.{path_in_intro, Parts-subset}
use quantmlayer.Profile.{Profile}
use quantmlayer.Profile.Narrowing.{path_in_of_In}
use quantmlayer.Binding.{
  subtask_capability, narrower, narrower_all, narrower_pairs, intersect_paths, intersect_exact,
  bind_profile_to_capability,
}

-- A grant that lies within one of `xs` and within one of `ys`.
abbrev Within : List Text → List Text → Text → Type 0
Within xs ys g = (path_in g xs ≡ true) × (path_in g ys ≡ true)

narrower-Within :
    (a b g : Text) (xs ys : List Text) → In a xs → In b ys → In g (narrower a b) → Within xs ys g
unfolding narrower
narrower-Within a b g xs ys ma mb m = elim (Bool-cases (path_within_one a b)) [
  | inl e ↦ first (rw e at m) e
  | inr n ↦ elim (Bool-cases (path_within_one b a)) [
    | inl e ↦ second (rw (n, e) at m) e
    | inr k ↦ absurd (rw (n, k) at m)
  ]
]
  where
    first : In g (a ∷ []) → path_within_one a b ≡ true → Within xs ys g
    first (inl e) h = rw e (path_in_of_In a xs ma, path_in_intro a b ys mb h)
    first (inr u) h = absurd u

    second : In g (b ∷ []) → path_within_one b a ≡ true → Within xs ys g
    second (inl e) h = rw e (path_in_intro b a xs ma h, path_in_of_In b ys mb)
    second (inr u) h = absurd u

narrower_all-Within :
    (a g : Text) (xs ys bs : List Text)
    → In a xs
    → ((b : Text) → In b bs → In b ys)
    → In g (narrower_all a bs)
    → Within xs ys g
unfolding narrower_all
narrower_all-Within a g xs ys [] ma sub m = absurd m
narrower_all-Within a g xs ys (b ∷ bs) ma sub m =
    elim (In-append g (narrower a b) (narrower_all a bs) m) [
      | inl k ↦ narrower-Within a b g xs ys ma (sub b (inl refl)) k
      | inr k ↦ narrower_all-Within a g xs ys bs ma (λ x n. sub x (inr n)) k
    ]

narrower_pairs-Within :
    (g : Text) (xs ys zs : List Text)
    → ((a : Text) → In a zs → In a xs)
    → In g (narrower_pairs zs ys)
    → Within xs ys g
unfolding narrower_pairs
narrower_pairs-Within g xs ys [] sub m = absurd m
narrower_pairs-Within g xs ys (a ∷ zs) sub m =
    elim (In-append g (narrower_all a ys) (narrower_pairs zs ys) m) [
      | inl k ↦ narrower_all-Within a g xs ys ys (sub a (inl refl)) (λ b n. n) k
      | inr k ↦ narrower_pairs-Within g xs ys zs (λ x n. sub x (inr n)) k
    ]

intersect_paths-Within :
    (g : Text) (xs ys : List Text) → In g (intersect_paths xs ys) → Within xs ys g
unfolding intersect_paths
intersect_paths-Within g xs ys m =
    narrower_pairs-Within g xs ys xs (λ a n. n) (In-sort_dedup g (narrower_pairs xs ys) m)

intersect_exact-In :
    (g : Text) (xs ys : List Text) → In g (intersect_exact xs ys) → In g xs × In g ys
unfolding intersect_exact
intersect_exact-In g xs ys m =
    let (mx, h) = retain_elim (contains ys) g xs (In-sort_dedup g (retain (contains ys) xs) m) in
    (mx, contains_In g ys h)

-- The credential of the bound profile is a subset of the capability it was bound to.
pub bind-is_subset_of :
    (profile : Profile) (cap : Capability)
    → is_subset_of (subtask_capability (bind_profile_to_capability profile cap)) cap ≡ true
unfolding subtask_capability normalized bind_profile_to_capability paths_within set_within
bind-is_subset_of profile cap =
    Parts-subset (subtask_capability (bind_profile_to_capability profile cap)) cap (record {
      reads =
          all_intro (λ x. path_in x cap.read_paths)
            (sort_dedup (intersect_paths profile.filesystem.readonly cap.read_paths))
            λ g m.
              (intersect_paths-Within g profile.filesystem.readonly cap.read_paths
                (In-sort_dedup g _ m)).1;
      writes =
          all_intro (λ x. path_in x cap.write_paths)
            (sort_dedup (intersect_paths profile.filesystem.readwrite cap.write_paths))
            λ g m.
              (intersect_paths-Within g profile.filesystem.readwrite cap.write_paths
                (In-sort_dedup g _ m)).1;
      nets =
          all_intro (contains cap.net_domains)
            (sort_dedup (intersect_exact profile.network.allow_domains cap.net_domains))
            λ g m.
              In_contains g cap.net_domains
                (intersect_exact-In g profile.network.allow_domains cap.net_domains
                  (In-sort_dedup g _ m)).1;
      execs =
          all_intro (contains cap.allow_exec)
            (sort_dedup (intersect_exact profile.processes.allow_exec cap.allow_exec))
            λ g m.
              In_contains g cap.allow_exec
                (intersect_exact-In g profile.processes.allow_exec cap.allow_exec
                  (In-sort_dedup g _ m)).1;
    })
