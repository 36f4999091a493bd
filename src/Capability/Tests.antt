-- ===== src/Capability/Tests.antt =====
-- Runs of the capability checks, and the theorems at them.
use quantmlayer.Prelude.{◌≡◌, refl, inl, inr, In, true, false, [], ◌∷◌}
use quantmlayer.Text.{Text, codes, ends_with}
use quantmlayer.Capability.{Capability, fs_read, path_within_one, is_subset_of, permits}
use quantmlayer.Capability.Containment.{IsPlain}
use quantmlayer.Capability.Attenuation.{HasPlainGrants, permits-is_subset_of, reads_only}

abbrev below_src : Text
below_src = codes "/repo/src/**"

abbrev repo : Capability
repo = reads_only (codes "/repo/**")

abbrev src : Capability
src = reads_only below_src

abbrev main : Capability
main = reads_only (codes "/repo/src/main.rs")

-- The boundary is a path component.
sibling_runs : path_within_one (codes "/repository/x") (codes "/repo/**") ≡ false
unfolding path_within_one
sibling_runs = refl

src_below : is_subset_of src repo ≡ true
unfolding is_subset_of
src_below = refl

main_below : is_subset_of main src ≡ true
unfolding is_subset_of
main_below = refl

repo_plain : HasPlainGrants repo
repo_plain = (plain, λ g m. absurd m)
  where
    plain : (g : Text) → In g (codes "/repo/**" ∷ []) → IsPlain g
    plain g (inl e) = rw e (unfold ends_with in refl)
    plain g (inr u) = absurd u

main_permits : permits src (fs_read (codes "/repo/src/main.rs")) ≡ true
unfolding permits
main_permits = refl

permits-is_subset_of_example : permits repo (fs_read (codes "/repo/src/main.rs")) ≡ true
permits-is_subset_of_example =
    permits-is_subset_of src repo (fs_read (codes "/repo/src/main.rs")) repo_plain src_below
      main_permits
