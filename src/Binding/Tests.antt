-- ===== src/Binding/Tests.antt =====
-- Runs of the binding, and the theorems at a profile and a capability.
use quantmlayer.Prelude.{◌≡◌, refl, [], ◌∷◌}
use quantmlayer.Text.{Text, codes}
use quantmlayer.Capability.{Capability, empty}
use quantmlayer.Profile.{Profile, default}
use quantmlayer.Binding.{intersect_paths}

abbrev coding : Profile
coding = record default {
  network = record default.network { allow_domains = codes "example.com" ∷ codes "crates.io" ∷ [] };
  filesystem = record default.filesystem { readwrite = codes "/repo/**" ∷ codes "/tmp/**" ∷ [] };
}

abbrev narrow_cap : Capability
narrow_cap = record empty {
  write_paths = codes "/repo/src/**" ∷ [];
  net_domains = codes "crates.io" ∷ [];
}

-- The narrower grant of each pair is kept, the disjoint one dropped.
paths_run :
    intersect_paths (codes "/repo/**" ∷ codes "/tmp/**" ∷ []) (codes "/repo/src/**" ∷ [])
    ≡ codes "/repo/src/**" ∷ []
unfolding intersect_paths
paths_run = refl
