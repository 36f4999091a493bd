-- ===== src/Binding.antt =====
-- crates/ql-cli/src/token_bind.rs and token_issue.rs: a profile as a capability, and a profile
-- narrowed to one.
pub mod Attenuation
mod Tests
use quantmlayer.Prelude.{
  Bool, true, false, Option, none, some, List, [], ◌∷◌, ◌++◌, if◌then◌else◌, retain,
}
use quantmlayer.Text.{Text, contains}
use quantmlayer.Text.Order.{sort_dedup}
use quantmlayer.Capability.{Capability, normalized, path_within_one}
use quantmlayer.Profile.{Profile, FsPolicy, NetPolicy, ProcPolicy}

unfoldable pub subtask_capability : Profile → Capability
unfolding normalized
subtask_capability profile = normalized (record {
  read_paths = profile.filesystem.readonly;
  write_paths = profile.filesystem.readwrite;
  net_domains = profile.network.allow_domains;
  allow_exec = profile.processes.allow_exec;
})

-- What a pair of grants pushes; path_contains(b, a) is `path_within_one a b`.
unfoldable pub narrower : Text → Text → List Text
unfolding path_within_one
narrower a b = if path_within_one a b then a ∷ [] else if path_within_one b a then b ∷ [] else []

-- The inner loop, over the capability's grants.
unfoldable pub narrower_all : Text → List Text → List Text
unfolding narrower
narrower_all a [] = []
narrower_all a (b ∷ bs) = narrower a b ++ narrower_all a bs

-- The outer loop, over the profile's.
unfoldable pub narrower_pairs : List Text → List Text → List Text
unfolding narrower_all
narrower_pairs [] bs = []
narrower_pairs (a ∷ xs) bs = narrower_all a bs ++ narrower_pairs xs bs

unfoldable pub intersect_paths : List Text → List Text → List Text
unfolding narrower_pairs sort_dedup
intersect_paths profile_paths cap_paths = sort_dedup (narrower_pairs profile_paths cap_paths)

unfoldable pub intersect_exact : List Text → List Text → List Text
unfolding contains sort_dedup
intersect_exact profile_set cap_set = sort_dedup (retain (contains cap_set) profile_set)

unfoldable pub bind_profile_to_capability : Profile → Capability → Profile
unfolding intersect_paths intersect_exact
bind_profile_to_capability profile cap = record profile {
  filesystem = record (profile.filesystem) {
    readonly = intersect_paths profile.filesystem.readonly cap.read_paths;
    readwrite = intersect_paths profile.filesystem.readwrite cap.write_paths;
  };
  network = record (profile.network) {
    allow_domains = intersect_exact profile.network.allow_domains cap.net_domains;
  };
  processes = record (profile.processes) {
    allow_exec = intersect_exact profile.processes.allow_exec cap.allow_exec;
  };
}
