-- ===== src/Capability.antt =====
-- crates/ql-token/src/capability.rs: grant sets, the containment of one in another, and what a
-- capability permits.
pub mod Containment
pub mod Attenuation
mod Tests
use quantmlayer.Prelude.{
  Bool, true, false, ◌&&◌, ◌||◌, none, some, List, [], ◌++◌, if◌then◌else◌, any, all,
}
use quantmlayer.Text.{Text, codes, text_eq, contains, starts_with, strip_suffix}
use quantmlayer.Text.Order.{sort, dedup, sort_dedup}

pub record Capability : Type 0 where
  pub read_paths : List Text
  pub write_paths : List Text
  pub net_domains : List Text
  pub allow_exec : List Text

pub data Action : Type 0 where
  fs_read fs_write net_connect exec : Text → Action

-- Capability::default()
abbrev pub empty : Capability
empty = record { read_paths = []; write_paths = []; net_domains = []; allow_exec = [] }

-- `v.sort(); v.dedup()` on each of the four lists
unfoldable pub normalized : Capability → Capability
unfolding sort_dedup
normalized c = record {
  read_paths = sort_dedup c.read_paths;
  write_paths = sort_dedup c.write_paths;
  net_domains = sort_dedup c.net_domains;
  allow_exec = sort_dedup c.allow_exec;
}

abbrev pub glob_suffix : Text
glob_suffix = codes "/**"

abbrev pub slash : Text
slash = codes "/"

unfoldable pub path_within_one : Text → Text → Bool
unfolding text_eq starts_with strip_suffix
path_within_one child parent =
    if text_eq child parent then true else elim (strip_suffix glob_suffix parent) [
      | some prefix ↦ text_eq child prefix || starts_with (prefix ++ slash) child
      | none ↦ false
    ]

unfoldable pub path_contains : Text → Text → Bool
unfolding path_within_one
path_contains parent child = path_within_one child parent

unfoldable pub path_in : Text → List Text → Bool
unfolding path_within_one
path_in path grants = any (path_within_one path) grants

unfoldable pub paths_within : List Text → List Text → Bool
unfolding path_in
paths_within child parent = all (λ c. path_in c parent) child

unfoldable pub set_within : List Text → List Text → Bool
unfolding contains
set_within child parent = all (λ c. contains parent c) child

unfoldable pub is_subset_of : Capability → Capability → Bool
unfolding paths_within set_within
is_subset_of self parent =
    paths_within self.read_paths parent.read_paths
    && (paths_within self.write_paths parent.write_paths
        && (set_within self.net_domains parent.net_domains
            && set_within self.allow_exec parent.allow_exec))

unfoldable pub permits : Capability → Action → Bool
unfolding path_in contains
permits self (fs_read path) = path_in path self.read_paths || path_in path self.write_paths
permits self (fs_write path) = path_in path self.write_paths
permits self (net_connect domain) = contains self.net_domains domain
permits self (exec program) = contains self.allow_exec program
