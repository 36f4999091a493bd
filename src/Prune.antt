-- ===== src/Prune.antt =====
-- crates/ql-cli/src/prune.rs: a profile's hosted-provider domains are narrowed to the one that an
-- agent's own configuration names. Reading YAML is third-party code: an argument that gives a
-- document's top-level strings by key.
pub mod Hosted
pub mod Narrowing
mod Tests
use quantmlayer.Prelude.{
  ℕ, ◌-◌, Bool, true, false, ◌&&◌, ◌||◌, not, Option, none, some, List, [], ◌∷◌, ◌==◌, leb,
  if◌then◌else◌, length, take, retain,
}
use quantmlayer.Text.{Text, codes, text_eq, contains, to_ascii_lowercase}
use quantmlayer.Text.Trim.{trim}
use quantmlayer.Profile.{Profile}

abbrev pub provider_domains : List Text
provider_domains =
    codes "api.anthropic.com"
    ∷ codes "api.openai.com"
    ∷ codes "generativelanguage.googleapis.com"
    ∷ codes "api.x.ai"
    ∷ codes "openrouter.ai"
    ∷ []

abbrev pub domain_of : Text → Option Text
unfolding text_eq
domain_of name =
    if text_eq name (codes "anthropic")
    then some (codes "api.anthropic.com")
    else if text_eq name (codes "openai")
    then some (codes "api.openai.com")
    else if text_eq name (codes "google") || text_eq name (codes "gemini")
    then some (codes "generativelanguage.googleapis.com")
    else if text_eq name (codes "xai")
    then some (codes "api.x.ai")
    else if text_eq name (codes "openrouter")
    then some (codes "openrouter.ai")
    else none

unfoldable pub provider_domain : Text → Option Text
unfolding trim to_ascii_lowercase domain_of
provider_domain provider = domain_of (to_ascii_lowercase (trim provider))

pub data PruneOutcome : Type 0 where
  pruned : (kept : Text) (removed : ℕ) → PruneOutcome
  no_config no_provider_key : PruneOutcome
  unknown_provider : Text → PruneOutcome

abbrev pub between : ℕ → ℕ → ℕ → Bool
between lo hi c = leb lo c && leb c hi

abbrev pub is_plain : ℕ → Bool
is_plain c = between 48 57 c || (between 65 90 c || (between 97 122 c || (c == 95 || c == 45)))

unfoldable pub sanitize_name : Text → Text
sanitize_name name = take 32 (retain is_plain name)

-- The YAML document's top-level strings by key; `none` for a text that does not parse.
abbrev pub Yaml : Type 0
Yaml = Text → Option (Text → Option Text)

abbrev pub first_key : (Text → Option Text) → Option Text → Option Text
first_key get (some v) = some v
first_key get none = get (codes "GOOSE_PROVIDER")

abbrev pub provider_in : Option (Text → Option Text) → Option Text
provider_in none = none
provider_in (some get) = first_key get (get (codes "active_provider"))

unfoldable pub read_goose_provider : Yaml → Text → Option Text
read_goose_provider yaml text = provider_in (yaml text)

abbrev pub survives : Text → Text → Bool
unfolding text_eq contains
survives keep d = text_eq d keep || not (contains provider_domains d)

abbrev pub keep_only : Profile → Text → Profile
keep_only profile keep = record profile {
  network = record profile.network {
    allow_domains = retain (survives keep) profile.network.allow_domains;
  };
}

-- Past the provider's name
unfoldable pub prune_to : Profile → Text → Option Text → Profile × PruneOutcome
unfolding sanitize_name survives
prune_to profile provider none = (profile, unknown_provider (sanitize_name provider))
prune_to profile provider (some keep) =
    let after = keep_only profile keep in
    (after, pruned keep (length profile.network.allow_domains - length after.network.allow_domains))

-- Past the configuration's text
unfoldable pub prune_by : Profile → Option Text → Profile × PruneOutcome
unfolding provider_domain prune_to
prune_by profile none = (profile, no_provider_key)
prune_by profile (some provider) = prune_to profile provider (provider_domain provider)

-- `none` is a file that cannot be read.
unfoldable pub prune_provider_domains : Yaml → Profile → Option Text → Profile × PruneOutcome
unfolding read_goose_provider prune_by
prune_provider_domains yaml profile none = (profile, no_config)
prune_provider_domains yaml profile (some text) = prune_by profile (read_goose_provider yaml text)
