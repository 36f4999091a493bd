-- ===== src/Prune/Tests.antt =====
-- Runs of the pruning, and the theorem at a profile with two providers.
use quantmlayer.Prelude.{◌≡◌, refl, some, [], ◌∷◌}
use quantmlayer.Text.{codes}
use quantmlayer.Profile.{Profile, default}
use quantmlayer.Prune.{Yaml, pruned, provider_domain, prune_provider_domains}
use quantmlayer.Prune.Narrowing.{Pruned, prune_provider_domains-Pruned}

abbrev agent : Profile
agent = record default {
  network = record default.network {
    allow_domains = codes "api.openai.com" ∷ codes "api.anthropic.com" ∷ codes "github.com" ∷ [];
  };
}

-- A document whose every key holds the whole text.
abbrev plain : Yaml
plain = λ t. some (λ key. some t)

name_runs : provider_domain (codes " OpenAI ") ≡ some (codes "api.openai.com")
unfolding provider_domain
name_runs = refl

prune_runs :
    (prune_provider_domains plain agent (some (codes "openai"))).1
    ≡ pruned (codes "api.openai.com") 1
unfolding prune_provider_domains
prune_runs = refl

prune_provider_domains-Pruned_example :
    Pruned plain
      (some (codes "openai"))
      (prune_provider_domains plain agent (some (codes "openai"))).0
      agent
prune_provider_domains-Pruned_example =
    prune_provider_domains-Pruned plain agent (some (codes "openai"))
