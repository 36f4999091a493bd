-- ===== src/Bundle/Tests.antt =====
-- Runs of a delegation from a one-token chain, and the theorems at it.
use quantmlayer.Prelude.{true, none, some, [], ◌∷◌}
use quantmlayer.Text.{codes}
use quantmlayer.Token.Samples.{toy, root, leaf}
use quantmlayer.Capability.{Capability}
use quantmlayer.Bundle.{DelegatedBundle, Narrowing}

abbrev only_com : Narrowing
only_com = record {
  only_domains = some (codes "example.com" ∷ codes "evil.test" ∷ []);
  only_read = none;
  only_write = none;
  only_exec = none;
}

abbrev made : DelegatedBundle toy
made = record { trust_root = codes "01"; child = true; chain = root ∷ leaf ∷ []; not_after_ms = 0 }
