-- ===== src/Nonce/Tests.antt =====
-- Runs of the nonce store, and the theorem at a history of two leaves.
use quantmlayer.Prelude.{ℕ, ◌≡◌, refl, none, List, [], ◌∷◌, All}
use quantmlayer.Text.{Text, codes}
use quantmlayer.Nonce.{fresh, replay, new}
use quantmlayer.Nonce.Replay.{
  Presentation, present, serve, IsLiveFor, highest, answer, check-eq-answer,
}

abbrev at : Text → ℕ → ℕ → Presentation
at leaf nonce now_ms = record { leaf = leaf; nonce = nonce; not_after_ms = 100; now_ms = now_ms }

abbrev history : List Presentation
history = at (codes "a") 3 10 ∷ at (codes "b") 9 20 ∷ at (codes "a") 5 30 ∷ []

replay_runs : (present (serve new history) (at (codes "a") 5 40)).1 ≡ replay
unfolding serve
replay_runs = refl

fresh_runs : (present (serve new history) (at (codes "a") 6 40)).1 ≡ fresh
unfolding serve
fresh_runs = refl

history_live : All (IsLiveFor (codes "a") 100) history
history_live = ((refl, λ _. refl), ((refl, λ _. refl), ((refl, λ _. refl), tt)))

check-eq-answer_example :
    (present (serve new history) (at (codes "a") 5 40)).1
    ≡ answer (highest (codes "a") none history) 5
check-eq-answer_example =
    check-eq-answer (codes "a") 100 history (at (codes "a") 5 40) history_live (refl, λ _. refl)
      refl
