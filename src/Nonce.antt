-- ===== src/Nonce.antt =====
-- crates/ql-broker/src/nonce.rs: the anti-replay store, a high-water mark for each leaf token. The
-- mutex makes each call one step, so a run of the store is a sequence of calls. The hash map is
-- an association list; the code never iterates over it but to prune.
pub mod Entries
pub mod Replay
mod Tests
use quantmlayer.Prelude.{
  ℕ, Bool, true, false, ◌||◌, Option, none, some, List, [], ◌∷◌, ◌==◌, ltb, leb, if◌then◌else◌,
  retain,
}
use quantmlayer.Text.{Text, text_eq}

pub data NonceCheck : Type 0 where
  fresh replay : NonceCheck

pub record Entry : Type 0 where
  pub high_water : ℕ
  pub not_after_ms : ℕ

abbrev pub NonceStore : Type 0
NonceStore = List (Text × Entry)

abbrev pub new : NonceStore
new = []

-- map.get
unfoldable pub get : Text → NonceStore → Option Entry
unfolding text_eq
get k [] = none
get k ((j, e) ∷ m) = if text_eq j k then some e else get k m

-- A write through `get_mut`, or map.insert
unfoldable pub put : Text → Entry → NonceStore → NonceStore
unfolding text_eq
put k e [] = (k, e) ∷ []
put k e ((j, d) ∷ m) = let rest = put k e m in if text_eq j k then (j, e) ∷ m else (j, d) ∷ rest

-- The test of `map.retain`
abbrev pub is_live : ℕ → ℕ → Bool
is_live now_ms not_after_ms = not_after_ms == 0 || leb now_ms not_after_ms

unfoldable pub prune : ℕ → NonceStore → NonceStore
prune now_ms m = retain (λ (p : Text × Entry). is_live now_ms p.1.not_after_ms) m

unfoldable pub admit : NonceStore → Option Entry → Text → ℕ → ℕ → NonceStore × NonceCheck
unfolding put
admit m none leaf_hash nonce leaf_not_after_ms =
    (put leaf_hash (record { high_water = nonce; not_after_ms = leaf_not_after_ms }) m, fresh)
admit m (some e) leaf_hash nonce leaf_not_after_ms =
    if ltb e.high_water nonce
    then (put leaf_hash (record { high_water = nonce; not_after_ms = leaf_not_after_ms }) m, fresh)
    else (m, replay)

unfoldable pub check_and_record : NonceStore → Text → ℕ → ℕ → ℕ → NonceStore × NonceCheck
unfolding get prune admit
check_and_record m leaf_hash nonce leaf_not_after_ms now_ms =
    let live = prune now_ms m in admit live (get leaf_hash live) leaf_hash nonce leaf_not_after_ms
