-- ===== src/Nonce/Entries.antt =====
-- Looking up, writing and pruning the store's entries.
use quantmlayer.Prelude.{
  ℕ, ◌≡◌, refl, inl, inr, true, false, none, some, [], ◌∷◌, arith, Bool-cases,
}
use quantmlayer.Text.{Text, text_eq}
use quantmlayer.Text.Laws.{text_eq_refl, text_eq_sound}
use quantmlayer.Nonce.{Entry, NonceStore, get, put, is_live, prune}

pub get-put_self : (k : Text) (e : Entry) (m : NonceStore) → get k (put k e m) ≡ some e
unfolding get put
get-put_self k e [] = rw (text_eq_refl k)
get-put_self k e ((j, d) ∷ m) = elim (Bool-cases (text_eq j k)) [
  | inl s ↦ rw s (rw s)
  | inr n ↦ rw n (rw n (get-put_self k e m))
]

pub get-put_ne :
    (k j : Text) (e : Entry) (m : NonceStore) → text_eq k j ≡ false → get j (put k e m) ≡ get j m
unfolding get put
get-put_ne k j e [] h = rw h
get-put_ne k j e ((i, d) ∷ m) h = elim (Bool-cases (text_eq i k)) [
  | inl s ↦ rw s (same_key s)
  | inr n ↦
      rw n (elim (Bool-cases (text_eq i j)) [ inl s ↦ rw s | inr o ↦ rw o (get-put_ne k j e m h) ])
]
  where
    same_key : text_eq i k ≡ true → get j ((i, e) ∷ m) ≡ get j ((i, d) ∷ m)
    same_key s = let other : text_eq i j ≡ false = rw (text_eq_sound i k s) h in rw other refl

-- Pruning keeps an entry that has not expired, and brings none.
pub get-prune_live :
    (now_ms : ℕ) (k : Text) (m : NonceStore) (e : Entry)
    → get k m ≡ some e
    → is_live now_ms e.not_after_ms ≡ true
    → get k (prune now_ms m) ≡ some e
unfolding get prune
get-prune_live now_ms k [] e h l = h
get-prune_live now_ms k ((j, d) ∷ m) e h l = elim (Bool-cases (text_eq j k)) [
  | inl s ↦ here s (rw s at h)
  | inr n ↦ there n (get-prune_live now_ms k m e (rw n at h) l)
]
  where
    here : text_eq j k ≡ true → some d ≡ some e → get k (prune now_ms ((j, d) ∷ m)) ≡ some e
    here s q =
        let same : d ≡ e = ground arith in
        let kept : is_live now_ms d.not_after_ms ≡ true = rw same l in rw kept (rw s q)

    there :
        text_eq j k ≡ false
        → get k (prune now_ms m) ≡ some e
        → get k (prune now_ms ((j, d) ∷ m)) ≡ some e
    there n ih = elim (Bool-cases (is_live now_ms d.not_after_ms)) [
      | inl kept ↦ rw kept (rw n ih)
      | inr dropped ↦ rw dropped ih
    ]

pub get-prune-none :
    (now_ms : ℕ) (k : Text) (m : NonceStore) → get k m ≡ none → get k (prune now_ms m) ≡ none
unfolding get prune
get-prune-none now_ms k [] h = refl
get-prune-none now_ms k ((j, d) ∷ m) h = elim (Bool-cases (text_eq j k)) [
  | inl s ↦ clash (rw s at h)
  | inr n ↦ there n (get-prune-none now_ms k m (rw n at h))
]
  where
    clash : some d ≡ none → get k (prune now_ms ((j, d) ∷ m)) ≡ none
    clash q = cc

    there :
        text_eq j k ≡ false
        → get k (prune now_ms m) ≡ none
        → get k (prune now_ms ((j, d) ∷ m)) ≡ none
    there n ih = elim (Bool-cases (is_live now_ms d.not_after_ms)) [
      | inl kept ↦ rw kept (rw n ih)
      | inr dropped ↦ rw dropped ih
    ]
