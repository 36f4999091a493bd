-- ===== src/Nonce/Replay.antt =====
-- The store against its history: a nonce is fresh exactly when it is above every nonce that the
-- leaf presented before.
use quantmlayer.Prelude.{
  ℕ, ◌≤◌, ◌≡◌, refl, sym, ap, subst, ◌∙◌, inl, inr, true, false, Option, none, some, List, [], ◌∷◌,
  ltb, max, arith, In, All, if◌then◌else◌, Bool-cases,
}
use quantmlayer.Text.{Text, text_eq}
use quantmlayer.Text.Laws.{text_eq_sound, text_eq_iff}
use quantmlayer.Nonce.{
  NonceCheck, fresh, replay, Entry, NonceStore, new, get, is_live, prune, admit, check_and_record,
}
use quantmlayer.Nonce.Entries.{get-put_self, get-put_ne, get-prune_live, get-prune-none}

-- One presentation of a signed action: its leaf, its nonce, the leaf's expiry, and the time.
pub record Presentation : Type 0 where
  pub leaf : Text
  pub nonce : ℕ
  pub not_after_ms : ℕ
  pub now_ms : ℕ

unfoldable pub present : NonceStore → Presentation → NonceStore × NonceCheck
unfolding check_and_record
present m p = check_and_record m p.leaf p.nonce p.not_after_ms p.now_ms

unfoldable pub serve : NonceStore → List Presentation → NonceStore
unfolding present
serve m [] = m
serve m (p ∷ ps) = serve (present m p).0 ps

-- While a leaf has not expired: no clock value passes its expiry, and each of its presentations
-- carries that expiry.
abbrev pub IsLiveFor : Text → ℕ → Presentation → Type 0
IsLiveFor leaf not_after_ms p =
    (is_live p.now_ms not_after_ms ≡ true)
    × (text_eq p.leaf leaf ≡ true → p.not_after_ms ≡ not_after_ms)

-- The specification: the highest nonce that the leaf has presented.
abbrev raise : Option ℕ → ℕ → Option ℕ
raise none n = some n
raise (some k) n = some (max k n)

unfoldable pub highest : Text → Option ℕ → List Presentation → Option ℕ
unfolding text_eq
highest leaf seen [] = seen
highest leaf seen (p ∷ ps) =
    highest leaf (if text_eq p.leaf leaf then raise seen p.nonce else seen) ps

-- What a nonce should be answered, given the highest one seen.
abbrev pub answer : Option ℕ → ℕ → NonceCheck
answer none n = fresh
answer (some k) n = if ltb k n then fresh else replay

abbrev Tracks : ℕ → Option ℕ → Option Entry → Type 0
Tracks not_after_ms none none = Unit
Tracks not_after_ms (some k) (some e) = (e.high_water ≡ k) × (e.not_after_ms ≡ not_after_ms)
Tracks not_after_ms _ _ = ⊥

Tracks-prune :
    (not_after_ms now_ms : ℕ) (leaf : Text) (m : NonceStore) (seen : Option ℕ)
    → is_live now_ms not_after_ms ≡ true
    → Tracks not_after_ms seen (get leaf m)
    → get leaf (prune now_ms m) ≡ get leaf m
Tracks-prune not_after_ms now_ms leaf m seen live t = go seen (get leaf m) refl t
  where
    go :
        (s : Option ℕ) (o : Option Entry)
        → get leaf m ≡ o
        → Tracks not_after_ms s o
        → get leaf (prune now_ms m) ≡ get leaf m
    go none none q u = get-prune-none now_ms leaf m q ∙ sym q
    go (some k) (some e) q u =
        get-prune_live now_ms leaf m e q (ap (is_live now_ms) u.1 ∙ live) ∙ sym q
    go none (some e) q u = absurd u
    go (some k) none q u = absurd u

module _ (leaf : Text) (not_after_ms : ℕ) where
  -- The leaf's own presentation raises the mark and is answered by it.
  own_step :
      (live : NonceStore) (p : Presentation) (seen : Option ℕ) (o : Option Entry)
      → p.not_after_ms ≡ not_after_ms
      → get leaf live ≡ o
      → Tracks not_after_ms seen o
      → Tracks not_after_ms
          (raise seen p.nonce)
          (get leaf (admit live o leaf p.nonce p.not_after_ms).0)
        × ((admit live o leaf p.nonce p.not_after_ms).1 ≡ answer seen p.nonce)
  unfolding admit
  own_step live p none none h q t = (rw (get-put_self leaf _ live) (refl, h), refl)
  own_step live p (some k) (some e) h q t = elim (Bool-cases (ltb e.high_water p.nonce)) [
    | inl above ↦
        rw above (rw (get-put_self leaf _ live) (raised above, h), rw (← t.0) (rw above refl))
    | inr below ↦ rw below (rw q (kept below, t.1), rw (← t.0) (rw below refl))
  ]
    where
      raised : ltb e.high_water p.nonce ≡ true → p.nonce ≡ max k p.nonce
      raised above = let same = t.0 in ground arith

      kept : ltb e.high_water p.nonce ≡ false → e.high_water ≡ max k p.nonce
      kept below = let same = t.0 in ground arith
  own_step live p none (some e) h q t = absurd t
  own_step live p (some k) none h q t = absurd t

module _ (leaf : Text) (not_after_ms : ℕ) where
  other_step :
      (live : NonceStore) (o : Option Entry) (p : Presentation)
      → text_eq p.leaf leaf ≡ false
      → get leaf (admit live o p.leaf p.nonce p.not_after_ms).0 ≡ get leaf live
  unfolding admit
  other_step live none p h = get-put_ne p.leaf leaf _ live h
  other_step live (some e) p h = elim (Bool-cases (ltb e.high_water p.nonce)) [
    | inl above ↦ rw above (get-put_ne p.leaf leaf _ live h)
    | inr below ↦ rw below
  ]

  present-Tracks :
      (m : NonceStore) (p : Presentation) (seen : Option ℕ)
      → IsLiveFor leaf not_after_ms p
      → Tracks not_after_ms seen (get leaf m)
      → Tracks not_after_ms
          (if text_eq p.leaf leaf then raise seen p.nonce else seen)
          (get leaf (present m p).0)
        × (text_eq p.leaf leaf ≡ true → (present m p).1 ≡ answer seen p.nonce)
  unfolding present
  present-Tracks m p seen l t = elim (Bool-cases (text_eq p.leaf leaf)) [
    | inl own ↦ mine own (text_eq_sound p.leaf leaf own)
    | inr other ↦ (
      rw other (
          rw (other_step (prune p.now_ms m) (get p.leaf (prune p.now_ms m)) p other)
            (rw (Tracks-prune not_after_ms p.now_ms leaf m seen l.0 t) t)),
      λ own. absurd (clash other own),
    )
  ]
    where
      clash : text_eq p.leaf leaf ≡ false → text_eq p.leaf leaf ≡ true → ⊥
      clash a b = cc

      mine :
          text_eq p.leaf leaf ≡ true
          → p.leaf ≡ leaf
          → Tracks not_after_ms
              (if text_eq p.leaf leaf then raise seen p.nonce else seen)
              (get leaf (present m p).0)
            × (text_eq p.leaf leaf ≡ true → (present m p).1 ≡ answer seen p.nonce)
      mine own same =
          let pruned : NonceStore = prune p.now_ms m in
          let before : Tracks not_after_ms seen (get leaf pruned) =
            rw (Tracks-prune not_after_ms p.now_ms leaf m seen l.0 t) t in
          let (after, told) =
            own_step p.leaf not_after_ms pruned p seen (get p.leaf pruned) (l.1 own) refl
              (subst (λ x. Tracks not_after_ms seen (get x pruned)) (sym same) before) in
          (
            rw own (
                subst (λ x. Tracks not_after_ms (raise seen p.nonce) (get x (present m p).0)) same
                  after),
            λ _. told,
          )

  serve-Tracks :
      (m : NonceStore) (ps : List Presentation) (seen : Option ℕ)
      → All (IsLiveFor leaf not_after_ms) ps
      → Tracks not_after_ms seen (get leaf m)
      → Tracks not_after_ms (highest leaf seen ps) (get leaf (serve m ps))
  unfolding highest serve
  serve-Tracks m [] seen l t = t
  serve-Tracks m (p ∷ ps) seen (l, ls) t =
      serve-Tracks (present m p).0 ps (if text_eq p.leaf leaf then raise seen p.nonce else seen) ls
        (present-Tracks m p seen l t).0

-- A nonce is admitted exactly when it is above every nonce that its leaf presented before, while
-- the leaf has not expired, and whatever other leaves present.
pub check-eq-answer :
    (leaf : Text) (not_after_ms : ℕ) (ps : List Presentation) (p : Presentation)
    → All (IsLiveFor leaf not_after_ms) ps
    → IsLiveFor leaf not_after_ms p
    → p.leaf ≡ leaf
    → (present (serve new ps) p).1 ≡ answer (highest leaf none ps) p.nonce
check-eq-answer leaf not_after_ms ps p ls l same =
    (present-Tracks leaf not_after_ms (serve new ps) p (highest leaf none ps) l
        (serve-Tracks leaf not_after_ms new ps none ls (unfold get in tt))).1
      ((text_eq_iff p.leaf leaf).1 same)

abbrev AtLeast : ℕ → Option ℕ → Type 0
AtLeast n none = ⊥
AtLeast n (some k) = n ≤ k

raise-AtLeast : (n k : ℕ) (seen : Option ℕ) → AtLeast n seen → AtLeast n (raise seen k)
raise-AtLeast n k (some j) h = omega arith
raise-AtLeast n k none h = absurd h

highest_grows :
    (leaf : Text) (n : ℕ) (seen : Option ℕ) (ps : List Presentation)
    → AtLeast n seen
    → AtLeast n (highest leaf seen ps)
unfolding highest
highest_grows leaf n seen [] h = h
highest_grows leaf n seen (p ∷ ps) h = elim (Bool-cases (text_eq p.leaf leaf)) [
  | inl own ↦ rw own (highest_grows leaf n (raise seen p.nonce) ps (raise-AtLeast n p.nonce seen h))
  | inr other ↦ rw other (highest_grows leaf n seen ps h)
]

raise_reaches : (seen : Option ℕ) (n : ℕ) → AtLeast n (raise seen n)
raise_reaches none n = omega arith
raise_reaches (some k) n = omega arith

highest_reaches :
    (leaf : Text) (q : Presentation) (seen : Option ℕ) (ps : List Presentation)
    → q.leaf ≡ leaf
    → In q ps
    → AtLeast q.nonce (highest leaf seen ps)
unfolding highest
highest_reaches leaf q seen (p ∷ ps) same (inl e) =
    let own : text_eq p.leaf leaf ≡ true = (text_eq_iff p.leaf leaf).1 (rw (← e) same) in
    rw own (highest_grows leaf q.nonce (raise seen p.nonce) ps (rw e (raise_reaches seen p.nonce)))
highest_reaches leaf q seen (p ∷ ps) same (inr m) =
    highest_reaches leaf q (if text_eq p.leaf leaf then raise seen p.nonce else seen) ps same m
highest_reaches leaf q seen [] same m = absurd m

answer_replay : (n k : ℕ) (seen : Option ℕ) → AtLeast k seen → n ≤ k → answer seen n ≡ replay
answer_replay n k (some j) h le = ground arith
answer_replay n k none h le = absurd h

-- No replay: a nonce that a leaf presented before, or a lower one, is refused while the leaf has
-- not expired, whatever was presented in between.
pub replay_refused :
    (leaf : Text) (not_after_ms : ℕ) (ps : List Presentation) (q p : Presentation)
    → All (IsLiveFor leaf not_after_ms) ps
    → IsLiveFor leaf not_after_ms p
    → q.leaf ≡ leaf
    → p.leaf ≡ leaf
    → In q ps
    → p.nonce ≤ q.nonce
    → (present (serve new ps) p).1 ≡ replay
replay_refused leaf not_after_ms ps q p ls l hq hp m le =
    check-eq-answer leaf not_after_ms ps p ls l hp
    ∙ answer_replay p.nonce q.nonce (highest leaf none ps) (highest_reaches leaf q none ps hq m) le
