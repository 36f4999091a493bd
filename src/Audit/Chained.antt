-- ===== src/Audit/Chained.antt =====
-- What an intact log is, and that `append` and `verify` agree on it.
use quantmlayer.Prelude.{
  ℕ, suc, ◌+◌, ◌%◌, ◌^◌, ◌<◌, ◌≡◌, refl, sym, ap, subst, ◌∙◌, ◌↔◌, Bool, true, false, ◌&&◌, [], ◌∷◌,
  ◌++◌, ◌==◌, ==_iff, if◌then◌else◌, arith, length, &&-split, Outcome, ok, err, >>=-eq-ok, >>=-ok,
  ok-injective,
}
use quantmlayer.Text.{Text, text_eq}
use quantmlayer.Text.Laws.{text_eq_sound, text_eq_iff}
use quantmlayer.Audit.{
  AuditEvent, AuditRecord, AuditError, tampered, tamper_reason, AuditLog, genesis, Digests, head,
  chain_hash, append, verify_from, verify,
}

module _ (d : Digests) where
  -- A record that stands at position `idx` after the hash `prev`.
  pub record IsRecord (idx : ℕ) (prev : Text) (r : AuditRecord) : Type 0 where
    pub seq : r.seq ≡ idx
    pub link : r.prev_hash ≡ prev
    pub hashed : chain_hash d r.seq r.prev_hash r.event ≡ ok r.hash

  -- From position `idx` and the hash `prev`, every record commits to the one before it.
  abbrev pub Chained : ℕ → Text → AuditLog → Type 0
  Chained idx prev [] = Unit
  Chained idx prev (r ∷ rest) = IsRecord idx prev r × Chained (suc idx) r.hash rest

  abbrev checked : (idx : ℕ) (prev : Text) (r : AuditRecord) (h : Text) → Bool
  checked idx prev r h = (r.seq == idx) && (text_eq r.prev_hash prev && text_eq h r.hash)

  if-eq-ok :
      (b : Bool) (m : Outcome AuditError (Unit {0})) (e : AuditError)
      → (if b then m else err e) ≡ ok tt
      → (b ≡ true) × (m ≡ ok tt)
  if-eq-ok true m e h = (refl, h)
  if-eq-ok false m e h = cc

  pub verify_from-Chained :
      (idx : ℕ) (prev : Text) (log : AuditLog)
      → verify_from d idx prev log ≡ ok tt
      → Chained idx prev log
  unfolding verify_from
  verify_from-Chained idx prev [] h = tt
  verify_from-Chained idx prev (r ∷ rest) h =
      let (hash, hashed, h1) = >>=-eq-ok (chain_hash d r.seq r.prev_hash r.event) _ h in
      let (tests, later) =
        if-eq-ok (checked idx prev r hash) (verify_from d (suc idx) r.hash rest) _ h1 in
      let (seq_ok, more) = &&-split (r.seq == idx) _ tests in
      let (link_ok, hash_ok) = &&-split (text_eq r.prev_hash prev) _ more in
      (
        record {
          seq = (==_iff r.seq idx).0 seq_ok;
          link = text_eq_sound r.prev_hash prev link_ok;
          hashed = hashed ∙ ap (λ t. ok t) (text_eq_sound hash r.hash hash_ok);
        },
        verify_from-Chained (suc idx) r.hash rest later,
      )

  tests_pass :
      (idx : ℕ) (prev : Text) (r : AuditRecord)
      → IsRecord idx prev r
      → checked idx prev r r.hash ≡ true
  tests_pass idx prev r i =
      ground
        (arith, i.seq, (text_eq_iff r.prev_hash prev).1 i.link, (text_eq_iff r.hash r.hash).1 refl)

  pub Chained-verify_from :
      (idx : ℕ) (prev : Text) (log : AuditLog)
      → Chained idx prev log
      → verify_from d idx prev log ≡ ok tt
  unfolding verify_from
  Chained-verify_from idx prev [] h = refl
  Chained-verify_from idx prev (r ∷ rest) (i, more) =
      >>=-ok (chain_hash d r.seq r.prev_hash r.event) _ i.hashed (
        ap (λ b. if b then verify_from d (suc idx) r.hash rest else err (broken idx prev r))
          (tests_pass idx prev r i)
        ∙ Chained-verify_from (suc idx) r.hash rest more)
    where
      broken : ℕ → Text → AuditRecord → AuditError
      broken i p s = tampered s.seq i (tamper_reason (s.seq == i) (text_eq s.prev_hash p))

  -- The hash that a further record must commit to.
  abbrev pub head_from : Text → AuditLog → Text
  head_from prev [] = prev
  head_from prev (r ∷ rest) = head_from r.hash rest

  head_from_last :
      (prev : Text) (r : AuditRecord) (rest : AuditLog)
      → head_from prev (r ∷ rest) ≡ head (r ∷ rest)
  unfolding head
  head_from_last prev r [] = refl
  head_from_last prev r (s ∷ rest) = head_from_last r.hash s rest

  pub head-eq-head_from : (log : AuditLog) → head log ≡ head_from genesis log
  head-eq-head_from [] = unfold head in refl
  head-eq-head_from (r ∷ rest) = sym (head_from_last genesis r rest)

  Chained-append :
      (idx : ℕ) (prev : Text) (log : AuditLog) (r : AuditRecord)
      → Chained idx prev log
      → IsRecord (idx + length log) (head_from prev log) r
      → Chained idx prev (log ++ r ∷ [])
  Chained-append idx prev [] r h i = (subst (λ n. IsRecord n prev r) (omega arith) i, tt)
  Chained-append idx prev (s ∷ log) r (j, h) i = (
    j,
    Chained-append (suc idx) s.hash log r h
        (subst (λ n. IsRecord n (head_from s.hash log) r) (omega arith) i),
  )

-- A log verifies exactly when each record has its position as its number, commits to the hash of
-- the record before it (the first to the genesis hash), and carries the hash of its contents.
pub verify_iff : (d : Digests) (log : AuditLog) → (verify d log ≡ ok tt) ↔ Chained d 0 genesis log
unfolding verify
verify_iff d log = (verify_from-Chained d 0 genesis log, Chained-verify_from d 0 genesis log)

-- Appending to a log that verifies, of fewer than 2^64 records, gives a log that verifies, with
-- the event as its last record and the records before it unchanged.
pub verify-append :
    (d : Digests) (log log' : AuditLog) (event : AuditEvent)
    → length log < 2 ^ 64
    → verify d log ≡ ok tt
    → append d log event ≡ ok log'
    → (verify d log' ≡ ok tt) × ((r : AuditRecord) × (log' ≡ log ++ r ∷ []) × (r.event ≡ event))
unfolding append
verify-append d log log' event small h a =
    let (hash, hashed, made) =
      >>=-eq-ok (chain_hash d (length log % 2 ^ 64) (head log) event) _ a in
    let r : AuditRecord = record {
      seq = length log % 2 ^ 64;
      event = event;
      prev_hash = head log;
      hash = hash;
    } in
    let same : log ++ r ∷ [] ≡ log' = ok-injective made in
    let good : IsRecord d (0 + length log) (head_from d genesis log) r = record {
      seq = omega arith;
      link = head-eq-head_from d log;
      hashed = hashed;
    } in
    (
      subst (λ l. verify d l ≡ ok tt) same
          ((verify_iff d (log ++ r ∷ [])).1
            (Chained-append d 0 genesis log r ((verify_iff d log).0 h) good)),
      (r, sym same, refl),
    )
