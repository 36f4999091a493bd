-- ===== src/Audit/Evidence.antt =====
-- What a verified log is evidence of.
use quantmlayer.Prelude.{ℕ, zero, suc, ◌≡◌, ◌≢◌, List, [], ◌∷◌, take, In, ok}
use quantmlayer.Text.{Text}
use quantmlayer.Audit.{AuditRecord, AuditLog, genesis, Digests, verify}
use quantmlayer.Audit.Chained.{Chained, verify_iff}

-- No two records of the two logs have one hash for different contents, and none has the genesis
-- hash: what SHA-256 is relied on for.
pub record NoCollision (a b : AuditLog) : Type 0 where
  pub injective :
      (r s : AuditRecord)
      → In r a
      → In s b
      → r.hash ≡ s.hash
      → (r.seq ≡ s.seq) × (r.prev_hash ≡ s.prev_hash) × (r.event ≡ s.event)
  pub left_not_genesis : (r : AuditRecord) → In r a → r.hash ≢ genesis
  pub right_not_genesis : (r : AuditRecord) → In r b → r.hash ≢ genesis

module _ (d : Digests) where
  -- The chain read from its last record back.
  data Back : List AuditRecord → Text → Type 0 where
    first : {h : Text} → h ≡ genesis → Back [] h
    after :
        {r : AuditRecord} {rest : List AuditRecord} {h : Text}
        → h ≡ r.hash
        → Back rest r.prev_hash
        → Back (r ∷ rest) h

Chained-take :
    (d : Digests) (n idx : ℕ) (prev : Text) (log : AuditLog)
    → Chained d idx prev log
    → Chained d idx prev (take n log)
Chained-take d zero idx prev log h = tt
Chained-take d (suc n) idx prev [] h = tt
Chained-take d (suc n) idx prev (r ∷ log) (i, h) = (i, Chained-take d n (suc idx) r.hash log h)

-- Cutting records off the end is not detected: every front part of a log that verifies verifies.
pub verify-take :
    (d : Digests) (n : ℕ) (log : AuditLog) → verify d log ≡ ok tt → verify d (take n log) ≡ ok tt
verify-take d n log h =
    (verify_iff d (take n log)).1 (Chained-take d n 0 genesis log ((verify_iff d log).0 h))
