-- ===== src/Audit.antt =====
-- crates/ql-audit/src/lib.rs and error.rs: the hash-chained audit log. SHA-256 and the JSON of an
-- event are third-party code: the record `Digests`.
pub mod Chained
pub mod Evidence
pub mod Lines
mod Tests
use Prim.Native.String.{String}
use quantmlayer.Prelude.{
  ℕ, suc, ◌+◌, ◌/◌, ◌%◌, ◌^◌, Bool, true, false, not, ◌&&◌, Option, none, some, List, [], ◌∷◌, ◌++◌,
  ◌==◌, if◌then◌else◌, length, last?, Outcome, ok, err, ◌>>=◌,
}
use quantmlayer.Text.{Text, codes, text_eq}
use quantmlayer.Identity.{hex_encode}

pub data Decision : Type 0 where
  allow deny info : Decision

pub record SystemIdentity : Type 0 where
  pub kind : Text
  pub system_id : Text
  pub model_version : Option Text

-- SystemIdentity::ai_system
unfoldable pub ai_system : Text → Option Text → SystemIdentity
ai_system system_id model_version = record {
  kind = codes "ai_system";
  system_id = system_id;
  model_version = model_version;
}

pub record AuditEvent : Type 0 where
  pub ts_millis : ℕ
  pub actor : Text
  pub action : Text
  pub target : Text
  pub decision : Decision
  pub detail : Text
  pub system : Option SystemIdentity

pub record AuditRecord : Type 0 where
  pub seq : ℕ
  pub event : AuditEvent
  pub prev_hash : Text
  pub hash : Text

pub data AuditError : Type 0 where
  serde : AuditError
  parse : (line : ℕ) → AuditError
  tampered : (seq index : ℕ) (reason : String) → AuditError

abbrev pub AuditLog : Type 0
AuditLog = List AuditRecord

abbrev pub genesis : Text
genesis = codes "0000000000000000000000000000000000000000000000000000000000000000"

-- u64::to_be_bytes
unfoldable pub to_be_bytes : ℕ → Text
to_be_bytes n =
    (n / 2 ^ 56 % 256)
    ∷ (n / 2 ^ 48 % 256)
    ∷ (n / 2 ^ 40 % 256)
    ∷ (n / 2 ^ 32 % 256)
    ∷ (n / 2 ^ 24 % 256)
    ∷ (n / 2 ^ 16 % 256)
    ∷ (n / 2 ^ 8 % 256)
    ∷ (n % 256)
    ∷ []

pub record Digests : Type 0 where
  pub sha256 : Text → Text
  pub event_json : AuditEvent → Option Text

abbrev pub AuditResult : Type 0 → Type 0
AuditResult A = Outcome AuditError A

-- The message of `verify`, by the first test that failed.
abbrev pub tamper_reason : Bool → Bool → String
tamper_reason seq_ok link_ok =
    if not seq_ok
    then "sequence number out of order"
    else if not link_ok
    then "prev_hash does not chain to the previous record"
    else "record hash does not match its contents (record was altered)"

-- AuditLog::head
unfoldable pub head : AuditLog → Text
head log = elim (last? log) [ none ↦ genesis | some r ↦ r.hash ]

module _ (d : Digests) where
  unfoldable pub chain_hash : ℕ → Text → AuditEvent → AuditResult Text
  unfolding hex_encode to_be_bytes
  chain_hash seq prev_hash event = elim (d.event_json event) [
    | none ↦ err serde
    | some canon ↦ ok (hex_encode (d.sha256 (to_be_bytes seq ++ (prev_hash ++ (0 ∷ canon)))))
  ]

  -- AuditLog::append
  unfoldable pub append : AuditLog → AuditEvent → AuditResult AuditLog
  unfolding head chain_hash
  append log event = do
    hash ← chain_hash (length log % 2 ^ 64) (head log) event
    ok (
        log
        ++ record { seq = length log % 2 ^ 64; event = event; prev_hash = head log; hash = hash }
          ∷ [])

  -- The loop of `verify`.
  unfoldable pub verify_from : ℕ → Text → AuditLog → AuditResult Unit
  unfolding chain_hash text_eq
  verify_from idx expected_prev [] = ok tt
  verify_from idx expected_prev (r ∷ rest) =
      let later = verify_from (suc idx) r.hash rest in
      do
        recomputed ← chain_hash r.seq r.prev_hash r.event
        if (r.seq == idx) && (text_eq r.prev_hash expected_prev && text_eq recomputed r.hash)
            then later
            else err (
                tampered r.seq idx
                  (tamper_reason (r.seq == idx) (text_eq r.prev_hash expected_prev)))

  -- AuditLog::verify
  unfoldable pub verify : AuditLog → AuditResult Unit
  unfolding verify_from
  verify log = verify_from 0 genesis log
