-- ===== src/Audit/Tests.antt =====
-- Runs of the audit log with a toy hash, and the theorems at them.
use quantmlayer.Prelude.{
  if◌then◌else◌, ◌==◌, ℕ, All, subst, false, ◌≡◌, refl, sym, none, some, [], ◌∷◌, ◌++◌, arith,
  length, In, inl, inr, ok, err,
}
use quantmlayer.Text.{Text, codes, text_eq, strip_suffix}
use quantmlayer.Audit.{
  allow, AuditEvent, AuditRecord, AuditLog, parse, tampered, genesis, Digests, append, verify,
}
use quantmlayer.Audit.Chained.{verify-append}
use quantmlayer.Text.Trim.{trim}
use quantmlayer.Audit.Lines.{Json, is_empty, to_jsonl, from_jsonl, read_log, record_event}
use quantmlayer.Audit.Lines.Sink.{JsonLaws, record_event_extends, Holds}

-- A hash of the length alone, enough to tell the records of these logs apart.
abbrev toy : Digests
toy = record { sha256 = λ t. length t ∷ []; event_json = λ e. some e.detail }

abbrev event : Text → AuditEvent
event detail = record {
  ts_millis = 1;
  actor = codes "broker";
  action = codes "egress.connect";
  target = codes "example.com:443";
  decision = allow;
  detail = detail;
  system = none;
}

-- The record of an event whose chained bytes have the given length in hex.
abbrev entry : ℕ → Text → Text → Text → AuditRecord
entry seq detail prev_hash hash = record {
  seq = seq;
  event = event detail;
  prev_hash = prev_hash;
  hash = hash;
}

abbrev one : AuditLog
one = entry 0 (codes "a") genesis (codes "4a") ∷ []

abbrev two : AuditLog
two = entry 0 (codes "a") genesis (codes "4a") ∷ entry 1 (codes "bb") (codes "4a") (codes "0d") ∷ []

one_verifies : verify toy one ≡ ok tt
unfolding verify
one_verifies = refl

append_runs : append toy one (event (codes "bb")) ≡ ok two
unfolding append
append_runs = refl

-- An altered detail is found at its record.
altered_runs :
    verify toy (entry 0 (codes "ab") genesis (codes "4a") ∷ [])
    ≡ err (tampered 0 0 "record hash does not match its contents (record was altered)")
unfolding verify
altered_runs = refl

verify-append_example :
    (verify toy two ≡ ok tt)
    × ((r : AuditRecord) × (two ≡ one ++ r ∷ []) × (r.event ≡ event (codes "bb")))
verify-append_example =
    verify-append toy one two (event (codes "bb")) (omega arith) one_verifies append_runs

abbrev second_byte : Text → ℕ
second_byte (a ∷ b ∷ rest) = b
second_byte _ = 0

abbrev SameContents : AuditRecord → AuditRecord → Type 0
SameContents r s = (r.seq ≡ s.seq) × (r.prev_hash ≡ s.prev_hash) × (r.event ≡ s.event)

-- A toy line for a record: braces around its hash.
abbrev line_of : AuditRecord → Text
line_of r = 123 ∷ (r.hash ++ (125 ∷ []))

abbrev first_record : AuditRecord
first_record = entry 0 (codes "a") genesis (codes "4a")

abbrev second_record : AuditRecord
second_record = entry 1 (codes "bb") (codes "4a") (codes "0d")

abbrev json : Json
json = record {
  write_record = λ r. some (line_of r);
  read_record = λ t.
      if text_eq t (line_of first_record)
      then some first_record
      else if text_eq t (line_of second_record)
      then some second_record
      else none;
}

abbrev one_file : Text
one_file = line_of first_record ++ (10 ∷ [])

abbrev two_file : Text
two_file = line_of first_record ++ (10 ∷ line_of second_record ++ (10 ∷ []))

read_runs : read_log json (some one_file) ≡ one
unfolding read_log text_eq
read_runs = refl

two_runs : to_jsonl json two ≡ ok two_file
unfolding to_jsonl
two_runs = refl

-- What the laws ask of one record and its line.
abbrev Reads : AuditRecord → Text → Type 0
Reads r t =
    All (λ c. (c == 10) ≡ false) t
    × (trim t ≡ t)
    × (strip_suffix (13 ∷ []) t ≡ none)
    × (is_empty t ≡ false)
    × (Json.read_record json t ≡ some r)

first_Reads : Reads first_record (line_of first_record)
unfolding trim strip_suffix text_eq
first_Reads = ((refl, (refl, (refl, (refl, tt)))), refl, refl, refl, refl)

second_Reads : Reads second_record (line_of second_record)
unfolding trim strip_suffix text_eq
second_Reads = ((refl, (refl, (refl, (refl, tt)))), refl, refl, refl, refl)

all_Reads : (r : AuditRecord) (t : Text) → In r two → some (line_of r) ≡ some t → Reads r t
all_Reads r t m h = let same : line_of r ≡ t = cc in subst (Reads r) same (listed m)
  where
    listed : In r two → Reads r (line_of r)
    listed (inl e) = subst (λ x. Reads x (line_of x)) (sym e) first_Reads
    listed (inr (inl e)) = subst (λ x. Reads x (line_of x)) (sym e) second_Reads
    listed (inr (inr u)) = absurd u

json_laws : JsonLaws json two
json_laws = record {
  one_line = λ r t m h. (all_Reads r t m h).0;
  unframed = λ r t m h. (all_Reads r t m h).1;
  no_return = λ r t m h. (all_Reads r t m h).2;
  nonempty = λ r t m h. (all_Reads r t m h).3;
  reads_back = λ r t m h. (all_Reads r t m h).4;
}

one_file-Holds : Holds json (some one_file) one
unfolding from_jsonl text_eq
one_file-Holds = refl

record_event_extends_example :
    (record_event json toy (some one_file) (event (codes "bb")) ≡ some two_file)
    × (from_jsonl json two_file ≡ ok two)
    × (verify toy two ≡ ok tt)
    × ((r : AuditRecord) × (two ≡ one ++ r ∷ []) × (r.event ≡ event (codes "bb")))
record_event_extends_example =
    record_event_extends json toy (some one_file) (event (codes "bb")) one two json_laws two_file
      one_file-Holds (omega arith) one_verifies append_runs two_runs

garbage_runs : from_jsonl json (codes "garbage") ≡ err (parse 1)
unfolding from_jsonl text_eq
garbage_runs = refl

fresh_append : append toy [] (event (codes "a")) ≡ ok one
unfolding append
fresh_append = refl

one_runs : to_jsonl json one ≡ ok one_file
unfolding to_jsonl
one_runs = refl
