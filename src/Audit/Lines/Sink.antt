-- ===== src/Audit/Lines/Sink.antt =====
-- The file of the log: it reads back what was written, and a record extends it.
use quantmlayer.Prelude.{
  ℕ, suc, ◌<◌, ◌^◌, ◌≡◌, refl, sym, ap, ◌∙◌, false, Option, none, some, List, [], ◌∷◌, ◌++◌, ◌==◌,
  length, In, All, inl, inr, Bool-cases, ok, err, >>=-eq-ok, ok-injective, arith,
}
use quantmlayer.Text.{Text, split, strip_suffix}
use quantmlayer.Audit.{
  AuditEvent, AuditRecord, AuditError, serde, AuditLog, Digests, append, verify, verify_from,
}
use quantmlayer.Audit.Chained.{verify-append}
use quantmlayer.Text.Trim.{trim}
use quantmlayer.Audit.Lines.{
  Json, is_empty, finish, lines, ok_or, to_jsonl, parse_lines, from_jsonl, read_log, record_event,
}

-- The JSON of each record of a log is one line with nothing to trim, and reads back.
pub record JsonLaws (j : Json) (log : AuditLog) : Type 0 where
  pub one_line :
      (r : AuditRecord) (t : Text)
      → In r log
      → Json.write_record j r ≡ some t
      → All (λ c. (c == 10) ≡ false) t
  pub unframed :
      (r : AuditRecord) (t : Text) → In r log → Json.write_record j r ≡ some t → trim t ≡ t
  pub no_return :
      (r : AuditRecord) (t : Text)
      → In r log
      → Json.write_record j r ≡ some t
      → strip_suffix (13 ∷ []) t ≡ none
  pub nonempty :
      (r : AuditRecord) (t : Text) → In r log → Json.write_record j r ≡ some t → is_empty t ≡ false
  pub reads_back :
      (r : AuditRecord) (t : Text)
      → In r log
      → Json.write_record j r ≡ some t
      → Json.read_record j t ≡ some r

split-line :
    (t s : Text) → All (λ c. (c == 10) ≡ false) t → split 10 (t ++ (10 ∷ s)) ≡ t ∷ split 10 s
unfolding split
split-line [] s h = refl
split-line (c ∷ t) s (h, hs) = rw h (rw (split-line t s hs) refl)

split-cons : (s : Text) → (p : Text) × (ps : List Text) × (split 10 s ≡ p ∷ ps)
unfolding split
split-cons [] = ([], [], refl)
split-cons (c ∷ s) =
    let (p, ps, e) = split-cons s in
    elim (Bool-cases (c == 10)) [
      | inl h ↦ ([], split 10 s, rw h refl)
      | inr h ↦ (c ∷ p, ps, rw (h, e) refl)
    ]

lines-line :
    (t s : Text)
    → All (λ c. (c == 10) ≡ false) t
    → strip_suffix (13 ∷ []) t ≡ none
    → lines (t ++ (10 ∷ s)) ≡ t ∷ lines s
unfolding lines finish
lines-line t s h k = let (p, ps, e) = split-cons s in rw (split-line t s h) (rw e (rw k refl))

ok_or-eq-ok : {A : Type 0} (o : Option A) (e : AuditError) (a : A) → ok_or o e ≡ ok a → o ≡ some a
ok_or-eq-ok (some b) e a h = ap (λ x. some x) (ok-injective h)
ok_or-eq-ok none e a h = cc

module _ (j : Json) (whole_log : AuditLog) (laws : JsonLaws j whole_log) where
  parse_lines-line :
      (i : ℕ) (r : AuditRecord) (t : Text) (ls : List Text) (rs : AuditLog)
      → In r whole_log
      → Json.write_record j r ≡ some t
      → parse_lines j (suc i) ls ≡ ok rs
      → parse_lines j i (t ∷ ls) ≡ ok (r ∷ rs)
  unfolding parse_lines
  parse_lines-line i r t ls rs m w h =
      rw (laws.unframed r t m w) (rw (laws.nonempty r t m w, laws.reads_back r t m w, h) refl)

  parse_lines-to_jsonl :
      (i : ℕ) (log : AuditLog) (s : Text)
      → ((r : AuditRecord) → In r log → In r whole_log)
      → to_jsonl j log ≡ ok s
      → parse_lines j i (lines s) ≡ ok log
  unfolding to_jsonl
  parse_lines-to_jsonl i [] s sub h =
      ap (λ x. parse_lines j i (lines x)) (sym (ok-injective h))
      ∙ unfold parse_lines lines split finish in refl
  parse_lines-to_jsonl i (r ∷ rs) s sub h =
      let (t, found, h1) = >>=-eq-ok (ok_or (Json.write_record j r) serde) _ h in
      let (rest, later, h2) = >>=-eq-ok (to_jsonl j rs) _ h1 in
      let written = ok_or-eq-ok (Json.write_record j r) serde t found in
      let whole : lines s ≡ t ∷ lines rest =
        ap lines (sym (ok-injective h2))
        ∙ lines-line t rest (laws.one_line r t (sub r (inl refl)) written)
            (laws.no_return r t (sub r (inl refl)) written) in
      ap (parse_lines j i) whole
      ∙ parse_lines-line i r t (lines rest) rs (sub r (inl refl)) written
          (parse_lines-to_jsonl (suc i) rs rest (λ x m. sub x (inr m)) later)

-- A log that is written reads back as itself, where a record's JSON does.
pub from_jsonl-to_jsonl :
    (j : Json) (log : AuditLog) (laws : JsonLaws j log) (s : Text)
    → to_jsonl j log ≡ ok s
    → from_jsonl j s ≡ ok log
unfolding from_jsonl
from_jsonl-to_jsonl j log laws s h = parse_lines-to_jsonl j log laws 0 log s (λ r m. m) h

-- What the file holds, when it parses; a file that cannot be read counts as an empty log.
abbrev pub Holds : Json → Option Text → AuditLog → Type 0
Holds j none log = log ≡ []
Holds j (some s) log = from_jsonl j s ≡ ok log

read_log-Holds :
    (j : Json) (file : Option Text) (log : AuditLog) → Holds j file log → read_log j file ≡ log
unfolding read_log
read_log-Holds j none log h = sym h
read_log-Holds j (some s) log h = rw h refl

-- When the file parses as a log, or no file can be read and the log is empty, and that log verifies and
-- has fewer than 2^64 records, the event can be appended and written, and the JSON of the new log's
-- records reads back: then recording the event leaves a file that parses as the log with one more
-- record, that of the event, and this log verifies.
pub record_event_extends :
    (j : Json) (d : Digests) (file : Option Text) (event : AuditEvent) (old log : AuditLog)
    (laws : JsonLaws j log) (s : Text)
    → Holds j file old
    → length old < 2 ^ 64
    → verify d old ≡ ok tt
    → append d old event ≡ ok log
    → to_jsonl j log ≡ ok s
    → (record_event j d file event ≡ some s)
      × (from_jsonl j s ≡ ok log)
      × (verify d log ≡ ok tt)
      × ((r : AuditRecord) × (log ≡ old ++ r ∷ []) × (r.event ≡ event))
unfolding record_event
record_event_extends j d file event old log laws s holds small ok_before made written =
    let (ok_after, last) = verify-append d old log event small ok_before made in
    (
      rw (read_log-Holds j file old holds, made, written) refl,
      from_jsonl-to_jsonl j log laws s written,
      ok_after,
      last,
    )

-- A file that does not parse is replaced: recording over it leaves what recording over no file
-- leaves, so that the earlier records are gone and the new file verifies.
pub record_event_replaces :
    (j : Json) (d : Digests) (s : Text) (e : AuditError) (event : AuditEvent) (log : AuditLog)
    (t : Text)
    → from_jsonl j s ≡ err e
    → append d [] event ≡ ok log
    → to_jsonl j log ≡ ok t
    → (record_event j d (some s) event ≡ some t) × (verify d log ≡ ok tt)
unfolding record_event
record_event_replaces j d s e event log t broken made written =
    let lost : read_log j (some s) ≡ [] = unfold read_log in rw broken refl in
    (
      rw (lost, made, written) refl,
      (verify-append d [] log event (omega arith) (unfold verify verify_from in refl) made).0,
    )
