-- ===== src/Audit/Lines.antt =====
-- crates/ql-audit/src/lib.rs, to_jsonl and from_jsonl, and AuditSink of
-- crates/ql-broker/src/policy.rs: the log as a file of one record a line. The JSON of one record is
-- third-party code: the record `Json`. A write to the file succeeds.
pub mod Sink
use quantmlayer.Prelude.{
  ℕ, suc, ◌-◌, Bool, true, false, not, Option, none, some, List, [], ◌∷◌, ◌++◌, map, length, ◌==◌,
  if◌then◌else◌, Outcome, ok, err, ◌>>=◌,
}
use quantmlayer.Text.{Text, starts_with, split, strip_suffix}
use quantmlayer.Text.Trim.{trim}
use quantmlayer.Audit.{
  AuditEvent, AuditRecord, AuditError, serde, parse, AuditLog, AuditResult, Digests, append,
}
use mathlib.Core.List.{reverse}

pub record Json : Type 0 where
  pub write_record : AuditRecord → Option Text
  pub read_record : Text → Option AuditRecord

abbrev pub is_empty : Text → Bool
is_empty [] = true
is_empty (c ∷ s) = false

abbrev pub or_self : Text → Option Text → Text
or_self s none = s
or_self s (some t) = t

-- str::lines: a line ends at a newline, with a carriage return before it; an empty last piece is
-- no line.
unfoldable pub finish : List Text → List Text
unfolding strip_suffix
finish [] = []
finish (p ∷ []) = if is_empty p then [] else p ∷ []
finish (p ∷ q ∷ ps) = or_self p (strip_suffix (13 ∷ []) p) ∷ finish (q ∷ ps)

unfoldable pub lines : Text → List Text
unfolding split finish
lines s = finish (split 10 s)

-- Result's `?` on an option with its error.
abbrev pub ok_or {ℓ} : {A : Type ℓ} → Option A → AuditError → Outcome AuditError A
ok_or none e = err e
ok_or (some a) e = ok a

module _ (j : Json) where
  -- AuditLog::to_jsonl
  unfoldable pub to_jsonl : AuditLog → AuditResult Text
  to_jsonl [] = ok []
  to_jsonl (r ∷ rs) =
      let later = to_jsonl rs in
      do text ← ok_or (j.write_record r) serde; rest ← later; ok (text ++ (10 ∷ rest))

  -- The loop of AuditLog::from_jsonl, from the line with index `i`.
  unfoldable pub parse_lines : ℕ → List Text → AuditResult AuditLog
  unfolding trim
  parse_lines i [] = ok []
  parse_lines i (l ∷ ls) =
      let later = parse_lines (suc i) ls in
      if is_empty (trim l)
      then later
      else do rec ← ok_or (j.read_record (trim l)) (parse (suc i)); recs ← later; ok (rec ∷ recs)

  -- AuditLog::from_jsonl
  unfoldable pub from_jsonl : Text → AuditResult AuditLog
  unfolding lines parse_lines
  from_jsonl s = parse_lines 0 (lines s)

  -- `.ok().and_then(..).unwrap_or_default()`; no file is one that cannot be read
  abbrev pub or_default : AuditResult AuditLog → AuditLog
  or_default (ok log) = log
  or_default (err e) = []

  unfoldable pub read_log : Option Text → AuditLog
  unfolding from_jsonl
  read_log none = []
  read_log (some s) = or_default (from_jsonl s)

  abbrev pub or_keep : Option Text → AuditResult Text → Option Text
  or_keep file (ok text) = some text
  or_keep file (err e) = file

  -- AuditSink::record: what the file holds after it.
  unfoldable pub record_event : Digests → Option Text → AuditEvent → Option Text
  unfolding read_log append to_jsonl
  record_event d file event = or_keep file (do log ← append d (read_log file) event; to_jsonl log)
