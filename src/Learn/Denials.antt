-- ===== src/Learn/Denials.antt =====
-- What a profile of crates/ql-learn/src/synth.rs denies.
use quantmlayer.Prelude.{ℕ, ◌⊎◌, In}
use quantmlayer.Text.{Text}
use quantmlayer.Text.Occurrence.{Occurs}
use quantmlayer.Learn.{PathBuf, Observation}
use quantmlayer.Learn.Synthesis.{display}

-- A path that was read or written whose text has the segment in it.
abbrev pub IsTouched : Observation → Text → Type 0
IsTouched o segment = (p : PathBuf) × (In p o.reads ⊎ In p o.writes) × Occurs segment (display p)

-- A system call that was made, by its number.
abbrev pub WasMade : Observation → ℕ → Type 0
WasMade o nr = (name : Text) × In (nr, name) o.syscalls
