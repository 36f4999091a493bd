-- ===== src/Learn/Globs.antt =====
-- What a profile of crates/ql-learn/src/synth.rs grants of the files that were observed.
use quantmlayer.Prelude.{ℕ, ◌≡◌, true, Option, List, In}
use quantmlayer.Text.{Text}
use quantmlayer.Learn.{PathBuf}
use quantmlayer.Learn.Synthesis.{is_absolute, parent_dir, starts_with_path, truncate, glob_of}

-- Some directory of the list contains it.
abbrev pub IsUnder : PathBuf → List PathBuf → Type 0
IsUnder d ks = (k : PathBuf) × In k ks × (starts_with_path d k ≡ true)

-- A glob of the list is that of a directory above the path.
abbrev pub IsCovered : PathBuf → List Text → Type 0
IsCovered p globs = (d : PathBuf) × In (glob_of d) globs × (starts_with_path p d ≡ true)

-- A glob of the list is that of the directory of an observed path, cut to `n` components.
abbrev pub IsTight : Option ℕ → List PathBuf → List Text → Type 0
IsTight n paths globs =
    (g : Text)
    → In g globs
    → (p : PathBuf) × In p paths
      × (is_absolute p ≡ true)
      × (g ≡ glob_of (truncate (parent_dir p) n))
