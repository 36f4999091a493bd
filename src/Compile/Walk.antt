-- ===== src/Compile/Walk.antt =====
-- The walk of crates/ql-compile/src/lib.rs over a directory tree, bounded in depth.
use quantmlayer.Prelude.{
  ℕ, ◌+◌, Bool, ◌||◌, Option, none, some, List, [], ◌∷◌, ◌++◌, ltb, if◌then◌else◌, Outcome, ok, err,
  ◌>>=◌,
}
use quantmlayer.Text.{Text, codes, contains, starts_with}
use quantmlayer.Identity.{hex_encode}
use quantmlayer.Profile.{unknown}
use quantmlayer.Compile.{Ecosystem, RelPath, LockfileRef, CompileError, io, ecosystem_for_filename}

-- What `read_dir` and `read` find: a directory that cannot be listed, or its entries in the order of
-- iteration, each a directory or a file with its bytes or the error of reading it. A symbolic link
-- to a directory is a file here, as `file_type` has it.
mutual
  pub data Directory : Type 0 where
    sealed : Directory
    readable : Listing → Directory

  pub data Listing : Type 0 where
    done : Listing
    file : Text → Outcome Text Text → Listing → Listing
    folder : Text → Directory → Listing → Listing

abbrev pub max_depth : ℕ
max_depth = 3

abbrev pub skip_dirs : List Text
skip_dirs =
    codes "node_modules"
    ∷ codes "vendor"
    ∷ codes "target"
    ∷ codes ".git"
    ∷ codes "venv"
    ∷ codes ".venv"
    ∷ codes "dist"
    ∷ codes "build"
    ∷ codes ".tox"
    ∷ []

unfoldable pub is_skipped : Text → Bool
unfolding contains starts_with
is_skipped name = contains skip_dirs name || starts_with (codes ".") name

-- hex
unfoldable pub hex : Text → Text
unfolding hex_encode
hex = hex_encode

-- `From<io::Error>`
abbrev pub read_file : Outcome Text Text → Outcome CompileError Text
read_file (ok bytes) = ok bytes
read_file (err e) = err (io e)

module _ (sha256 : Text → Text) where
  -- The file branch of the loop of `collect_lockfiles`.
  unfoldable pub collect_file :
      RelPath → Outcome Text Text → Option Ecosystem → Outcome CompileError (List LockfileRef)
  unfolding hex
  collect_file path contents none = ok []
  collect_file path contents (some eco) = do
    bytes ← read_file contents
    ok (record { path = path; ecosystem = eco; sha256 = hex (sha256 bytes); vcs = unknown } ∷ [])

  -- collect_lockfiles, and its loop. What the source pushes onto `out` is returned instead, in the
  -- order of the pushes; paths are relative to the root.
  unfoldable mutual
    unfolding is_skipped ecosystem_for_filename collect_file

    pub collect_lockfiles : RelPath → ℕ → Directory → Outcome CompileError (List LockfileRef)
    collect_lockfiles dir depth sealed = ok []
    collect_lockfiles dir depth (readable entries) =
        let walk = collect_entries dir depth entries in if ltb max_depth depth then ok [] else walk

    pub collect_entries : RelPath → ℕ → Listing → Outcome CompileError (List LockfileRef)
    collect_entries dir depth done = ok []
    collect_entries dir depth (file name contents rest) = do
      here ← collect_file (dir ++ name ∷ []) contents (ecosystem_for_filename name)
      later ← collect_entries dir depth rest
      ok (here ++ later)
    collect_entries dir depth (folder name sub rest) =
        let walk = collect_lockfiles (dir ++ name ∷ []) (depth + 1) sub in
        do
          here ← if is_skipped name then ok [] else walk
          later ← collect_entries dir depth rest
          ok (here ++ later)
