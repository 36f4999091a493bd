-- ===== src/Compile/Bounds.antt =====
-- How deep, and below which directories, the lockfiles of crates/ql-compile/src/lib.rs are found.
use quantmlayer.Prelude.{
  Bool-cases, Option, ℕ, ◌+◌, ◌≤◌, ◌≡◌, sym, inl, inr, false, some, List, [], ◌∷◌, ◌++◌, In, All,
  length, ok, subst, arith,
}
use quantmlayer.Text.{Text, contains}
use quantmlayer.Text.Laws.{contains_In}
use quantmlayer.Compile.{
  lockfile_names, first_named, every, Ecosystem, RelPath, LockfileRef, ecosystem_for_filename,
  GitAnswer,
}
use quantmlayer.Compile.Walk.{Directory, sealed, readable, Listing, done, file, folder, is_skipped}
use quantmlayer.Compile.Envelope.{Envelope, file_name, compile}
use quantmlayer.Compile.Lockfiles.{Stands, Among}
use quantmlayer.Compile.Selection.{compile-Stands}

first_named-In :
    (name : Text) (ecos : List Ecosystem) (eco : Ecosystem)
    → first_named name ecos ≡ some eco
    → In name (lockfile_names eco)
unfolding first_named
first_named-In name (first ∷ rest) eco h =
    elim (Bool-cases (contains (lockfile_names first) name)) [
      | inl e ↦
          let same : first ≡ eco = taken (rw e at h) in
          subst (λ x. In name (lockfile_names x)) same (contains_In name (lockfile_names first) e)
      | inr e ↦ first_named-In name rest eco (rw e at h)
    ]
  where
    taken : ◌≡◌ {A = Option Ecosystem} (some first) (some eco) → first ≡ eco
    taken same = cc
first_named-In name [] eco h = cc

-- The folders of a path.
unfoldable pub parent : RelPath → RelPath
parent [] = []
parent (name ∷ []) = []
parent (name ∷ next ∷ more) = name ∷ parent (next ∷ more)

-- A folder in front of a path that keeps the bounds.
abbrev IsBounded : ℕ → RelPath → Type 0
IsBounded depth path =
    (depth + length path ≤ 4)
    × (1 ≤ length path)
    × All (λ name. is_skipped name ≡ false) (parent path)

cons-IsBounded :
    (depth : ℕ) (name : Text) (more : RelPath)
    → is_skipped name ≡ false
    → IsBounded (depth + 1) more
    → IsBounded depth (name ∷ more)
unfolding parent
cons-IsBounded depth name (next ∷ more) seen (shallow, some_name, folders) =
    (omega arith, omega arith, (seen, folders))
cons-IsBounded depth name [] seen (shallow, some_name, folders) = absurd (omega arith)

mutual
  unfolding Stands parent

  Stands-bounds :
      (depth : ℕ) (d : Directory) (path : RelPath) (bytes : Text)
      → Stands depth d path bytes
      → IsBounded depth path
  Stands-bounds depth (readable entries) path bytes (near, among) =
      Among-bounds depth entries path bytes near among
  Stands-bounds depth sealed path bytes empty = absurd empty

  Among-bounds :
      (depth : ℕ) (es : Listing) (path : RelPath) (bytes : Text)
      → depth ≤ 3
      → Among depth es path bytes
      → IsBounded depth path
  Among-bounds depth (file name contents rest) path bytes near (inl (e, _)) =
      rw e (omega arith, omega arith, tt)
  Among-bounds depth (file name contents rest) path bytes near (inr among) =
      Among-bounds depth rest path bytes near among
  Among-bounds depth (folder name sub rest) path bytes near (inl (more, e, seen, below)) =
      subst (IsBounded depth) (sym e)
        (cons-IsBounded depth name more seen (Stands-bounds (depth + 1) sub more bytes below))
  Among-bounds depth (folder name sub rest) path bytes near (inr among) =
      Among-bounds depth rest path bytes near among
  Among-bounds depth done path bytes near empty = absurd empty

-- Every lockfile that a compiled envelope lists is at most four components deep, has a lockfile's
-- name of its ecosystem, and stands below no skipped and no hidden directory.
pub compile_bounds :
    (sha256 : Text → Text) (git : RelPath → GitAnswer) (root : Directory) (e : Envelope)
    → compile sha256 git root ≡ ok e
    → (l : LockfileRef) → In l (e.lockfiles ++ e.skipped)
    → (length l.path ≤ 4)
      × In (file_name l.path) (lockfile_names l.ecosystem)
      × All (λ name. is_skipped name ≡ false) (parent l.path)
unfolding ecosystem_for_filename
compile_bounds sha256 git root e h l m =
    let (bytes, stands, named, _) = (compile-Stands sha256 git root e h).0 l m in
    let (shallow, _, folders) = Stands-bounds 0 root l.path bytes stands in
    (omega arith, first_named-In (file_name l.path) every l.ecosystem named, folders)
