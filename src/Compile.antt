-- ===== src/Compile.antt =====
-- crates/ql-compile/src/lib.rs: compiling an egress allow-list from the lockfiles under a project
-- root. SHA-256, the answer of `git status` and the file system are third-party code: a hash
-- function, an answer for each path, and a tree of directories are arguments.
pub mod Walk
pub mod Envelope
pub mod Sorting
pub mod Lockfiles
pub mod Choice
pub mod Selection
pub mod Bounds
pub mod Provenance
pub mod Hashing
pub mod Application
mod Tests
use Prim.Native.String.{String}
use mathlib.Core.Option
use quantmlayer.Prelude.{
  ℕ, suc, Bool, true, false, ◌&&◌, Option, none, some, List, [], ◌∷◌, ◌++◌, map, if◌then◌else◌,
}
use quantmlayer.Text.{Text, codes, text_eq, contains}
use quantmlayer.Profile.{LockfileVcs, clean, dirty, unknown}

-- The variants are Cargo, Npm, PyPI and Go.
pub data Ecosystem : Type 0 where
  cargo npm pypi go : Ecosystem

-- Ecosystem::lockfile_names
unfoldable pub lockfile_names : Ecosystem → List Text
lockfile_names cargo = codes "Cargo.lock" ∷ []
lockfile_names npm =
    codes "package-lock.json"
    ∷ codes "npm-shrinkwrap.json"
    ∷ codes "yarn.lock"
    ∷ codes "pnpm-lock.yaml"
    ∷ []
lockfile_names pypi =
    codes "requirements.txt" ∷ codes "poetry.lock" ∷ codes "Pipfile.lock" ∷ codes "uv.lock" ∷ []
lockfile_names go = codes "go.sum" ∷ []

-- Ecosystem::domains
unfoldable pub domains : Ecosystem → List Text
domains cargo = codes "crates.io" ∷ codes "static.crates.io" ∷ codes "index.crates.io" ∷ []
domains npm = codes "registry.npmjs.org" ∷ []
domains pypi = codes "pypi.org" ∷ codes "files.pythonhosted.org" ∷ []
domains go = codes "proxy.golang.org" ∷ codes "sum.golang.org" ∷ []

-- Ecosystem::token
unfoldable pub token : Ecosystem → Text
token cargo = codes "cargo"
token npm = codes "npm"
token pypi = codes "pypi"
token go = codes "go"

-- Ecosystem::all
abbrev pub every : List Ecosystem
every = cargo ∷ npm ∷ pypi ∷ go ∷ []

abbrev pub source_hosting : List Text
source_hosting =
    codes "github.com"
    ∷ codes "api.github.com"
    ∷ codes "codeload.github.com"
    ∷ codes "raw.githubusercontent.com"
    ∷ codes "objects.githubusercontent.com"
    ∷ []

-- A relative path, by its components.
abbrev pub RelPath : Type 0
RelPath = List Text

-- to_string_lossy of a path of UTF-8 names
unfoldable pub path_text : RelPath → Text
path_text [] = []
path_text (name ∷ []) = name
path_text (name ∷ next ∷ more) = name ++ 47 ∷ path_text (next ∷ more)

pub record LockfileRef : Type 0 where
  pub path : RelPath
  pub ecosystem : Ecosystem
  pub sha256 : Text
  pub vcs : LockfileVcs

pub data CompileError : Type 0 where
  no_lockfiles : CompileError
  io : Text → CompileError
  unrecognized_lockfile : Text → CompileError

-- The derived equalities.
unfoldable pub same_ecosystem : Ecosystem → Ecosystem → Bool
same_ecosystem cargo cargo = true
same_ecosystem npm npm = true
same_ecosystem pypi pypi = true
same_ecosystem go go = true
same_ecosystem _ _ = false

unfoldable pub same_vcs : LockfileVcs → LockfileVcs → Bool
same_vcs clean clean = true
same_vcs dirty dirty = true
same_vcs unknown unknown = true
same_vcs _ _ = false

unfoldable pub same_path : RelPath → RelPath → Bool
unfolding text_eq
same_path [] [] = true
same_path (a ∷ p) (b ∷ q) = text_eq a b && same_path p q
same_path _ _ = false

unfoldable pub same_ref : LockfileRef → LockfileRef → Bool
unfolding same_path same_ecosystem text_eq same_vcs
same_ref a b =
    same_path a.path b.path
    && (same_ecosystem a.ecosystem b.ecosystem
        && (text_eq a.sha256 b.sha256 && same_vcs a.vcs b.vcs))

-- The loop of `ecosystem_for_filename`.
unfoldable pub first_named : Text → List Ecosystem → Option Ecosystem
unfolding contains lockfile_names
first_named name [] = none
first_named name (eco ∷ rest) =
    let later = first_named name rest in
    if contains (lockfile_names eco) name then some eco else later

unfoldable pub ecosystem_for_filename : Text → Option Ecosystem
unfolding first_named
ecosystem_for_filename name = first_named name every

-- The outcome of `git -C root status --porcelain -- rel`: whether it succeeded, and its output;
-- nothing where git could not be started.
abbrev pub GitAnswer : Type 0
GitAnswer = Option (Bool × Text)

unfoldable pub vcs_state : GitAnswer → LockfileVcs
vcs_state none = unknown
vcs_state (some (false, out)) = unknown
vcs_state (some (true, [])) = clean
vcs_state (some (true, c ∷ cs)) = dirty
