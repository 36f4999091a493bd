-- ===== src/Compile/Tests.antt =====
-- A tree of three lockfiles, compiled, and the theorems at it.
use quantmlayer.Prelude.{
  ◌%◌, ◌≤◌, ◌≡◌, refl, inl, inr, ◌↔◌, true, false, some, none, [], ◌∷◌, ◌++◌, map, length, All, In,
  ok, err, arith,
}
use quantmlayer.Text.{Text, codes}
use quantmlayer.Profile
use quantmlayer.Profile.{Profile, LockfileVcs, clean, unknown}
use quantmlayer.Profile.Matching.{allow, admits_domain, host_matches}
use quantmlayer.Compile.{
  ecosystem_for_filename, Ecosystem, cargo, npm, RelPath, LockfileRef, GitAnswer,
  unrecognized_lockfile, lockfile_names,
}
use quantmlayer.Compile.Walk.{Directory, readable, done, file, folder, is_skipped}
use quantmlayer.Compile.Envelope.{
  Envelope, file_name, assemble, compile, compile_one, ecosystems, apply_to_replacing,
}
use quantmlayer.Compile.Lockfiles.{Stands}
use quantmlayer.Compile.Selection.{IsFound, IsPinned, compile-Stands}
use quantmlayer.Compile.Bounds.{parent, compile_bounds}
use quantmlayer.Compile.Hashing.{identity, envelope_hash_determines}
use quantmlayer.Compile.Application.{IsTabled, replacing-admits_domain}

abbrev toy_hash : Text → Text
toy_hash m = (length m % 256) ∷ []

-- A committed tree, and one without version control.
abbrev committed : RelPath → GitAnswer
committed path = some (true, [])

abbrev no_git : RelPath → GitAnswer
no_git path = none

abbrev tree : Directory
tree = readable (
    folder (codes "node_modules") (readable (file (codes "yarn.lock") (ok (codes "x")) done)) (
      folder (codes "web") (readable (file (codes "package-lock.json") (ok (codes "abc")) done)) (
        file (codes "README.md") (err (codes "denied"))
          (file (codes "Cargo.lock") (ok (codes "ab")) done))))

abbrev cargo_lock : LockfileVcs → LockfileRef
cargo_lock vcs = record {
  path = codes "Cargo.lock" ∷ [];
  ecosystem = cargo;
  sha256 = codes "02";
  vcs = vcs;
}

abbrev web_lock : LockfileRef
web_lock = record {
  path = codes "web" ∷ codes "package-lock.json" ∷ [];
  ecosystem = npm;
  sha256 = codes "03";
  vcs = unknown;
}

abbrev made : Envelope
made = assemble toy_hash (cargo_lock clean ∷ []) (web_lock ∷ [])

abbrev made_bare : Envelope
made_bare = assemble toy_hash (cargo_lock unknown ∷ []) (web_lock ∷ [])

compile_runs : compile toy_hash committed tree ≡ ok made
unfolding compile assemble
compile_runs = refl

compile_bare_runs : compile toy_hash no_git tree ≡ ok made_bare
unfolding compile assemble
compile_bare_runs = refl

-- A file that a lockfile's name does not mark is refused by name.
compile_one_refuses :
    compile_one toy_hash no_git (λ p. ok []) (codes "web" ∷ codes "README.md" ∷ [])
    ≡ err (unrecognized_lockfile (codes "README.md"))
unfolding compile_one
compile_one_refuses = refl

ecosystems_runs : ecosystems made ≡ cargo ∷ []
unfolding ecosystems assemble
ecosystems_runs = refl

compile-Stands_example :
    ((l : LockfileRef) → In l (made.lockfiles ++ made.skipped) → IsFound toy_hash committed tree l)
    × ((path : RelPath) (bytes : Text) (eco : Ecosystem)
        → Stands 0 tree path bytes
        → ecosystem_for_filename (file_name path) ≡ some eco
        → IsPinned toy_hash committed made path eco bytes)
compile-Stands_example = compile-Stands toy_hash committed tree made compile_runs

compile_bounds_example :
    (length (web_lock.path) ≤ 4)
    × In (file_name web_lock.path) (lockfile_names npm)
    × All (λ name. is_skipped name ≡ false) (parent web_lock.path)
unfolding assemble
compile_bounds_example =
    compile_bounds toy_hash committed tree made compile_runs web_lock (inr (inl refl))

envelope_hash_determines_example : map identity made.lockfiles ≡ map identity made_bare.lockfiles
unfolding assemble
envelope_hash_determines_example =
    envelope_hash_determines toy_hash committed no_git (λ m. (omega arith, tt)) made made_bare
      (inl (tree, compile_runs)) (inl (tree, compile_bare_runs)) refl refl (λ same. refl) refl

replacing-admits_domain_example :
    (admits_domain (apply_to_replacing made Profile.default) (codes "index.crates.io") ≡ allow)
    ↔ ((d : Text) × IsTabled made.lockfiles d × (host_matches (codes "index.crates.io") d ≡ true))
replacing-admits_domain_example =
    replacing-admits_domain toy_hash committed made Profile.default (codes "index.crates.io")
      (inl (tree, compile_runs)) refl
