-- ===== src/Compile/Envelope.antt =====
-- The envelope of crates/ql-compile/src/lib.rs: choosing among the lockfiles found, the domains,
-- the provenance hash, and what an envelope does to a profile.
use quantmlayer.Prelude.{
  Bool, true, false, not, Option, none, some, List, [], ◌∷◌, ◌++◌, map, last?, any, retain,
  if◌then◌else◌, Outcome, ok, err, ◌>>=◌,
}
use quantmlayer.Text.{Text, codes, text_eq}
use quantmlayer.Text.Order.{text_leb, sort_dedup}
use quantmlayer.Profile.{Profile, LockfileVcs, clean, LockfilePin, ApprovedFor}
use quantmlayer.Compile
use quantmlayer.Compile.{
  Ecosystem, every, token, source_hosting, RelPath, path_text, LockfileRef, CompileError,
  no_lockfiles, unrecognized_lockfile, same_ecosystem, same_vcs, same_ref, ecosystem_for_filename,
  GitAnswer, vcs_state,
}
use quantmlayer.Compile.Walk.{Directory, hex, read_file, collect_lockfiles}

pub record Envelope : Type 0 where
  pub lockfiles : List LockfileRef
  pub skipped : List LockfileRef
  pub domains : List Text
  pub envelope_hash : Text
  pub unverified_vcs : List (RelPath × LockfileVcs)

-- Path::cmp, by components
unfoldable pub path_leb : RelPath → RelPath → Bool
unfolding text_leb text_eq
path_leb [] q = true
path_leb (a ∷ p) [] = false
path_leb (a ∷ p) (b ∷ q) = if text_eq a b then path_leb p q else text_leb a b

-- sort_by of the paths, which is stable
unfoldable pub insert_ref : LockfileRef → List LockfileRef → List LockfileRef
unfolding path_leb
insert_ref l [] = l ∷ []
insert_ref l (k ∷ ks) =
    let rest = insert_ref l ks in if path_leb l.path k.path then l ∷ k ∷ ks else k ∷ rest

unfoldable pub sort_refs : List LockfileRef → List LockfileRef
unfolding insert_ref
sort_refs [] = []
sort_refs (l ∷ ls) = insert_ref l (sort_refs ls)

-- The test of `at_root`: the parent is the empty path, or there is none.
unfoldable pub is_at_root : LockfileRef → Bool
is_at_root l = elim l.path [ [] ↦ true | name ∷ more ↦ elim more [ [] ↦ true | _ ↦ false ] ]

unfoldable pub is_listed : List LockfileRef → LockfileRef → Bool
unfolding same_ref
is_listed at_root l = any (λ k. same_ref k l) at_root

-- The choice of `compile`: the lockfiles at the root and the others, or all where none is there.
unfoldable pub prefer_root :
    List LockfileRef → List LockfileRef → List LockfileRef × List LockfileRef
unfolding is_listed
prefer_root all [] = (all, [])
prefer_root all (l ∷ ls) = (l ∷ ls, retain (λ k. not (is_listed (l ∷ ls) k)) all)

unfoldable pub chosen : List LockfileRef → List LockfileRef × List LockfileRef
unfolding prefer_root is_at_root
chosen all = prefer_root all (retain is_at_root all)

-- The domains that `assemble` collects, before they are sorted.
unfoldable pub needed : List LockfileRef → List Text
unfolding Compile.domains
needed [] = source_hosting
needed (l ∷ ls) = Compile.domains l.ecosystem ++ needed ls

-- The bytes that `hash_envelope` feeds to the hash.
unfoldable pub hash_input : List LockfileRef → Text
unfolding path_text token
hash_input [] = []
hash_input (l ∷ ls) =
    path_text l.path ++ 0 ∷ (token l.ecosystem ++ 0 ∷ (l.sha256 ++ 0 ∷ hash_input ls))

abbrev pub hash_prefix : Text
hash_prefix = codes "ql.compile.envelope/v1" ++ 0 ∷ []

-- rel.file_name(), empty where there is none
unfoldable pub file_name : RelPath → Text
file_name p = elim (last? p) [ none ↦ [] | some name ↦ name ]

-- Envelope::ecosystems
unfoldable pub ecosystems : Envelope → List Ecosystem
unfolding same_ecosystem
ecosystems e = retain (λ eco. any (λ l. same_ecosystem l.ecosystem eco) e.lockfiles) every

-- The loop of `compile` that records the state of each lockfile taken.
unfoldable pub resolve_vcs : (RelPath → GitAnswer) → LockfileRef → LockfileRef
unfolding vcs_state
resolve_vcs git l = record l { vcs = vcs_state (git l.path) }

module _ (sha256 : Text → Text) where
  unfoldable pub hash_envelope : List LockfileRef → Text
  unfolding hash_input hex
  hash_envelope locks = hex (sha256 (hash_prefix ++ hash_input locks))

  unfoldable pub assemble : List LockfileRef → List LockfileRef → Envelope
  unfolding needed sort_dedup same_vcs hash_envelope
  assemble found skipped = record {
    lockfiles = found;
    skipped = skipped;
    domains = sort_dedup (needed found);
    envelope_hash = hash_envelope found;
    unverified_vcs = map (λ l. (l.path, l.vcs)) (retain (λ l. not (same_vcs l.vcs clean)) found);
  }

  module _ (git : RelPath → GitAnswer) where
    -- The end of `compile`, on the sorted lockfiles.
    unfoldable pub compile_found : List LockfileRef → Outcome CompileError Envelope
    unfolding chosen sort_refs resolve_vcs assemble
    compile_found [] = err no_lockfiles
    compile_found (l ∷ ls) =
        let choice = chosen (sort_refs (l ∷ ls)) in
        ok (assemble (map (resolve_vcs git) (choice.0)) (choice.1))

    unfoldable pub compile : Directory → Outcome CompileError Envelope
    unfolding collect_lockfiles compile_found
    compile root = do all ← collect_lockfiles sha256 [] 0 root; compile_found all

    -- compile_one; `read` is the file system's answer for the path under the root.
    unfoldable pub compile_named :
        Option Ecosystem → RelPath → Outcome Text Text → Outcome CompileError Envelope
    unfolding file_name vcs_state assemble hex
    compile_named none rel contents = err (unrecognized_lockfile (file_name rel))
    compile_named (some eco) rel contents = do
      bytes ← read_file contents
      ok (
          assemble
            (record {
              path = rel;
              ecosystem = eco;
              sha256 = hex (sha256 bytes);
              vcs = vcs_state (git rel);
            }
              ∷ [])
            [])

    unfoldable pub compile_one :
        (RelPath → Outcome Text Text) → RelPath → Outcome CompileError Envelope
    unfolding compile_named file_name ecosystem_for_filename
    compile_one read rel = compile_named (ecosystem_for_filename (file_name rel)) rel (read rel)

-- Envelope::pin_lockfiles
unfoldable pub pin_of : LockfileRef → LockfilePin
unfolding path_text
pin_of l = record { path = path_text l.path; sha256 = l.sha256; vcs = l.vcs }

abbrev pub approved_or_default : Option ApprovedFor → ApprovedFor
approved_or_default none = record { commit = none; image_digest = none; lockfiles = [] }
approved_or_default (some a) = a

unfoldable pub pin_lockfiles : Envelope → Profile → Profile
unfolding pin_of
pin_lockfiles e p = record p {
  approved_for =
      some (record (approved_or_default p.approved_for) { lockfiles = map pin_of e.lockfiles });
}

-- Envelope::apply_to
unfoldable pub apply_to : Envelope → Profile → Profile
unfolding sort_dedup pin_lockfiles
apply_to e p = pin_lockfiles e (record p {
  network = record p.network { allow_domains = sort_dedup (p.network.allow_domains ++ e.domains) };
})

-- Envelope::apply_to_replacing
unfoldable pub apply_to_replacing : Envelope → Profile → Profile
unfolding pin_lockfiles
apply_to_replacing e p =
    pin_lockfiles e (record p { network = record p.network { allow_domains = e.domains } })
