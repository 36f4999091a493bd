-- ===== src/Learn/Hashing.antt =====
-- crates/ql-learn/src/digest.rs and `learn` of crates/ql-learn/src/lib.rs: the digests of the programs
-- that ran, and the learning run as a whole. The trace, the bytes of a file or the error of reading it,
-- and the interpreters that the shebang lines name are parameters.
use quantmlayer.Prelude.{ℕ, List, [], ◌∷◌, ◌++◌, map, retain, Outcome, ok, err, ◌>>=◌}
use quantmlayer.Text.{Text, codes, starts_with}
use quantmlayer.Text.Order.{sort_dedup}
use quantmlayer.Identity.{hex_encode}
use quantmlayer.Digest.{sha256, ExecDigest, ExecDigestError, new}
use quantmlayer.Profile.{Profile}
use quantmlayer.Learn.{Observation, executed_paths}
use quantmlayer.Learn.Synthesis.{Note, synthesize}

-- The notes of the hashing pass, and those of the synthesis, without their wording.
pub data LearnNote : Type 0 where
  could_not_hash : Text → Text → LearnNote
  could_not_form : Text → ExecDigestError → LearnNote
  synthesis_note : Note → LearnNote

pub record LearnOutcome : Type 0 where
  pub profile : Profile
  pub notes : List LearnNote
  pub observation : Observation

abbrev pub Hashed : Type 0
Hashed = List (Text × ExecDigest) × List LearnNote

-- The inner match of the loop, on ExecDigest::new.
unfoldable pub add_digest : Text → Outcome ExecDigestError ExecDigest → Hashed → Hashed
add_digest path (ok d) rest = ((path, d) ∷ rest.0, rest.1)
add_digest path (err e) rest = (rest.0, could_not_form path e ∷ rest.1)

-- The outer match, on hash_file.
unfoldable pub add_hash : Text → Outcome Text Text → Hashed → Hashed
unfolding new add_digest
add_hash path (ok hex) rest = add_digest path (new sha256 hex) rest
add_hash path (err e) rest = (rest.0, could_not_hash path e ∷ rest.1)

module _ (digest : Text → Text) (read : Text → Outcome Text Text) where
  unfoldable pub hash_file : Text → Outcome Text Text
  unfolding hex_encode
  hash_file path = do bytes ← read path; ok (hex_encode (digest bytes))

  -- The loop of `hash_executables` over the absolute paths, which come in order.
  unfoldable pub hash_each : List Text → Hashed
  unfolding hash_file add_hash
  hash_each [] = ([], [])
  hash_each (p ∷ ps) = add_hash p (hash_file p) (hash_each ps)

  unfoldable pub hash_executables : List Text → Hashed
  unfolding hash_each starts_with
  hash_executables execs = hash_each (retain (starts_with (codes "/")) execs)

  -- observation.execs.extend(interpreters), on a set in order
  unfoldable pub with_interpreters : List Text → Observation → Observation
  unfolding sort_dedup
  with_interpreters found o = record o { execs = sort_dedup (found ++ o.execs) }

  -- The assignment to `exec_digests`.
  unfoldable pub with_digests : Observation → Observation
  unfolding hash_executables executed_paths
  with_digests o = record o { exec_digests = (hash_executables (executed_paths o)).0 }

  module _ (number : Text → ℕ) (resolve_shim_interpreters : List Text → List Text) where
    -- learn, on the observation of a trace that succeeded
    unfoldable pub learn : Observation → LearnOutcome
    unfolding with_interpreters with_digests hash_executables executed_paths synthesize
    learn o =
        let whole = with_interpreters (resolve_shim_interpreters o.execs) o in
        let result = synthesize number (with_digests whole) in
        record {
          profile = result.profile;
          notes = (hash_executables (executed_paths whole)).1 ++ map synthesis_note result.notes;
          observation = with_digests whole;
        }
