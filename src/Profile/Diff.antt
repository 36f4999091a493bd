-- ===== src/Profile/Diff.antt =====
-- crates/ql-profile/src/diff.rs: the grant lines that an approval added or removed.
use Prim.Native.String.{String}
use quantmlayer.Prelude.{Bool, true, false, not, ◌&&◌, List, [], ◌∷◌, ◌++◌, map, retain}
use quantmlayer.Text.{Text, contains}
use quantmlayer.Text.Order.{sort_dedup}
use quantmlayer.Digest.{to_string}
use quantmlayer.Profile.{Profile}

pub record GrantRef : Type 0 where
  pub category : String
  pub value : Text

pub record PolicyDiff : Type 0 where
  pub added : List GrantRef
  pub removed : List GrantRef

-- Vec::is_empty
abbrev pub no_grants : List GrantRef → Bool
no_grants [] = true
no_grants (g ∷ gs) = false

-- PolicyDiff::is_empty
unfoldable pub is_empty : PolicyDiff → Bool
is_empty d = no_grants d.added && no_grants d.removed

-- a.difference(&p) on sorted sets
unfoldable pub difference : List Text → List Text → List Text
unfolding contains
difference a p = retain (λ v. not (contains p v)) a

abbrev pub grant : String → Text → GrantRef
grant category value = record { category = category; value = value }

unfoldable pub diff_into : String → List Text → List Text → PolicyDiff → PolicyDiff
unfolding sort_dedup difference
diff_into category proposed approved d =
    let p = sort_dedup proposed in
    let a = sort_dedup approved in
    record {
      added = d.added ++ map (grant category) (difference a p);
      removed = d.removed ++ map (grant category) (difference p a);
    }

abbrev pub digest_lines : Profile → List Text
digest_lines p = map to_string p.exec.allow_digests

unfoldable pub diff : Profile → Profile → PolicyDiff
unfolding diff_into to_string
diff p a = diff_into "exec.digest" (digest_lines p) (digest_lines a) (
    diff_into "net.allow" p.network.allow_domains a.network.allow_domains (
      diff_into "syscall.deny" p.syscalls.deny a.syscalls.deny (
        diff_into "exec" p.processes.allow_exec a.processes.allow_exec (
          diff_into "fs.deny" p.filesystem.denied a.filesystem.denied (
            diff_into "fs.write" p.filesystem.readwrite a.filesystem.readwrite (
              diff_into "fs.read" p.filesystem.readonly a.filesystem.readonly
                (record { added = []; removed = [] })))))))
