-- ===== src/Learn.antt =====
-- crates/ql-learn/src/observation.rs: the record of what an agent did during a learning run. The
-- tracer that fills it is system calls; process numbers and times are arguments.

pub mod Synthesis
pub mod Coverage
pub mod Globs
pub mod Denials
pub mod Opens
pub mod Pinning
pub mod Hashing
pub mod Shim
mod Interpreters
pub mod Chains
mod Tests
use quantmlayer.Prelude.{
  ℕ, ◌+◌, ◌-◌, ◌%◌, ◌^◌, Bool, true, false, not, ◌&&◌, ◌||◌, Option, none, some, List, [], ◌∷◌,
  ◌++◌, map, ◌==◌, leb, any, retain, if◌then◌else◌,
}
use quantmlayer.Text.{Text, text_eq, contains}
use quantmlayer.Text.Order.{insert_sorted, sort_dedup}
use quantmlayer.Digest.{ExecDigest}
use quantmlayer.Compile.{RelPath, same_path}
use quantmlayer.Compile.Envelope.{path_leb}
use quantmlayer.Broker.Address.{Ipv4, Ipv6, IpAddr, v4, v6, low_zero}

-- A PathBuf, by its components; the root directory is the empty component in front, so that a path
-- is absolute when it starts with one. The order of paths is that of the components. Doubled
-- separators and `.` components of the text are not kept, so that `display` shows a path without them.
abbrev pub PathBuf : Type 0
PathBuf = RelPath

unfoldable pub has_path : List PathBuf → PathBuf → Bool
unfolding same_path
has_path ps p = any (λ q. same_path q p) ps

-- BTreeSet::insert and remove, on the list in the order of iteration
unfoldable pub insert_path : PathBuf → List PathBuf → List PathBuf
unfolding same_path path_leb
insert_path p [] = p ∷ []
insert_path p (q ∷ qs) =
    let rest = insert_path p qs in
    if same_path q p then q ∷ qs else if path_leb p q then p ∷ q ∷ qs else q ∷ rest

unfoldable pub remove_path : PathBuf → List PathBuf → List PathBuf
unfolding same_path
remove_path p ps = retain (λ q. not (same_path q p)) ps

pub record ExecEvent : Type 0 where
  pub pid : ℕ
  pub ppid : Option ℕ
  pub path : Text
  pub ts_millis : ℕ
  pub seq : ℕ
  pub failed : Bool

pub record Observation : Type 0 where
  pub reads : List PathBuf
  pub writes : List PathBuf
  pub execs : List Text
  pub exec_events : List ExecEvent
  pub exec_digests : List (Text × ExecDigest)
  pub connects : List (IpAddr × ℕ)
  pub syscalls : List (ℕ × Text)
  pub process_count : ℕ
  pub next_seq : ℕ

-- The test of `record_open` for a read, negated: a path that was written stays so.
unfoldable pub open_read : Bool → PathBuf → Observation → Observation
unfolding insert_path
open_read true path o = o
open_read false path o = record o { reads = insert_path path o.reads }

-- Observation::record_open
unfoldable pub record_open : PathBuf → Bool → Observation → Observation
unfolding insert_path remove_path has_path open_read
record_open path true o = record o {
  reads = remove_path path o.reads;
  writes = insert_path path o.writes;
}
record_open path false o = open_read (has_path o.writes path) path o

abbrev pub is_empty : Text → Bool
is_empty [] = true
is_empty (c ∷ cs) = false

-- Observation::record_exec
unfoldable pub record_exec : Text → ℕ → Option ℕ → ℕ → Observation → Observation
unfolding sort_dedup
record_exec path pid ppid ts_millis o =
    if not (is_empty path)
    then record o {
      execs = sort_dedup (path ∷ o.execs);
      exec_events =
          o.exec_events
          ++ record {
            pid = pid;
            ppid = ppid;
            path = path;
            ts_millis = ts_millis;
            seq = o.next_seq;
            failed = false;
          }
            ∷ [];
      next_seq = o.next_seq + 1;
    }
    else o

-- Observation::executed_paths
unfoldable pub executed_of : List Text → List ExecEvent → List Text
unfolding sort_dedup
executed_of execs [] = execs
executed_of execs (e ∷ es) =
    sort_dedup (map (λ (x : ExecEvent). x.path) (retain (λ (x : ExecEvent). not x.failed) (e ∷ es)))

unfoldable pub executed_paths : Observation → List Text
unfolding executed_of
executed_paths o = executed_of o.execs o.exec_events

-- iter_mut().rev().find(…), on the last event of the process that has not failed
unfoldable pub mark_last : ℕ → List ExecEvent → Option (List ExecEvent)
mark_last pid [] = none
mark_last pid (e ∷ es) = elim (mark_last pid es) [
  | some marked ↦ some (e ∷ marked)
  | none ↦ if e.pid == pid && not e.failed then some (record e { failed = true } ∷ es) else none
]

abbrev pub or_same {ℓ} : {A : Type ℓ} → A → Option A → A
or_same a none = a
or_same a (some b) = b

unfoldable pub mark_last_exec_failed : ℕ → Observation → Observation
unfolding mark_last
mark_last_exec_failed pid o = record o {
  exec_events = or_same o.exec_events (mark_last pid o.exec_events);
}

-- Observation::record_syscall
unfoldable pub has_syscall : ℕ → List (ℕ × Text) → Bool
has_syscall nr ss = any (λ s. s.0 == nr) ss

unfoldable pub record_syscall : ℕ → Text → Observation → Observation
unfolding has_syscall
record_syscall nr name o =
    if has_syscall nr o.syscalls then o else record o { syscalls = (nr, name) ∷ o.syscalls }

-- The negated test of the closure of `has_external_egress`: is_loopback, is_link_local.
unfoldable pub is_external : IpAddr → Bool
is_external (v4 ip) = not (ip.a == 127) && not (ip.a == 169 && ip.b == 254)
is_external (v6 ip) = not (low_zero ip && ip.s7 == 1)

unfoldable pub has_external_egress : Observation → Bool
unfolding is_external
has_external_egress o = any (λ c. is_external (c.0)) o.connects
