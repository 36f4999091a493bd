-- ===== src/Supervisor.antt =====
-- crates/ql-enforce/src/exec_supervisor.rs: the wall on program execution in user space. The kernel
-- and the file system are third-party code: the record `Host` holds their answers during one
-- notification. SHA-256 and the lossy decoding of UTF-8 are arguments of it too.
pub mod Filter
pub mod Decisions
pub mod Captures
mod Tests
use quantmlayer.Prelude.{
  ℕ, zero, suc, ◌+◌, ◌-◌, ◌*◌, ◌%◌, ◌^◌, Bool, true, false, not, ◌&&◌, ◌||◌, Option, none, some,
  List, [], ◌∷◌, ◌++◌, ◌==◌, map, last?, length, retain, take, if◌then◌else◌, Outcome, ok, err,
  ◌>>=◌, ◌>>◌, guard,
}
use quantmlayer.Text.{Text, codes, text_eq, contains, starts_with, split}
use quantmlayer.Identity.{hex_encode}
use quantmlayer.Digest.{ExecDigest}
use quantmlayer.Profile.{Profile, ExecPolicy}
use quantmlayer.Profile.Matching.{is_sha256}

pub data Decision : Type 0 where
  allow deny : Decision

pub record ExecSupervisor : Type 0 where
  pub allow : List Text
  pub capture_committed : Bool

-- ExecSupervisor::new
unfoldable pub new : List Text → ExecSupervisor
new digests = record { allow = digests; capture_committed = false }

unfoldable pub with_committed_argv : Bool → ExecSupervisor → ExecSupervisor
with_committed_argv on s = record s { capture_committed = on }

unfoldable pub from_exec_policy : ExecPolicy → ExecSupervisor
unfolding new
from_exec_policy policy = new (
    map (λ (x : ExecDigest). x.hex)
      (retain (λ (x : ExecDigest). is_sha256 x.algo) policy.allow_digests))

unfoldable pub from_profile : Profile → ExecSupervisor
unfolding from_exec_policy
from_profile p = from_exec_policy p.exec

unfoldable pub decide : ExecSupervisor → Option Text → Decision
unfolding contains
decide s none = deny
decide s (some digest) = if contains s.allow digest then allow else deny

-- SeccompNotif: the request of a frozen process.
pub record SeccompNotif : Type 0 where
  pub id : ℕ
  pub pid : ℕ
  pub nr : ℕ
  pub arg0 : ℕ
  pub arg1 : ℕ
  pub arg2 : ℕ

-- SeccompNotifResp; `error` is the error number that the source negates.
pub record SeccompNotifResp : Type 0 where
  pub id : ℕ
  pub error : ℕ
  pub flags : ℕ

pub record ExecEvent : Type 0 where
  pub pid : ℕ
  pub path : Text
  pub argv : List Text
  pub committed_argv : List Text
  pub digest : Option Text
  pub decision : Decision

-- What the kernel answers: the words of libc, the memory of a process (a read at an address of so
-- many bytes), the files by path (opening one, then reading it), whether a request is pending,
-- whether a response was taken, and what the n-th read of a process's `cmdline` gives.
pub record Host : Type 0 where
  pub sys_execveat : ℕ
  pub eacces : ℕ
  pub path_max : ℕ
  pub open_mem : ℕ → Outcome Text (Unit {0})
  pub read_at : ℕ → ℕ → ℕ → Outcome Text Text
  pub open_file : Text → Outcome Text (Outcome Text Text)
  pub id_valid : ℕ → Bool
  pub send : SeccompNotifResp → Outcome Text (Unit {0})
  pub cmdline : ℕ → Outcome Text Text
  pub show_pid : ℕ → Text
  pub sha256 : Text → Text
  pub from_utf8_lossy : Text → Text

-- The bytes before the first NUL, or all: `buf[..position]`
unfoldable pub until_nul : Text → Text
until_nul [] = []
until_nul (b ∷ bs) = let rest = until_nul bs in if b == 0 then [] else b ∷ rest

-- u64::from_ne_bytes on the two little-endian targets
unfoldable pub from_ne_bytes : Text → ℕ
from_ne_bytes [] = 0
from_ne_bytes (b ∷ bs) = b + 256 * from_ne_bytes bs

abbrev pub max_argv : ℕ
max_argv = 16

abbrev pub arg_max_len : ℕ
arg_max_len = 4_096

abbrev pub ptr_size : ℕ
ptr_size = 8

abbrev pub committed_poll_tries : ℕ
committed_poll_tries = 64

abbrev pub is_nil : Text → Bool
is_nil [] = true
is_nil (b ∷ bs) = false

-- parts.pop(), if the last part is empty
unfoldable pub drop_last_empty : List Text → List Text
drop_last_empty [] = []
drop_last_empty (p ∷ []) = if is_nil p then [] else p ∷ []
drop_last_empty (p ∷ q ∷ ps) = p ∷ drop_last_empty (q ∷ ps)

-- Equality of two argument vectors.
unfoldable pub same_argv : List Text → List Text → Bool
unfolding text_eq
same_argv [] [] = true
same_argv (a ∷ xs) (b ∷ ys) = text_eq a b && same_argv xs ys
same_argv _ _ = false

abbrev pub is_empty_argv : List Text → Bool
is_empty_argv [] = true
is_empty_argv (a ∷ xs) = false

-- io::Result to Option
abbrev pub to_option {ℓ κ} : {E : Type ℓ} {A : Type κ} → Outcome E A → Option A
to_option (ok a) = some a
to_option (err e) = none

-- The answer of `serve_one`: the request was gone, sending failed, or a response was sent and an
-- event reported.
pub data Served : Type 0 where
  expired : Served
  failed : Text → Served
  reported : SeccompNotifResp → ExecEvent → Served

module _ (h : Host) where
  open h use {
    sys_execveat, eacces, path_max, open_mem, read_at, open_file, id_valid, send, cmdline, show_pid,
    sha256, from_utf8_lossy,
  }

  unfoldable pub read_path : ℕ → ℕ → Outcome Text Text
  unfolding until_nul
  read_path pid addr = do
    _ ← open_mem pid
    bytes ← read_at pid addr path_max
    ok (from_utf8_lossy (until_nul bytes))

  -- The rest of the loop of `read_argv` once the pointer was read.
  abbrev pub whole_pointer : Outcome Text Text → Option Text
  whole_pointer (err e) = none
  whole_pointer (ok bytes) = if length bytes == ptr_size then some bytes else none

  abbrev pub push_arg : Outcome Text Text → List Text → List Text
  unfolding until_nul
  push_arg (err e) rest = []
  push_arg (ok bytes) rest = from_utf8_lossy (until_nul bytes) ∷ rest

  -- One round of `read_argv`, by the pointer read, with what the later rounds give.
  unfoldable pub take_slot : ℕ → Option Text → List Text → List Text
  unfolding push_arg from_ne_bytes
  take_slot pid none rest = []
  take_slot pid (some bytes) rest =
      if from_ne_bytes bytes == 0
      then []
      else push_arg (read_at pid (from_ne_bytes bytes) arg_max_len) rest

  -- The loop of `read_argv`, from the index `i`, with the number of rounds left.
  unfoldable pub read_slots : ℕ → ℕ → ℕ → ℕ → List Text
  unfolding take_slot
  read_slots zero i pid argv_addr = []
  read_slots (suc n) i pid argv_addr =
      take_slot pid (whole_pointer (read_at pid ((argv_addr + i * ptr_size) % 2 ^ 64) ptr_size))
        (read_slots n (i + 1) pid argv_addr)

  unfoldable pub read_argv : ℕ → ℕ → List Text
  unfolding read_slots
  read_argv pid argv_addr =
      if argv_addr == 0
      then []
      else elim (open_mem pid) [ err e ↦ [] | ok u ↦ read_slots max_argv 0 pid argv_addr ]

  -- read_cmdline, of the n-th read
  unfoldable pub parse_cmdline : Outcome Text Text → List Text
  unfolding split drop_last_empty
  parse_cmdline (err e) = []
  parse_cmdline (ok raw) = drop_last_empty (map from_utf8_lossy (split 0 raw))

  -- The loop of `read_committed_argv`, from the n-th read.
  unfoldable pub poll_cmdline : ℕ → ℕ → List Text → List Text
  unfolding parse_cmdline same_argv
  poll_cmdline zero n pre = []
  poll_cmdline (suc tries) n pre =
      let rest = poll_cmdline tries (n + 1) pre in
      let cur = parse_cmdline (cmdline n) in
      if not (is_empty_argv cur) && not (same_argv cur pre) then cur else rest

  unfoldable pub read_committed_argv : ℕ → List Text → List Text
  unfolding poll_cmdline
  read_committed_argv n pre = poll_cmdline committed_poll_tries n pre

  -- hash_reader and hash_file
  unfoldable pub hash_reader : Outcome Text Text → Outcome Text Text
  unfolding hex_encode
  hash_reader contents = do bytes ← contents; ok (hex_encode (sha256 bytes))

  unfoldable pub hash_file : Text → Outcome Text Text
  unfolding hash_reader
  hash_file path = do contents ← open_file path; hash_reader contents

  -- File::open(candidate).or_else(File::open(path))
  abbrev pub or_else {ℓ} : {A : Type ℓ} → Outcome Text A → Outcome Text A → Outcome Text A
  or_else (ok a) other = ok a
  or_else (err e) other = other

  unfoldable pub candidate : ℕ → Text → Text
  unfolding starts_with
  candidate pid path =
      if starts_with (codes "/") path
      then codes "/proc/" ++ show_pid pid ++ codes "/root" ++ path
      else codes "/proc/" ++ show_pid pid ++ codes "/cwd/" ++ path

  unfoldable pub hash_target : ℕ → Text → Outcome Text Text
  unfolding candidate hash_reader
  hash_target pid path = do
    contents ← or_else (open_file (candidate pid path)) (open_file path)
    hash_reader contents

  -- path=args[0], argv=args[1] of execve; path=args[1], argv=args[2] of execveat
  unfoldable pub addresses : SeccompNotif → ℕ × ℕ
  addresses req = if req.nr == sys_execveat then (req.arg1, req.arg2) else (req.arg0, req.arg1)

  abbrev pub or_unreadable : Outcome Text Text → Text
  or_unreadable (ok path) = path
  or_unreadable (err e) = codes "<unreadable: " ++ e ++ codes ">"

  unfoldable pub target_of : SeccompNotif → Text
  unfolding read_path addresses
  target_of req = or_unreadable (read_path req.pid ((addresses req).0))

  unfoldable pub response : ℕ → Decision → SeccompNotifResp
  response id allow = record { id = id; error = 0; flags = 1 }
  response id deny = record { id = id; error = eacces; flags = 0 }

  abbrev pub is_allow : Decision → Bool
  is_allow allow = true
  is_allow deny = false

  -- The event of an answer. The command line from before the program runs is read first, and the
  -- one after it last, if they are wanted.
  unfoldable pub event_of : ExecSupervisor → SeccompNotif → Option Text → Decision → ExecEvent
  unfolding read_argv read_committed_argv parse_cmdline target_of addresses
  event_of s req digest decision =
      let want_committed = s.capture_committed && is_allow decision in
      let pre = if want_committed then parse_cmdline (cmdline 0) else [] in
      record {
        pid = req.pid;
        path = target_of req;
        argv = read_argv req.pid ((addresses req).1);
        committed_argv = if want_committed then read_committed_argv 1 pre else [];
        digest = digest;
        decision = decision;
      }

  abbrev pub answer_of : Outcome Text (Unit {0}) → SeccompNotifResp → ExecEvent → Served
  answer_of (err e) resp event = failed e
  answer_of (ok u) resp event = reported resp event

  -- The end of `serve_one`: respond, then report.
  unfoldable pub respond : ExecSupervisor → SeccompNotif → Option Text → Decision → Served
  unfolding response event_of
  respond s req digest decision =
      answer_of (send (response req.id decision)) (response req.id decision)
        (event_of s req digest decision)

  -- serve_one, on the request received; a failure to receive is left out.
  unfoldable pub serve_one : ExecSupervisor → SeccompNotif → Served
  unfolding hash_target target_of decide respond
  serve_one s req =
      let digest = to_option (hash_target req.pid (target_of req)) in
      if id_valid req.id then respond s req digest (decide s digest) else expired
