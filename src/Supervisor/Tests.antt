-- ===== src/Supervisor/Tests.antt =====
-- One exec through the wall, a filter run by a small machine, and the theorems at them.
use quantmlayer.Prelude.{
  ℕ, zero, suc, ◌≡◌, refl, ◌⊎◌, ◌↔◌, true, Option, none, some, List, [], ◌∷◌, ◌++◌, ◌==◌, drop,
  if◌then◌else◌, ok, err,
}
use quantmlayer.Text.{codes, text_eq}
use quantmlayer.Digest.{sha256}
use quantmlayer.Profile
use quantmlayer.Profile.{Profile}
use quantmlayer.Profile.Matching.{admits_exec}
use quantmlayer.Supervisor.{
  allow, ExecSupervisor, new, with_committed_argv, from_profile, decide, SeccompNotif,
  SeccompNotifResp, ExecEvent, Host, reported, serve_one, parse_cmdline, read_committed_argv,
}
use quantmlayer.Supervisor.Filter.{
  SockFilter, build_filter, Target, Bpf, BpfLaws, filter_verdict, build_filter_answers,
}
use quantmlayer.Supervisor.Decisions.{
  as_verdict, decide-eq-admits_exec, IsApproved, IsAnswer, serve_one_continues,
}
use quantmlayer.Supervisor.Captures.{
  IsNone, IsFirst, read_committed_argv_polls, cmdline_of, parse_cmdline-cmdline_of,
}

-- A machine with the three instructions.
machine : ℕ → List SockFilter → (ℕ → ℕ) → ℕ → Option ℕ
machine skip [] word acc = none
machine (suc skip) (i ∷ rest) word acc = machine skip rest word acc
machine zero (i ∷ rest) word acc =
    if i.code == 0x20
    then machine 0 rest word (word i.k)
    else if i.code == 0x15
    then machine (if acc == i.k then i.jt else i.jf) rest word acc
    else if i.code == 0x06
    then some i.k
    else none

machine-drop :
    (n : ℕ) (rest : List SockFilter) (word : ℕ → ℕ) (acc : ℕ)
    → machine n rest word acc ≡ machine 0 (drop n rest) word acc
unfolding machine
machine-drop zero rest word acc = refl
machine-drop (suc n) [] word acc = refl
machine-drop (suc n) (i ∷ rest) word acc = machine-drop n rest word acc

abbrev bpf : Bpf
unfolding machine
bpf = record { run = machine 0 }

bpf_laws : BpfLaws bpf
unfolding machine bpf
bpf_laws = record {
  load = λ k rest word acc. refl;
  jump = λ k jt jf rest word acc. machine-drop (if acc == k then jt else jf) rest word acc;
  answer = λ k rest word acc. refl;
}

abbrev x86_64 : Target
x86_64 = record { audit_arch = 0xc000_003e; sys_execve = 59; sys_execveat = 322 }

build_filter_answers_example :
    bpf.run (build_filter x86_64) (λ off. if off == 4 then 0xc000_003e else 59) 0
    ≡ some (filter_verdict x86_64 0xc000_003e 59)
build_filter_answers_example =
    build_filter_answers bpf bpf_laws x86_64 (λ off. if off == 4 then 0xc000_003e else 59) 0

abbrev enforced : Profile
enforced = record Profile.default {
  exec = record {
    enforce = true;
    allow_digests = record { algo = sha256; hex = codes "07" } ∷ [];
    argv_deny = [];
  };
}

decide-eq-admits_exec_example :
    as_verdict (decide (from_profile enforced) (some (codes "07")))
    ≡ admits_exec enforced (some (codes "07"))
decide-eq-admits_exec_example = decide-eq-admits_exec enforced (some (codes "07")) refl

-- The process asks for `/bin/a`, whose bytes hash to 07.
abbrev host : Host
host = record {
  sys_execveat = 322;
  eacces = 13;
  path_max = 4_096;
  open_mem = λ pid. ok tt;
  read_at = λ pid addr n.
      if addr == 100
      then ok (codes "/bin/a" ++ 0 ∷ 9 ∷ [])
      else if addr == 200
      then ok (100 ∷ 0 ∷ 0 ∷ 0 ∷ 0 ∷ 0 ∷ 0 ∷ 0 ∷ [])
      else if addr == 208
      then ok (0 ∷ 0 ∷ 0 ∷ 0 ∷ 0 ∷ 0 ∷ 0 ∷ 0 ∷ [])
      else err (codes "fault");
  open_file = λ path.
      if text_eq path (codes "/proc/1/root/bin/a")
      then ok (ok (codes "elf"))
      else err (codes "absent");
  id_valid = λ id. true;
  send = λ resp. ok tt;
  cmdline = λ n.
      if n == 2 then ok (cmdline_of (codes "a" ∷ [] ∷ [])) else ok (cmdline_of (codes "sh" ∷ []));
  show_pid = λ pid. codes "1";
  sha256 = λ m. 7 ∷ [];
  from_utf8_lossy = λ t. t;
}

abbrev request : SeccompNotif
request = record { id = 5; pid = 1; nr = 59; arg0 = 100; arg1 = 200; arg2 = 0 }

abbrev wall : ExecSupervisor
unfolding new with_committed_argv
wall = with_committed_argv true (new (codes "07" ∷ []))

abbrev seen : ExecEvent
seen = record {
  pid = 1;
  path = codes "/bin/a";
  argv = codes "/bin/a" ∷ [];
  committed_argv = codes "a" ∷ [] ∷ [];
  digest = some (codes "07");
  decision = allow;
}

abbrev answer : SeccompNotifResp
answer = record { id = 5; error = 0; flags = 1 }

serve_runs : serve_one host wall request ≡ reported answer seen
unfolding serve_one wall
serve_runs = refl

serve_one_continues_example :
    ((answer.flags ≡ 1) ↔ IsApproved host wall request) × IsAnswer host wall request answer seen
serve_one_continues_example = serve_one_continues host wall request answer seen serve_runs

read_committed_argv_polls_example :
    IsNone host 1 65 (codes "sh" ∷ []) (read_committed_argv host 1 (codes "sh" ∷ []))
    ⊎ IsFirst host 1 65 (codes "sh" ∷ []) (read_committed_argv host 1 (codes "sh" ∷ []))
read_committed_argv_polls_example = read_committed_argv_polls host 1 (codes "sh" ∷ [])

parse_cmdline-cmdline_of_example :
    parse_cmdline host (ok (cmdline_of (codes "ls" ∷ [] ∷ codes "-l" ∷ [])))
    ≡ codes "ls" ∷ [] ∷ codes "-l" ∷ []
parse_cmdline-cmdline_of_example =
    parse_cmdline-cmdline_of host (codes "ls" ∷ [] ∷ codes "-l" ∷ []) refl refl
      (refl, (refl, (refl, tt)))
