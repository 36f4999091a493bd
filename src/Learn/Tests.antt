-- ===== src/Learn/Tests.antt =====
-- A learning run that wrote a file, read two and ran one program, and the theorems at it.
use quantmlayer.Prelude.{
  ℕ, ◌≡◌, refl, inl, if◌then◌else◌, true, false, none, some, List, [], ◌∷◌, ◌++◌, Outcome, ok, err,
}
use quantmlayer.Text.{Text, codes, contains}
use quantmlayer.Digest.{sha256, ExecDigest}
use quantmlayer.Profile.Matching.{allow, admits_exec}
use quantmlayer.Learn.{
  PathBuf, Observation, ExecEvent, record_open, record_exec, mark_last_exec_failed, executed_paths,
}
use quantmlayer.Learn.Synthesis.{synthesize}
use quantmlayer.Learn.Opens.{IsDisjoint, Opened, record_open-Opened}
use quantmlayer.Learn.Hashing.{learn}
use quantmlayer.Learn.Chains.{IsDigestOf, learn_without_interpreters, learn_pins}

-- The numbers of the system calls: only that of `bpf` matters here.
abbrev number : Text → ℕ
unfolding contains
number name = if contains (codes "bpf" ∷ []) name then 321 else 0

abbrev nothing : Observation
nothing = record {
  reads = [];
  writes = [];
  execs = [];
  exec_events = [];
  exec_digests = [];
  connects = [];
  syscalls = (321, codes "bpf") ∷ [];
  process_count = 1;
  next_seq = 0;
}

abbrev main_rs : PathBuf
main_rs = [] ∷ codes "repo" ∷ codes "src" ∷ codes "main.rs" ∷ []

abbrev digest : ExecDigest
digest = record { algo = sha256; hex = codes "07" }

abbrev opened : Observation
unfolding record_open
opened = record_open main_rs true (
    record_open ([] ∷ codes "usr" ∷ codes "lib" ∷ codes "x" ∷ codes "y.so" ∷ []) false
      (record_open main_rs false nothing))

-- A search that failed, and the program that ran.
abbrev run : Observation
unfolding record_exec mark_last_exec_failed opened
run =
    record (record_exec (codes "/bin/a") 7 none 2
      (mark_last_exec_failed 7 (record_exec (codes "/sbin/a") 7 none 1 opened))) {
        exec_digests = (codes "/bin/a", digest) ∷ [];
      }

executed_runs : executed_paths run ≡ codes "/bin/a" ∷ []
unfolding executed_paths run
executed_runs = refl

synth_runs :
    ((synthesize number run).profile.filesystem.readwrite ≡ codes "/repo/src/**" ∷ [])
    × ((synthesize number run).profile.filesystem.readonly ≡ codes "/usr/lib/**" ∷ [])
    × ((synthesize number run).profile.exec.enforce ≡ true)
    × ((synthesize number run).notes ≡ [])
unfolding synthesize run
synth_runs = (refl, refl, refl, refl)

nothing-IsDisjoint : IsDisjoint nothing
nothing-IsDisjoint p m r = m

record_open-Opened_example : Opened main_rs true nothing (record_open main_rs true nothing) main_rs
record_open-Opened_example = record_open-Opened main_rs true nothing nothing-IsDisjoint main_rs

abbrev word : Text
word = 1 ∷ 2 ∷ 3 ∷ 4 ∷ 5 ∷ 6 ∷ 7 ∷ 8 ∷ []

-- Every digest is the same one, and every file but `/sbin/a` can be read.
abbrev hash_of : Text → Text
hash_of bytes = word ++ word ++ word ++ word

abbrev read : Text → Outcome Text Text
unfolding contains
read path = if contains (codes "/sbin/a" ∷ []) path then err (codes "no such file") else ok path

abbrev interpreters : List Text → List Text
interpreters execs = codes "/bin/sh" ∷ []

abbrev failed_search : ExecEvent
failed_search = record {
  pid = 7;
  ppid = none;
  path = codes "/sbin/a";
  ts_millis = 1;
  seq = 0;
  failed = true;
}

abbrev ran : ExecEvent
ran = record { pid = 7; ppid = none; path = codes "/bin/a"; ts_millis = 2; seq = 1; failed = false }

learn_without_interpreters_example :
    (learn hash_of read number interpreters run).profile
    ≡ (learn hash_of read number (λ execs. []) run).profile
unfolding run record_exec mark_last_exec_failed
learn_without_interpreters_example =
    learn_without_interpreters hash_of read number interpreters run failed_search (ran ∷ []) refl

learn_pins_example :
    (d : ExecDigest) × IsDigestOf hash_of read (codes "/bin/a") d
    × (admits_exec (learn hash_of read number interpreters run).profile (some d.hex) ≡ allow)
unfolding learn run read
learn_pins_example =
    learn_pins hash_of read number interpreters run (codes "/bin/a") refl (inl refl)
