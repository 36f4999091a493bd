-- ===== src/Supervisor/Filter.antt =====
-- The seccomp filter of crates/ql-enforce/src/exec_supervisor.rs. The machine that runs it is the
-- kernel's: the record `Bpf` holds its answer for a program, the words of the system call by their
-- offset, and the accumulator; `BpfLaws` is the documented meaning of the three instructions used.
use quantmlayer.Prelude.{
  ℕ, ◌+◌, ◌≡◌, ap, ◌∙◌, inl, inr, Bool, true, false, ◌||◌, Option, some, List, [], ◌∷◌, ◌==◌, drop,
  if◌then◌else◌, Bool-cases,
}

pub record SockFilter : Type 0 where
  pub code : ℕ
  pub jt : ℕ
  pub jf : ℕ
  pub k : ℕ

abbrev pub bpf_ld : ℕ
bpf_ld = 0x00

abbrev pub bpf_w : ℕ
bpf_w = 0x00

abbrev pub bpf_abs : ℕ
bpf_abs = 0x20

abbrev pub bpf_jmp : ℕ
bpf_jmp = 0x05

abbrev pub bpf_jeq : ℕ
bpf_jeq = 0x10

abbrev pub bpf_k : ℕ
bpf_k = 0x00

abbrev pub bpf_ret : ℕ
bpf_ret = 0x06

abbrev pub seccomp_ret_allow : ℕ
seccomp_ret_allow = 0x7fff_0000

abbrev pub seccomp_ret_user_notif : ℕ
seccomp_ret_user_notif = 0x7fc0_0000

abbrev pub seccomp_ret_kill_process : ℕ
seccomp_ret_kill_process = 0x8000_0000

abbrev pub off_nr : ℕ
off_nr = 0

abbrev pub off_arch : ℕ
off_arch = 4

-- The codes' bits are apart, so that `|` is a sum.
unfoldable pub stmt : ℕ → ℕ → SockFilter
stmt code k = record { code = code; jt = 0; jf = 0; k = k }

unfoldable pub jeq : ℕ → ℕ → ℕ → SockFilter
jeq k jt jf = record { code = bpf_jmp + bpf_jeq + bpf_k; jt = jt; jf = jf; k = k }

-- The architecture's number, and those of the two system calls, which the target sets.
pub record Target : Type 0 where
  pub audit_arch : ℕ
  pub sys_execve : ℕ
  pub sys_execveat : ℕ

unfoldable pub build_filter : Target → List SockFilter
unfolding stmt jeq
build_filter t =
    stmt (bpf_ld + bpf_w + bpf_abs) off_arch
    ∷ jeq t.audit_arch 1 0
    ∷ stmt (bpf_ret + bpf_k) seccomp_ret_kill_process
    ∷ stmt (bpf_ld + bpf_w + bpf_abs) off_nr
    ∷ jeq t.sys_execve 2 0
    ∷ jeq t.sys_execveat 1 0
    ∷ stmt (bpf_ret + bpf_k) seccomp_ret_allow
    ∷ stmt (bpf_ret + bpf_k) seccomp_ret_user_notif
    ∷ []

pub record Bpf : Type 0 where
  pub run : List SockFilter → (ℕ → ℕ) → ℕ → Option ℕ

-- A load sets the accumulator, a jump skips instructions by whether the accumulator is the number,
-- and a return gives the number.
pub record BpfLaws (m : Bpf) : Type 0 where
  pub load :
      (k : ℕ) (rest : List SockFilter) (word : ℕ → ℕ) (acc : ℕ)
      → m.run (record { code = 0x20; jt = 0; jf = 0; k = k } ∷ rest) word acc
        ≡ m.run rest word (word k)
  pub jump :
      (k jt jf : ℕ) (rest : List SockFilter) (word : ℕ → ℕ) (acc : ℕ)
      → m.run (record { code = 0x15; jt = jt; jf = jf; k = k } ∷ rest) word acc
        ≡ m.run (drop (if acc == k then jt else jf) rest) word acc
  pub answer :
      (k : ℕ) (rest : List SockFilter) (word : ℕ → ℕ) (acc : ℕ)
      → m.run (record { code = 0x06; jt = 0; jf = 0; k = k } ∷ rest) word acc ≡ some k

-- What the filter is to say of a system call.
abbrev pub filter_verdict : Target → ℕ → ℕ → ℕ
filter_verdict t arch nr =
    if arch == t.audit_arch
    then if nr == t.sys_execve || nr == t.sys_execveat
      then seccomp_ret_user_notif
      else seccomp_ret_allow
    else seccomp_ret_kill_process

module _ (m : Bpf) (laws : BpfLaws m) (t : Target) where
  taken :
      (k jt jf : ℕ) (rest : List SockFilter) (word : ℕ → ℕ) (acc : ℕ)
      → (acc == k) ≡ true
      → m.run (record { code = 0x15; jt = jt; jf = jf; k = k } ∷ rest) word acc
        ≡ m.run (drop jt rest) word acc
  taken k jt jf rest word acc e =
      laws.jump k jt jf rest word acc
      ∙ ap (λ (b : Bool). m.run (drop (if b then jt else jf) rest) word acc) e

  passed :
      (k jt jf : ℕ) (rest : List SockFilter) (word : ℕ → ℕ) (acc : ℕ)
      → (acc == k) ≡ false
      → m.run (record { code = 0x15; jt = jt; jf = jf; k = k } ∷ rest) word acc
        ≡ m.run (drop jf rest) word acc
  passed k jt jf rest word acc e =
      laws.jump k jt jf rest word acc
      ∙ ap (λ (b : Bool). m.run (drop (if b then jt else jf) rest) word acc) e

  -- Whatever the words of the system call, the filter answers: it kills the process on another
  -- architecture, hands the two exec calls to the supervisor, and lets every other call through.
  pub build_filter_answers :
      (word : ℕ → ℕ) (acc : ℕ)
      → m.run (build_filter t) word acc ≡ some (filter_verdict t (word off_arch) (word off_nr))
  unfolding build_filter
  build_filter_answers word acc =
      laws.load off_arch _ word acc ∙ elim (Bool-cases (word off_arch == t.audit_arch)) [
        | inr other ↦
            rw other (passed t.audit_arch 1 0 _ word (word off_arch) other ∙ laws.answer _ _ word _)
        | inl same ↦ rw same (
            taken t.audit_arch 1 0 _ word (word off_arch) same
            ∙ (laws.load off_nr _ word (word off_arch) ∙ by_call (word off_nr)))
      ]
    where
      by_call :
          (nr : ℕ)
          → m.run
              (record { code = 0x15; jt = 2; jf = 0; k = t.sys_execve }
                ∷ record { code = 0x15; jt = 1; jf = 0; k = t.sys_execveat }
                ∷ record { code = 0x06; jt = 0; jf = 0; k = seccomp_ret_allow }
                ∷ record { code = 0x06; jt = 0; jf = 0; k = seccomp_ret_user_notif }
                ∷ [])
              word
              nr
            ≡ some (
                if nr == t.sys_execve || nr == t.sys_execveat
                then seccomp_ret_user_notif
                else seccomp_ret_allow)
      by_call nr = elim (Bool-cases (nr == t.sys_execve)) [
        | inl e ↦ rw e (taken t.sys_execve 2 0 _ word nr e ∙ laws.answer _ _ word nr)
        | inr e ↦ rw e (
            passed t.sys_execve 2 0 _ word nr e ∙ elim (Bool-cases (nr == t.sys_execveat)) [
              | inl f ↦ rw f (taken t.sys_execveat 1 0 _ word nr f ∙ laws.answer _ _ word nr)
              | inr f ↦ rw f (passed t.sys_execveat 1 0 _ word nr f ∙ laws.answer _ _ word nr)
            ])
      ]
