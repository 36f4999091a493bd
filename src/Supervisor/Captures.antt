-- ===== src/Supervisor/Captures.antt =====
-- What crates/ql-enforce/src/exec_supervisor.rs records of a program's arguments.
use quantmlayer.Prelude.{
  ==_iff, all, ℕ, zero, suc, ◌+◌, ◌*◌, ◌%◌, ◌^◌, ◌<◌, ◌≤◌, ◌≡◌, refl, sym, ap, ◌∙◌, subst, ◌⊎◌, inl,
  inr, Bool, true, false, not, ◌&&◌, Option, none, some, List, [], ◌∷◌, ◌++◌, ◌==◌, map, length,
  All, if◌then◌else◌, Bool-cases, &&-split, Outcome, ok, err, arith,
}
use quantmlayer.Text.{Text, split, push_front}
use quantmlayer.Supervisor.{
  Host, max_argv, ptr_size, arg_max_len, drop_last_empty, same_argv, is_empty_argv, from_ne_bytes,
  whole_pointer, push_arg, take_slot, read_slots, read_argv, parse_cmdline, poll_cmdline,
  read_committed_argv,
}

module _ (h : Host) where
  push_arg_bound :
      (read : Outcome Text Text) (rest : List Text) (n : ℕ)
      → length rest ≤ n
      → length (push_arg h read rest) ≤ suc n
  unfolding push_arg
  push_arg_bound (ok bytes) rest n e = omega arith
  push_arg_bound (err x) rest n e = omega arith

  take_slot_bound :
      (pid : ℕ) (found : Option Text) (rest : List Text) (n : ℕ)
      → length rest ≤ n
      → length (take_slot h pid found rest) ≤ suc n
  unfolding take_slot
  take_slot_bound pid none rest n e = omega arith
  take_slot_bound pid (some bytes) rest n e = elim (Bool-cases (from_ne_bytes bytes == 0)) [
    | inl z ↦ rw (z, length) (omega arith)
    | inr p ↦
        subst (λ xs. length xs ≤ suc n) (sym (other p))
          (push_arg_bound (h.read_at pid (from_ne_bytes bytes) arg_max_len) rest n e)
  ]
    where
      other :
          (from_ne_bytes bytes == 0) ≡ false
          → (if from_ne_bytes bytes == 0
              then []
              else push_arg h (h.read_at pid (from_ne_bytes bytes) arg_max_len) rest)
            ≡ push_arg h (h.read_at pid (from_ne_bytes bytes) arg_max_len) rest
      other p = rw p refl

  read_slots_bound : (n i pid addr : ℕ) → length (read_slots h n i pid addr) ≤ n
  unfolding read_slots
  read_slots_bound zero i pid addr = omega arith
  read_slots_bound (suc n) i pid addr =
      take_slot_bound pid
        (whole_pointer h (h.read_at pid ((addr + i * ptr_size) % 2 ^ 64) ptr_size))
        (read_slots h n (i + 1) pid addr) n (read_slots_bound n (i + 1) pid addr)

  -- Whatever the process's memory holds, at most 16 arguments are captured.
  pub read_argv_bounds : (pid addr : ℕ) → length (read_argv h pid addr) ≤ 16
  unfolding read_argv
  read_argv_bounds pid addr = elim (Bool-cases (addr == 0)) [
    | inl z ↦ rw z (omega arith)
    | inr p ↦ rw p (opened (h.open_mem pid))
  ]
    where
      opened :
          (o : Outcome Text (Unit {0}))
          → length (elim o [ err e ↦ [] | ok u ↦ read_slots h max_argv 0 pid addr ]) ≤ 16
      opened (err e) = omega arith
      opened (ok u) = read_slots_bound 16 0 pid addr

  -- A read of the command line that is no answer yet: empty, or as before the program ran.
  abbrev pub IsStale : List Text → List Text → Type 0
  IsStale pre cur = (cur ≡ []) ⊎ (same_argv cur pre ≡ true)

  abbrev is_fresh : List Text → List Text → Bool
  is_fresh pre cur = not (is_empty_argv cur) && not (same_argv cur pre)

  fresh : (pre cur : List Text) → is_fresh pre cur ≡ true → ¬ IsStale pre cur
  fresh pre [] t s = cc
  fresh pre (a ∷ rest) t (inl e) = cc
  fresh pre (a ∷ rest) t (inr e) = let bad : not true ≡ true = rw e at t in cc

  stale : (pre cur : List Text) → is_fresh pre cur ≡ false → IsStale pre cur
  stale pre [] t = inl refl
  stale pre (a ∷ rest) t = inr (is_false (same_argv (a ∷ rest) pre) t)
    where
      is_false : (b : Bool) → not b ≡ false → b ≡ true
      is_false true k = refl
      is_false false k = cc

  -- The n-th read.
  abbrev pub read : ℕ → List Text
  read n = parse_cmdline h (h.cmdline n)

  abbrev pub IsFirst : ℕ → ℕ → List Text → List Text → Type 0
  IsFirst n stop pre result =
      (i : ℕ) × (n ≤ i)
      × (i < stop)
      × (result ≡ read i)
      × (¬ IsStale pre (read i))
      × ((k : ℕ) → n ≤ k → k < i → IsStale pre (read k))

  abbrev pub IsNone : ℕ → ℕ → List Text → List Text → Type 0
  IsNone n stop pre result = (result ≡ []) × ((k : ℕ) → n ≤ k → k < stop → IsStale pre (read k))

  from_next : (n : ℕ) (P : ℕ → Type 0) → P n → ((k : ℕ) → n + 1 ≤ k → P k) → (k : ℕ) → n ≤ k → P k
  from_next n P here later k le = elim (Bool-cases (k == n)) [
    | inl e ↦ subst P (sym ((==_iff k n).0 e)) here
    | inr e ↦ later k (ground arith)
  ]

  poll_outcome :
      (tries n stop : ℕ) (pre : List Text)
      → n + tries ≡ stop
      → IsNone n stop pre (poll_cmdline h tries n pre)
        ⊎ IsFirst n stop pre (poll_cmdline h tries n pre)
  unfolding poll_cmdline
  poll_outcome zero n stop pre e = inl (refl, λ k le lt. absurd (omega arith))
  poll_outcome (suc tries) n stop pre e = elim (Bool-cases (is_fresh pre (read n))) [
    | inl f ↦ rw f (
        inr (
          n,
          omega arith,
          omega arith,
          refl,
          fresh pre (read n) f,
          λ k le lt. absurd (omega arith),
        ))
    | inr f ↦
        rw f (later (stale pre (read n) f) (poll_outcome tries (n + 1) stop pre (omega arith)))
  ]
    where
      later :
          IsStale pre (read n)
          → IsNone (n + 1) stop pre (poll_cmdline h tries (n + 1) pre)
            ⊎ IsFirst (n + 1) stop pre (poll_cmdline h tries (n + 1) pre)
          → IsNone n stop pre (poll_cmdline h tries (n + 1) pre)
            ⊎ IsFirst n stop pre (poll_cmdline h tries (n + 1) pre)
      later s (inl (e, f)) = inl (e, from_next n (λ k. k < stop → IsStale pre (read k)) (λ lt. s) f)
      later s (inr (i, le, lt, e, new, f)) = inr (
        i,
        omega arith,
        lt,
        e,
        new,
        from_next n (λ k. k < i → IsStale pre (read k)) (λ below. s) f,
      )

  -- After at most 64 reads the poll ends: with the first read that is not empty and not the command
  -- line from before the program ran, or with nothing if each of the 64 was.
  pub read_committed_argv_polls :
      (n : ℕ) (pre : List Text)
      → IsNone n (n + 64) pre (read_committed_argv h n pre)
        ⊎ IsFirst n (n + 64) pre (read_committed_argv h n pre)
  unfolding read_committed_argv
  read_committed_argv_polls n pre = poll_outcome 64 n (n + 64) pre refl

-- What the kernel shows of an argument vector: each argument, and a NUL.
abbrev pub cmdline_of : List Text → Text
cmdline_of [] = []
cmdline_of (a ∷ rest) = a ++ 0 ∷ cmdline_of rest

abbrev pub is_zero_free : Text → Bool
is_zero_free = all (λ b. not (b == 0))

not-true : (b : Bool) → not b ≡ true → b ≡ false
not-true true k = cc
not-true false k = refl

split-cmdline : (a r : Text) → is_zero_free a ≡ true → split 0 (a ++ 0 ∷ r) ≡ a ∷ split 0 r
unfolding split
split-cmdline [] r e = refl
split-cmdline (c ∷ cs) r e =
    let (head_free, tail_free) = &&-split (not (c == 0)) (is_zero_free cs) e in
    rw (not-true (c == 0) head_free) (ap (push_front c) (split-cmdline cs r tail_free))

split_args :
    (args : List Text) → all is_zero_free args ≡ true → split 0 (cmdline_of args) ≡ args ++ [] ∷ []
unfolding split
split_args [] e = refl
split_args (a ∷ rest) e =
    let (a_free, rest_free) = &&-split (is_zero_free a) (all is_zero_free rest) e in
    split-cmdline a (cmdline_of rest) a_free ∙ ap (λ ps. a ∷ ps) (split_args rest rest_free)

drop_last : (args : List Text) → drop_last_empty (args ++ [] ∷ []) ≡ args
unfolding drop_last_empty
drop_last [] = refl
drop_last (a ∷ []) = refl
drop_last (a ∷ b ∷ rest) = ap (λ ps. a ∷ ps) (drop_last (b ∷ rest))

kept :
    (f : Text → Text) (args : List Text)
    → f [] ≡ []
    → All (λ a. f a ≡ a) args
    → map f (args ++ [] ∷ []) ≡ args ++ [] ∷ []
kept f [] e fixed = rw e refl
kept f (a ∷ rest) e (same, fixed) = rw same (ap (λ ps. a ∷ ps) (kept f rest e fixed))

-- The arguments of a program are read back from what the kernel shows, empty ones included, where
-- none has a NUL and the decoding of UTF-8 leaves them as they are.
pub parse_cmdline-cmdline_of :
    (h : Host) (args : List Text)
    → all is_zero_free args ≡ true
    → h.from_utf8_lossy [] ≡ []
    → All (λ a. h.from_utf8_lossy a ≡ a) args
    → parse_cmdline h (ok (cmdline_of args)) ≡ args
unfolding parse_cmdline
parse_cmdline-cmdline_of h args free empty fixed =
    ap (λ ps. drop_last_empty (map h.from_utf8_lossy ps)) (split_args args free)
    ∙ (ap drop_last_empty (kept h.from_utf8_lossy args empty fixed) ∙ drop_last args)
