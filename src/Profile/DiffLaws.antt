-- ===== src/Profile/DiffLaws.antt =====
-- The diff is empty exactly when the two profiles grant the same sets.
use Prim.Native.String.{String}
use quantmlayer.Prelude.{
  ◌≡◌, refl, sym, ap, ◌∙◌, ◌↔◌, inl, inr, Bool, true, false, not, ◌&&◌, List, [], ◌∷◌, ◌++◌, map,
  In, retain, retain_intro, Bool-cases, &&-split,
}
use quantmlayer.Text.{Text, contains}
use quantmlayer.Text.Laws.{contains_In, In_contains}
use quantmlayer.Text.Order.{sort_dedup, In-sort_dedup, sort_dedup-In}
use quantmlayer.Profile.{Profile}
use quantmlayer.Profile.Diff.{
  GrantRef, PolicyDiff, no_grants, is_empty, difference, grant, diff_into, digest_lines, diff,
}

-- One set under two lists.
pub record SameSet (xs ys : List Text) : Type 0 where
  pub to : (v : Text) → In v xs → In v ys
  pub from : (v : Text) → In v ys → In v xs

abbrev no_values : List Text → Bool
no_values [] = true
no_values (v ∷ vs) = false

no_grants-append :
    (category : String) (gs : List GrantRef) (vs : List Text)
    → no_grants (gs ++ map (grant category) vs) ≡ (no_grants gs && no_values vs)
no_grants-append category [] [] = refl
no_grants-append category [] (v ∷ vs) = refl
no_grants-append category (g ∷ gs) vs = refl

-- A difference is empty exactly when every member is in the other list.
difference_none :
    (a p : List Text) → no_values (difference a p) ≡ true → (v : Text) → In v a → In v p
unfolding difference
difference_none a p h v m = elim (Bool-cases (contains p v)) [
  | inl e ↦ contains_In v p e
  | inr e ↦ absurd (
      none_in (retain (λ x. not (contains p x)) a) h
        (retain_intro (λ x. not (contains p x)) v a m (ap not e)))
]
  where
    none_in : (vs : List Text) → no_values vs ≡ true → In v vs → ⊥
    none_in [] q k = k
    none_in (x ∷ xs) q k = cc

none_difference :
    (a p : List Text) → ((v : Text) → In v a → In v p) → no_values (difference a p) ≡ true
unfolding difference
none_difference [] p f = refl
none_difference (x ∷ a) p f =
    rw (In_contains x p (f x (inl refl))) (none_difference a p (λ v m. f v (inr m)))

module _ (category : String) (p a : List Text) (d : PolicyDiff) where
  diff_into_split : is_empty (diff_into category p a d) ≡ true → (is_empty d ≡ true) × SameSet p a
  unfolding is_empty diff_into
  diff_into_split h =
      let sides =
        &&-split
          (no_grants (d.added ++ map (grant category) (difference (sort_dedup a) (sort_dedup p)))) _
          h in
      let (added, more) = &&-split (no_grants d.added) _ (
        sym (no_grants-append category d.added (difference (sort_dedup a) (sort_dedup p)))
        ∙ sides.0) in
      let (removed, less) = &&-split (no_grants d.removed) _ (
        sym (no_grants-append category d.removed (difference (sort_dedup p) (sort_dedup a)))
        ∙ sides.1) in
      (
        rw (added, removed) refl,
        record {
          to = λ v m.
              In-sort_dedup v a
                (difference_none (sort_dedup p) (sort_dedup a) less v (sort_dedup-In v p m));
          from = λ v m.
              In-sort_dedup v p
                (difference_none (sort_dedup a) (sort_dedup p) more v (sort_dedup-In v a m));
        },
      )

  diff_into_join : is_empty d ≡ true → SameSet p a → is_empty (diff_into category p a d) ≡ true
  unfolding is_empty diff_into
  diff_into_join h s =
      let (added, removed) = &&-split (no_grants d.added) _ h in
      let more : no_values (difference (sort_dedup a) (sort_dedup p)) ≡ true =
        none_difference (sort_dedup a) (sort_dedup p)
          λ v m. sort_dedup-In v p (s.from v (In-sort_dedup v a m)) in
      let less : no_values (difference (sort_dedup p) (sort_dedup a)) ≡ true =
        none_difference (sort_dedup p) (sort_dedup a)
          λ v m. sort_dedup-In v a (s.to v (In-sort_dedup v p m)) in
      rw (no_grants-append category d.added (difference (sort_dedup a) (sort_dedup p))) (
        rw (no_grants-append category d.removed (difference (sort_dedup p) (sort_dedup a)))
          (rw (added, removed, more, less) refl))

-- The seven categories of grants, as sets.
pub record SameGrants (p a : Profile) : Type 0 where
  pub reads : SameSet p.filesystem.readonly a.filesystem.readonly
  pub writes : SameSet p.filesystem.readwrite a.filesystem.readwrite
  pub denied : SameSet p.filesystem.denied a.filesystem.denied
  pub programs : SameSet p.processes.allow_exec a.processes.allow_exec
  pub syscalls : SameSet p.syscalls.deny a.syscalls.deny
  pub domains : SameSet p.network.allow_domains a.network.allow_domains
  pub digests : SameSet (digest_lines p) (digest_lines a)

-- The diff after each of the first six categories.
abbrev no_diff : PolicyDiff
no_diff = record { added = []; removed = [] }

abbrev after_reads : Profile → Profile → PolicyDiff
after_reads p a = diff_into "fs.read" p.filesystem.readonly a.filesystem.readonly no_diff

abbrev after_writes : Profile → Profile → PolicyDiff
after_writes p a =
    diff_into "fs.write" p.filesystem.readwrite a.filesystem.readwrite (after_reads p a)

abbrev after_denied : Profile → Profile → PolicyDiff
after_denied p a = diff_into "fs.deny" p.filesystem.denied a.filesystem.denied (after_writes p a)

abbrev after_programs : Profile → Profile → PolicyDiff
after_programs p a =
    diff_into "exec" p.processes.allow_exec a.processes.allow_exec (after_denied p a)

abbrev after_syscalls : Profile → Profile → PolicyDiff
after_syscalls p a = diff_into "syscall.deny" p.syscalls.deny a.syscalls.deny (after_programs p a)

abbrev after_domains : Profile → Profile → PolicyDiff
after_domains p a =
    diff_into "net.allow" p.network.allow_domains a.network.allow_domains (after_syscalls p a)

split_all : (p a : Profile) → is_empty (diff p a) ≡ true → SameGrants p a
unfolding diff
split_all p a h6 =
    let (h5, digests) =
      diff_into_split "exec.digest" (digest_lines p) (digest_lines a) (after_domains p a) h6 in
    let (h4, domains) =
      diff_into_split "net.allow" p.network.allow_domains a.network.allow_domains
        (after_syscalls p a) h5 in
    let (h3, syscalls) =
      diff_into_split "syscall.deny" p.syscalls.deny a.syscalls.deny (after_programs p a) h4 in
    let (h2, programs) =
      diff_into_split "exec" p.processes.allow_exec a.processes.allow_exec (after_denied p a) h3 in
    let (h1, denied) =
      diff_into_split "fs.deny" p.filesystem.denied a.filesystem.denied (after_writes p a) h2 in
    let (h0, writes) =
      diff_into_split "fs.write" p.filesystem.readwrite a.filesystem.readwrite (after_reads p a)
        h1 in
    let (_, reads) =
      diff_into_split "fs.read" p.filesystem.readonly a.filesystem.readonly no_diff h0 in
    record {
      reads = reads;
      writes = writes;
      denied = denied;
      programs = programs;
      syscalls = syscalls;
      domains = domains;
      digests = digests;
    }

join_all : (p a : Profile) → SameGrants p a → is_empty (diff p a) ≡ true
unfolding diff
join_all p a s =
    let h0 : is_empty no_diff ≡ true = unfold is_empty in refl in
    let h1 : is_empty (after_reads p a) ≡ true =
      diff_into_join "fs.read" p.filesystem.readonly a.filesystem.readonly no_diff h0 s.reads in
    let h2 : is_empty (after_writes p a) ≡ true =
      diff_into_join "fs.write" p.filesystem.readwrite a.filesystem.readwrite (after_reads p a) h1
        s.writes in
    let h3 : is_empty (after_denied p a) ≡ true =
      diff_into_join "fs.deny" p.filesystem.denied a.filesystem.denied (after_writes p a) h2
        s.denied in
    let h4 : is_empty (after_programs p a) ≡ true =
      diff_into_join "exec" p.processes.allow_exec a.processes.allow_exec (after_denied p a) h3
        s.programs in
    let h5 : is_empty (after_syscalls p a) ≡ true =
      diff_into_join "syscall.deny" p.syscalls.deny a.syscalls.deny (after_programs p a) h4
        s.syscalls in
    let h6 : is_empty (after_domains p a) ≡ true =
      diff_into_join "net.allow" p.network.allow_domains a.network.allow_domains
        (after_syscalls p a) h5 s.domains in
    diff_into_join "exec.digest" (digest_lines p) (digest_lines a) (after_domains p a) h6 s.digests

-- The diff of two profiles is empty exactly when they have the same grants in each category,
-- order and repetition apart.
pub diff-is_empty_iff : (p a : Profile) → (is_empty (diff p a) ≡ true) ↔ SameGrants p a
diff-is_empty_iff p a = (split_all p a, join_all p a)
