-- ===== src/Compile/Selection.antt =====
-- What `compile` of crates/ql-compile/src/lib.rs takes from a directory tree.
use quantmlayer.Prelude.{
  ◌≡◌, refl, sym, ap, ◌∙◌, ◌⊎◌, inl, inr, Bool, true, false, some, List, [], ◌∷◌, ◌++◌, map, In,
  In-append, append-In, ok, >>=-eq-ok, ok-injective, subst,
}
use quantmlayer.Text.{Text}
use quantmlayer.Compile.{Ecosystem, RelPath, LockfileRef, ecosystem_for_filename, GitAnswer}
use quantmlayer.Compile.Walk.{Directory, hex, collect_lockfiles}
use quantmlayer.Compile.Envelope.{
  Envelope, file_name, is_at_root, chosen, sort_refs, resolve_vcs, assemble, compile_found, compile,
}
use quantmlayer.Compile.Sorting.{In-sort_refs, sort_refs-In}
use quantmlayer.Compile.Lockfiles.{Stands, ref_of, lockfiles_sound, lockfiles_complete}
use quantmlayer.Compile.Choice.{IsByRoot, chosen-IsByRoot, chosen_covers, chosen_within}

module _ (sha256 : Text → Text) (git : RelPath → GitAnswer) where
  -- A compiled envelope, from the lockfiles that the walk collected.
  pub compile-eq-ok :
      (root : Directory) (e : Envelope)
      → compile sha256 git root ≡ ok e
      → (all : List LockfileRef) × (collect_lockfiles sha256 [] 0 root ≡ ok all)
        × (e
            ≡ assemble sha256
                (map (resolve_vcs git) ((chosen (sort_refs all)).0))
                ((chosen (sort_refs all)).1))
  unfolding compile compile_found
  compile-eq-ok root e h =
      let (all, walked, found) = >>=-eq-ok (collect_lockfiles sha256 [] 0 root) _ h in
      (all, walked, made all found)
    where
      made :
          (all : List LockfileRef)
          → compile_found sha256 git all ≡ ok e
          → e
            ≡ assemble sha256
                (map (resolve_vcs git) ((chosen (sort_refs all)).0))
                ((chosen (sort_refs all)).1)
      made [] f = cc
      made (l ∷ ls) f = sym (ok-injective f)

  resolved :
      (l : LockfileRef) (ls : List LockfileRef)
      → In l (map (resolve_vcs git) ls)
      → (k : LockfileRef) × In k ls × (l ≡ resolve_vcs git k)
  resolved l (k ∷ ks) (inl e) = (k, inl refl, e)
  resolved l (k ∷ ks) (inr m) = let (j, n, e) = resolved l ks m in (j, inr n, e)
  resolved l [] m = absurd m

  resolve_In :
      (k : LockfileRef) (ls : List LockfileRef)
      → In k ls
      → In (resolve_vcs git k) (map (resolve_vcs git) ls)
  resolve_In k (j ∷ js) (inl e) = inl (ap (resolve_vcs git) e)
  resolve_In k (j ∷ js) (inr m) = inr (resolve_In k js m)
  resolve_In k [] m = absurd m

  -- The entry is that of a lockfile that stands under the root.
  abbrev pub IsFound : Directory → LockfileRef → Type 0
  IsFound root l =
      (bytes : Text) × Stands 0 root l.path bytes
      × (ecosystem_for_filename (file_name l.path) ≡ some l.ecosystem)
      × (l.sha256 ≡ hex (sha256 bytes))

  ref_of-IsFound :
      (root : Directory) (l : LockfileRef) (path : RelPath) (bytes : Text) (eco : Ecosystem)
      → l ≡ ref_of sha256 path eco bytes
      → ecosystem_for_filename (file_name path) ≡ some eco
      → Stands 0 root path bytes
      → IsFound root l
  unfolding ref_of
  ref_of-IsFound root l path bytes eco e named stands =
      subst (IsFound root) (sym e) (bytes, stands, named, refl)

  collected-IsFound :
      (root : Directory) (all : List LockfileRef)
      → collect_lockfiles sha256 [] 0 root ≡ ok all
      → (l : LockfileRef) → In l all
      → IsFound root l
  collected-IsFound root all walked l m =
      let (path, bytes, eco, e, named, stands) = lockfiles_sound sha256 [] 0 root all walked l m in
      ref_of-IsFound root l path bytes eco e named stands

  resolve-IsFound :
      (root : Directory) (k : LockfileRef) → IsFound root k → IsFound root (resolve_vcs git k)
  unfolding resolve_vcs
  resolve-IsFound root k f = f

  taken-IsFound :
      (root : Directory) (all : List LockfileRef) (l : LockfileRef)
      → ((k : LockfileRef) → In k all → IsFound root k)
      → In l (map (resolve_vcs git) ((chosen (sort_refs all)).0))
        ⊎ In l ((chosen (sort_refs all)).1)
      → IsFound root l
  taken-IsFound root all l found (inl m) =
      let (k, n, e) = resolved l ((chosen (sort_refs all)).0) m in
      let f = found k (In-sort_refs k all (chosen_within (sort_refs all) k (inl n))) in
      subst (IsFound root) (sym e) (resolve-IsFound root k f)
  taken-IsFound root all l found (inr m) =
      found l (In-sort_refs l all (chosen_within (sort_refs all) l (inr m)))

  all-IsFound :
      (root : Directory) (e : Envelope)
      → compile sha256 git root ≡ ok e
      → (l : LockfileRef) → In l (e.lockfiles ++ e.skipped)
      → IsFound root l
  unfolding assemble
  all-IsFound root e h l m =
      let (all, walked, made) = compile-eq-ok root e h in
      let n = subst (λ (x : Envelope). In l (x.lockfiles ++ x.skipped)) made m in
      taken-IsFound root all l (collected-IsFound root all walked) (In-append l _ _ n)

  -- An entry of the envelope for the file, with the digest of its bytes.
  abbrev pub IsPinned : Envelope → RelPath → Ecosystem → Text → Type 0
  IsPinned e path eco bytes =
      (l : LockfileRef) × In l (e.lockfiles ++ e.skipped)
      × (l.path ≡ path)
      × (l.ecosystem ≡ eco)
      × (l.sha256 ≡ hex (sha256 bytes))

  all-IsPinned :
      (root : Directory) (e : Envelope)
      → compile sha256 git root ≡ ok e
      → (path : RelPath) (bytes : Text) (eco : Ecosystem) → Stands 0 root path bytes
      → ecosystem_for_filename (file_name path) ≡ some eco
      → IsPinned e path eco bytes
  unfolding assemble resolve_vcs ref_of
  all-IsPinned root e h path bytes eco stands named =
      let (all, walked, made) = compile-eq-ok root e h in
      let k = ref_of sha256 path eco bytes in
      let m = lockfiles_complete sha256 [] 0 root all walked path bytes eco stands named in
      subst (λ x. IsPinned x path eco bytes) (sym made)
        (elim (chosen_covers (sort_refs all) k (sort_refs-In k all m)) [
          | inl n ↦ (resolve_vcs git k, append-In _ _ _ (inl (resolve_In k _ n)), refl, refl, refl)
          | inr n ↦ (k, append-In _ _ _ (inr n), refl, refl, refl)
        ])

  -- The state of a lockfile does not move it.
  moved : (k : LockfileRef) → is_at_root (resolve_vcs git k) ≡ is_at_root k
  unfolding resolve_vcs is_at_root
  moved k = refl

  -- A compiled envelope lists, as taken or as skipped, exactly the readable files with a lockfile's
  -- name that stand under the root within the depth bound and under no skipped directory: each entry
  -- has the path, the ecosystem and the digest of the bytes of such a file, and each such file has
  -- an entry.
  pub compile-Stands :
      (root : Directory) (e : Envelope)
      → compile sha256 git root ≡ ok e
      → ((l : LockfileRef) → In l (e.lockfiles ++ e.skipped) → IsFound root l)
        × ((path : RelPath) (bytes : Text) (eco : Ecosystem)
            → Stands 0 root path bytes
            → ecosystem_for_filename (file_name path) ≡ some eco
            → IsPinned e path eco bytes)
  compile-Stands root e h = (all-IsFound root e h, all-IsPinned root e h)

  -- In a compiled envelope either every lockfile taken is at the root and every one skipped is
  -- below it, or no lockfile taken is at the root and none was skipped.
  pub compile-IsByRoot :
      (root : Directory) (e : Envelope)
      → compile sha256 git root ≡ ok e
      → IsByRoot e.lockfiles e.skipped
  unfolding assemble
  compile-IsByRoot root e h =
      let (all, walked, made) = compile-eq-ok root e h in
      subst (λ (x : Envelope). IsByRoot x.lockfiles x.skipped) (sym made)
        (resolved-IsByRoot ((chosen (sort_refs all)).0) ((chosen (sort_refs all)).1)
          (chosen-IsByRoot (sort_refs all)))
    where
      kept :
          (b : Bool) (taken : List LockfileRef)
          → ((l : LockfileRef) → In l taken → is_at_root l ≡ b)
          → (l : LockfileRef) → In l (map (resolve_vcs git) taken)
          → is_at_root l ≡ b
      kept b taken f l m =
          let (k, n, same) = resolved l taken m in ap is_at_root same ∙ (moved k ∙ f k n)

      resolved-IsByRoot :
          (taken skipped : List LockfileRef)
          → IsByRoot taken skipped
          → IsByRoot (map (resolve_vcs git) taken) skipped
      resolved-IsByRoot taken skipped (inl (f, g)) = inl (kept true taken f, g)
      resolved-IsByRoot taken skipped (inr (f, g)) = inr (kept false taken f, g)
