-- ===== src/Compile/Lockfiles.antt =====
-- Which files the walk of crates/ql-compile/src/lib.rs collects.
use mathlib.Core.List.{append_assoc}
use quantmlayer.Prelude.{
  ◌∙◌, subst, ltb-false, if◌then◌else◌, ℕ, ◌+◌, ◌≤◌, ◌≡◌, refl, sym, ap, ◌⊎◌, inl, inr, false,
  Option, none, some, List, [], ◌∷◌, ◌++◌, ltb, In, In-append, append-In, Bool-cases, Outcome, ok,
  err, >>=-eq-ok, ok-injective, arith,
}
use quantmlayer.Text.{Text}
use quantmlayer.Profile.{unknown}
use quantmlayer.Compile.{Ecosystem, RelPath, LockfileRef, CompileError, ecosystem_for_filename}
use quantmlayer.Compile.Walk.{
  Directory, sealed, readable, Listing, done, file, folder, max_depth, is_skipped, hex,
  collect_file, collect_lockfiles, collect_entries,
}
use quantmlayer.Compile.Envelope.{file_name}

-- A readable file stands at the path below a directory at that depth, within the bound on the
-- depth and through no skipped directory.
unfoldable mutual
  unfolding is_skipped

  pub Stands : ℕ → Directory → RelPath → Text → Type 0
  Stands depth sealed path bytes = ⊥
  Stands depth (readable entries) path bytes = (depth ≤ max_depth) × Among depth entries path bytes

  pub Among : ℕ → Listing → RelPath → Text → Type 0
  Among depth done path bytes = ⊥
  Among depth (file name contents rest) path bytes =
      ((path ≡ name ∷ []) × (contents ≡ ok bytes)) ⊎ Among depth rest path bytes
  Among depth (folder name sub rest) path bytes =
      ((more : RelPath) × (path ≡ name ∷ more)
        × (is_skipped name ≡ false)
        × Stands (depth + 1) sub more bytes)
      ⊎ Among depth rest path bytes

module _ (sha256 : Text → Text) where
  -- The entry that is collected for a file.
  unfoldable pub ref_of : RelPath → Ecosystem → Text → LockfileRef
  unfolding hex
  ref_of path eco bytes = record {
    path = path;
    ecosystem = eco;
    sha256 = hex (sha256 bytes);
    vcs = unknown;
  }

  -- The entry is that of a file of a lockfile's name below `dir`, which the predicate admits.
  abbrev pub Recorded : RelPath → (RelPath → Text → Type 0) → LockfileRef → Type 0
  Recorded dir P l =
      (path : RelPath) × (bytes : Text) × (eco : Ecosystem) × (l ≡ ref_of (dir ++ path) eco bytes)
      × (ecosystem_for_filename (file_name path) ≡ some eco)
      × P path bytes

  collect_file_sound :
      (path : RelPath) (contents : Outcome Text Text) (found : Option Ecosystem)
      (out : List LockfileRef)
      → collect_file sha256 path contents found ≡ ok out
      → (l : LockfileRef) → In l out
      → (bytes : Text) × (eco : Ecosystem) × (l ≡ ref_of path eco bytes)
        × (found ≡ some eco)
        × (contents ≡ ok bytes)
  unfolding collect_file ref_of
  collect_file_sound path contents none out h l m =
      let e : [] ≡ out = ok-injective h in absurd (rw (← e) at m)
  collect_file_sound path (ok bytes) (some eco) out h l m =
      let e : ref_of path eco bytes ∷ [] ≡ out = ok-injective h in
      let n : In l (ref_of path eco bytes ∷ []) = rw (← e) at m in
      elim n [ inl same ↦ (bytes, eco, same, refl, refl) | inr empty ↦ absurd empty ]
  collect_file_sound path (err e) (some eco) out h l m = cc

  -- A path below a directory has a component.
  mutual
    unfolding Stands

    Stands-cons :
        (depth : ℕ) (d : Directory) (path : RelPath) (bytes : Text)
        → Stands depth d path bytes
        → (name : Text) × (more : RelPath) × (path ≡ name ∷ more)
    Stands-cons depth (readable entries) path bytes (_, among) =
        Among-cons depth entries path bytes among
    Stands-cons depth sealed path bytes empty = absurd empty

    Among-cons :
        (depth : ℕ) (es : Listing) (path : RelPath) (bytes : Text)
        → Among depth es path bytes
        → (name : Text) × (more : RelPath) × (path ≡ name ∷ more)
    Among-cons depth (file name contents rest) path bytes (inl (e, _)) = (name, [], e)
    Among-cons depth (file name contents rest) path bytes (inr among) =
        Among-cons depth rest path bytes among
    Among-cons depth (folder name sub rest) path bytes (inl (more, e, _, _)) = (name, more, e)
    Among-cons depth (folder name sub rest) path bytes (inr among) =
        Among-cons depth rest path bytes among
    Among-cons depth done path bytes empty = absurd empty

  -- The file name of a path below a folder.
  file_name-cons :
      (depth : ℕ) (d : Directory) (name : Text) (path : RelPath) (bytes : Text)
      → Stands depth d path bytes
      → file_name (name ∷ path) ≡ file_name path
  unfolding file_name
  file_name-cons depth d name path bytes s =
      let (first, more, e) = Stands-cons depth d path bytes s in rw e refl

  Recorded-map :
      (dir : RelPath) (P Q : RelPath → Text → Type 0) (l : LockfileRef)
      → ((path : RelPath) (bytes : Text) → P path bytes → Q path bytes)
      → Recorded dir P l
      → Recorded dir Q l
  Recorded-map dir P Q l f (path, bytes, eco, same, named, p) =
      (path, bytes, eco, same, named, f path bytes p)

  Recorded-file :
      (dir : RelPath) (depth : ℕ) (name : Text) (contents : Outcome Text Text) (rest : Listing)
      (here : List LockfileRef)
      → collect_file sha256 (dir ++ name ∷ []) contents (ecosystem_for_filename name) ≡ ok here
      → (l : LockfileRef) → In l here
      → Recorded dir (Among depth (file name contents rest)) l
  unfolding Stands file_name
  Recorded-file dir depth name contents rest here h l m =
      let (bytes, eco, same, named, read) =
        collect_file_sound (dir ++ name ∷ []) contents (ecosystem_for_filename name) here h l m in
      (name ∷ [], bytes, eco, same, named, inl (refl, read))

  Recorded-folder :
      (dir : RelPath) (depth : ℕ) (name : Text) (sub : Directory) (rest : Listing) (l : LockfileRef)
      → is_skipped name ≡ false
      → Recorded (dir ++ name ∷ []) (Stands (depth + 1) sub) l
      → Recorded dir (Among depth (folder name sub rest)) l
  unfolding Stands
  Recorded-folder dir depth name sub rest l open_dir (path, bytes, eco, same, named, below) = (
    name ∷ path,
    bytes,
    eco,
    same ∙ rw (append_assoc dir (name ∷ []) path) refl,
    ap ecosystem_for_filename (file_name-cons (depth + 1) sub name path bytes below) ∙ named,
    inl (path, refl, open_dir, below),
  )

  -- A skipped folder gives nothing.
  folder_sound :
      (dir : RelPath) (depth : ℕ) (name : Text) (sub : Directory) (rest : Listing)
      (here : List LockfileRef) (walk : Outcome CompileError (List LockfileRef))
      → (if is_skipped name then ok [] else walk) ≡ ok here
      → ((out : List LockfileRef)
          → walk ≡ ok out
          → (l : LockfileRef) → In l out
          → Recorded (dir ++ name ∷ []) (Stands (depth + 1) sub) l)
      → (l : LockfileRef) → In l here
      → Recorded dir (Among depth (folder name sub rest)) l
  folder_sound dir depth name sub rest here walk h below l m = elim (Bool-cases (is_skipped name)) [
    | inl e ↦ let none_here : [] ≡ here = ok-injective (rw e at h) in absurd (rw (← none_here) at m)
    | inr e ↦ Recorded-folder dir depth name sub rest l e (below here (rw e at h) l m)
  ]

  -- Every entry that the walk returns is that of such a file.
  mutual
    unfolding collect_lockfiles Stands

    pub lockfiles_sound :
        (dir : RelPath) (depth : ℕ) (d : Directory) (out : List LockfileRef)
        → collect_lockfiles sha256 dir depth d ≡ ok out
        → (l : LockfileRef) → In l out
        → Recorded dir (Stands depth d) l
    lockfiles_sound dir depth sealed out h l m =
        let e : [] ≡ out = ok-injective h in absurd (rw (← e) at m)
    lockfiles_sound dir depth (readable entries) out h l m =
        elim (Bool-cases (ltb max_depth depth)) [
          | inl e ↦ let gone : [] ≡ out = ok-injective (rw e at h) in absurd (rw (← gone) at m)
          | inr e ↦
              Recorded-map dir (Among depth entries) (Stands depth (readable entries)) l
                (λ path bytes among. (ground arith, among))
                (entries_sound dir depth entries out (rw e at h) l m)
        ]

    entries_sound :
        (dir : RelPath) (depth : ℕ) (es : Listing) (out : List LockfileRef)
        → collect_entries sha256 dir depth es ≡ ok out
        → (l : LockfileRef) → In l out
        → Recorded dir (Among depth es) l
    entries_sound dir depth done out h l m =
        let e : [] ≡ out = ok-injective h in absurd (rw (← e) at m)
    entries_sound dir depth (file name contents rest) out h l m =
        let (here, h1, h2) =
          >>=-eq-ok (collect_file sha256 (dir ++ name ∷ []) contents (ecosystem_for_filename name))
            _ h in
        let (later, h3, h4) = >>=-eq-ok (collect_entries sha256 dir depth rest) _ h2 in
        let joined : here ++ later ≡ out = ok-injective h4 in
        elim (In-append l here later (rw (← joined) at m)) [
          | inl n ↦ Recorded-file dir depth name contents rest here h1 l n
          | inr n ↦
              Recorded-map dir (Among depth rest) (Among depth (file name contents rest)) l
                (λ path bytes among. inr among) (entries_sound dir depth rest later h3 l n)
        ]
    entries_sound dir depth (folder name sub rest) out h l m =
        let (here, h1, h2) =
          >>=-eq-ok
            (if is_skipped name
              then ok []
              else collect_lockfiles sha256 (dir ++ name ∷ []) (depth + 1) sub)
            _ h in
        let (later, h3, h4) = >>=-eq-ok (collect_entries sha256 dir depth rest) _ h2 in
        let joined : here ++ later ≡ out = ok-injective h4 in
        elim (In-append l here later (rw (← joined) at m)) [
          | inl n ↦
              folder_sound dir depth name sub rest here
                (collect_lockfiles sha256 (dir ++ name ∷ []) (depth + 1) sub) h1
                (lockfiles_sound (dir ++ name ∷ []) (depth + 1) sub) l n
          | inr n ↦
              Recorded-map dir (Among depth rest) (Among depth (folder name sub rest)) l
                (λ path bytes among. inr among) (entries_sound dir depth rest later h3 l n)
        ]

  -- And every such file has an entry.
  file_complete :
      (dir : RelPath) (name : Text) (contents : Outcome Text Text) (here : List LockfileRef)
      (path : RelPath) (bytes : Text) (eco : Ecosystem)
      → collect_file sha256 (dir ++ name ∷ []) contents (ecosystem_for_filename name) ≡ ok here
      → path ≡ name ∷ []
      → contents ≡ ok bytes
      → ecosystem_for_filename (file_name path) ≡ some eco
      → In (ref_of (dir ++ path) eco bytes) here
  unfolding collect_file ref_of file_name
  file_complete dir name contents here path bytes eco h e read named =
      let named' : ecosystem_for_filename name ≡ some eco = rw e at named in
      let h' : collect_file sha256 (dir ++ name ∷ []) (ok bytes) (some eco) ≡ ok here =
        subst (λ c. collect_file sha256 (dir ++ name ∷ []) c (some eco) ≡ ok here) read
          (subst (λ o. collect_file sha256 (dir ++ name ∷ []) contents o ≡ ok here) named' h) in
      let made : ref_of (dir ++ name ∷ []) eco bytes ∷ [] ≡ here = ok-injective h' in
      rw e (rw (← made) (inl refl))

  folder_complete :
      (dir : RelPath) (depth : ℕ) (name : Text) (sub : Directory) (here : List LockfileRef)
      (walk : Outcome CompileError (List LockfileRef)) (path more : RelPath) (bytes : Text)
      (eco : Ecosystem)
      → (if is_skipped name then ok [] else walk) ≡ ok here
      → path ≡ name ∷ more
      → is_skipped name ≡ false
      → Stands (depth + 1) sub more bytes
      → ecosystem_for_filename (file_name path) ≡ some eco
      → (walk ≡ ok here
          → ecosystem_for_filename (file_name more) ≡ some eco
          → In (ref_of ((dir ++ name ∷ []) ++ more) eco bytes) here)
      → In (ref_of (dir ++ path) eco bytes) here
  folder_complete dir depth name sub here walk path more bytes eco h e open_dir below named inside =
      let named' : ecosystem_for_filename (file_name (name ∷ more)) ≡ some eco = rw e at named in
      let shorter = file_name-cons (depth + 1) sub name more bytes below in
      let m = inside (rw open_dir at h) (ap ecosystem_for_filename (sym shorter) ∙ named') in
      rw e (rw (append_assoc dir (name ∷ []) more) at m)

  mutual
    unfolding collect_lockfiles Stands

    pub lockfiles_complete :
        (dir : RelPath) (depth : ℕ) (d : Directory) (out : List LockfileRef)
        → collect_lockfiles sha256 dir depth d ≡ ok out
        → (path : RelPath) (bytes : Text) (eco : Ecosystem) → Stands depth d path bytes
        → ecosystem_for_filename (file_name path) ≡ some eco
        → In (ref_of (dir ++ path) eco bytes) out
    lockfiles_complete dir depth (readable entries) out h path bytes eco (shallow, among) named =
        let near = ltb-false max_depth depth shallow in
        entries_complete dir depth entries out (rw near at h) path bytes eco among named
    lockfiles_complete dir depth sealed out h path bytes eco empty named = absurd empty

    entries_complete :
        (dir : RelPath) (depth : ℕ) (es : Listing) (out : List LockfileRef)
        → collect_entries sha256 dir depth es ≡ ok out
        → (path : RelPath) (bytes : Text) (eco : Ecosystem) → Among depth es path bytes
        → ecosystem_for_filename (file_name path) ≡ some eco
        → In (ref_of (dir ++ path) eco bytes) out
    entries_complete dir depth done out h path bytes eco empty named = absurd empty
    entries_complete dir depth (file name contents rest) out h path bytes eco among named =
        let (here, h1, h2) =
          >>=-eq-ok (collect_file sha256 (dir ++ name ∷ []) contents (ecosystem_for_filename name))
            _ h in
        let (later, h3, h4) = >>=-eq-ok (collect_entries sha256 dir depth rest) _ h2 in
        let joined : here ++ later ≡ out = ok-injective h4 in
        rw (← joined) (
          append-In (ref_of (dir ++ path) eco bytes) here later (elim among [
            | inl p ↦ inl (file_complete dir name contents here path bytes eco h1 p.0 p.1 named)
            | inr a ↦ inr (entries_complete dir depth rest later h3 path bytes eco a named)
          ]))
    entries_complete dir depth (folder name sub rest) out h path bytes eco among named =
        let (here, h1, h2) =
          >>=-eq-ok
            (if is_skipped name
              then ok []
              else collect_lockfiles sha256 (dir ++ name ∷ []) (depth + 1) sub)
            _ h in
        let (later, h3, h4) = >>=-eq-ok (collect_entries sha256 dir depth rest) _ h2 in
        let joined : here ++ later ≡ out = ok-injective h4 in
        rw (← joined) (
          append-In (ref_of (dir ++ path) eco bytes) here later (elim among [
            | inl p ↦ inl (
                folder_complete dir depth name sub here
                  (collect_lockfiles sha256 (dir ++ name ∷ []) (depth + 1) sub) path p.0 bytes eco
                  h1 p.1 p.2 p.3 named
                  (λ walked named'.
                    lockfiles_complete (dir ++ name ∷ []) (depth + 1) sub here walked p.0 bytes eco
                      p.3 named'))
            | inr a ↦ inr (entries_complete dir depth rest later h3 path bytes eco a named)
          ]))
