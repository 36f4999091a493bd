-- ===== src/Compile/Provenance.antt =====
-- What an envelope of crates/ql-compile/src/lib.rs says of the lockfiles it was compiled from.
use quantmlayer.Prelude.{
  Option, none, ◌≡◌, refl, sym, ap, ◌∙◌, ◌↔◌, ◌⊎◌, inl, inr, some, List, [], ◌∷◌, In, In-append,
  append-In, Outcome, ok, err, ok-injective, subst,
}
use quantmlayer.Text.{Text}
use quantmlayer.Text.Order.{In-sort_dedup, sort_dedup-In, sort_dedup}
use quantmlayer.Compile
use quantmlayer.Compile.{
  Ecosystem, cargo, npm, pypi, go, token, source_hosting, RelPath, path_text, LockfileRef,
  CompileError, GitAnswer, vcs_state,
}
use quantmlayer.Compile.Walk.{Directory, hex}
use quantmlayer.Compile.Envelope.{Envelope, needed, assemble, compile, compile_named, compile_one}
use quantmlayer.Compile.Selection.{compile-eq-ok, compile-Stands}

-- The domains collected from the lockfiles, with where each comes from.
needed_elim :
    (d : Text) (ls : List LockfileRef)
    → In d (needed ls)
    → In d source_hosting ⊎ ((l : LockfileRef) × In l ls × In d (Compile.domains l.ecosystem))
unfolding needed
needed_elim d [] m = inl m
needed_elim d (l ∷ ls) m = elim (In-append d (Compile.domains l.ecosystem) (needed ls) m) [
  | inl n ↦ inr (l, inl refl, n)
  | inr n ↦ elim (needed_elim d ls n) [ inl h ↦ inl h | inr q ↦ inr (q.0, inr q.1, q.2) ]
]

needed_hosting : (d : Text) (ls : List LockfileRef) → In d source_hosting → In d (needed ls)
unfolding needed
needed_hosting d [] m = m
needed_hosting d (l ∷ ls) m =
    append-In d (Compile.domains l.ecosystem) (needed ls) (inr (needed_hosting d ls m))

needed_table :
    (d : Text) (l : LockfileRef) (ls : List LockfileRef)
    → In l ls
    → In d (Compile.domains l.ecosystem)
    → In d (needed ls)
unfolding needed
needed_table d l (k ∷ ks) (inl e) m =
    append-In d (Compile.domains k.ecosystem) (needed ks)
      (inl (subst (λ (x : LockfileRef). In d (Compile.domains x.ecosystem)) e m))
needed_table d l (k ∷ ks) (inr n) m =
    append-In d (Compile.domains k.ecosystem) (needed ks) (inr (needed_table d l ks n m))
needed_table d l [] n m = absurd n

module _ (sha256 : Text → Text) (git : RelPath → GitAnswer) where
  -- The envelope of a compilation, of a tree or of a named lockfile.
  abbrev pub IsCompiled : Envelope → Type 0
  IsCompiled e =
      ((root : Directory) × (compile sha256 git root ≡ ok e))
      ⊎ ((read : RelPath → Outcome Text Text) × (rel : RelPath) × (compile_one sha256 git read rel
            ≡ ok e))

  -- Each entry carries the hex form of a digest.
  abbrev IsDigested : List LockfileRef → Type 0
  IsDigested ls = (l : LockfileRef) → In l ls → (bytes : Text) × (l.sha256 ≡ hex (sha256 bytes))

  named-assembled :
      (found : Option Ecosystem) (rel : RelPath) (contents : Outcome Text Text) (e : Envelope)
      → compile_named sha256 git found rel contents ≡ ok e
      → (ls : List LockfileRef) × (e ≡ assemble sha256 ls []) × IsDigested ls
  unfolding compile_named
  named-assembled (some eco) rel (ok bytes) e h = (_, sym (ok-injective h), digested)
    where
      digested :
          (l : LockfileRef)
          → In l (
              record {
                path = rel;
                ecosystem = eco;
                sha256 = hex (sha256 bytes);
                vcs = vcs_state (git rel);
              }
              ∷ [])
          → (b : Text) × (l.sha256 ≡ hex (sha256 b))
      digested l (inl same) = (bytes, ap (λ (x : LockfileRef). x.sha256) same)
      digested l (inr empty) = absurd empty
  named-assembled (some eco) rel (err f) e h = cc
  named-assembled none rel contents e h = cc

  tree-IsDigested :
      (root : Directory) (e : Envelope) → compile sha256 git root ≡ ok e → IsDigested e.lockfiles
  tree-IsDigested root e h l m =
      let (bytes, _, _, same) =
        (compile-Stands sha256 git root e h).0 l (append-In l e.lockfiles e.skipped (inl m)) in
      (bytes, same)

  own_lockfiles :
      (e : Envelope) (ls skipped : List LockfileRef)
      → e ≡ assemble sha256 ls skipped
      → e ≡ assemble sha256 e.lockfiles skipped
  unfolding assemble
  own_lockfiles e ls skipped made =
      made ∙ ap (λ (x : Envelope). assemble sha256 x.lockfiles skipped) (sym made)

  -- A compiled envelope is assembled from its own lockfiles.
  pub compiled-assembled :
      (e : Envelope)
      → IsCompiled e
      → (skipped : List LockfileRef) × (e ≡ assemble sha256 e.lockfiles skipped)
        × IsDigested e.lockfiles
  unfolding compile_one
  compiled-assembled e (inl (root, h)) =
      let (all, walked, made) = compile-eq-ok sha256 git root e h in
      (_, own_lockfiles e _ _ made, tree-IsDigested root e h)
  compiled-assembled e (inr (read, rel, h)) =
      let (ls, made, digested) = named-assembled _ rel (read rel) e h in
      (
        [],
        own_lockfiles e ls [] made,
        subst (λ (x : Envelope). IsDigested x.lockfiles) (sym made) digested,
      )

  -- The domains of a compiled envelope are exactly the fixed ones of source hosting and those of
  -- the fixed table of the ecosystems of its lockfiles, so nothing read from a lockfile is one.
  pub compiled-domains :
      (e : Envelope)
      → IsCompiled e
      → (d : Text)
      → In d e.domains ↔ (
          In d source_hosting
          ⊎ ((l : LockfileRef) × In l e.lockfiles × In d (Compile.domains l.ecosystem)))
  unfolding assemble
  compiled-domains e c d =
      let (skipped, made, _) = compiled-assembled e c in
      let same : e.domains ≡ sort_dedup (needed e.lockfiles) =
        ap (λ (x : Envelope). x.domains) made in
      (
        λ m. needed_elim d e.lockfiles (In-sort_dedup d (needed e.lockfiles) (subst (In d) same m)),
        λ p. subst (In d) (sym same) (sort_dedup-In d (needed e.lockfiles) (listed e p)),
      )
    where
      listed :
          (x : Envelope)
          → In d source_hosting
            ⊎ ((l : LockfileRef) × In l x.lockfiles × In d (Compile.domains l.ecosystem))
          → In d (needed x.lockfiles)
      listed x (inl h) = needed_hosting d x.lockfiles h
      listed x (inr (l, m, n)) = needed_table d l x.lockfiles m n
