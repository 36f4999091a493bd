-- ===== src/Compile/Hashing.antt =====
-- The provenance hash of crates/ql-compile/src/lib.rs determines the lockfiles.
use quantmlayer.Prelude.{
  all, all_elim, not, ◌==◌, ℕ, ◌<◌, ◌/◌, ◌%◌, ◌≡◌, ◌≢◌, refl, sym, ap, ◌∙◌, inl, inr, Bool, true,
  List, [], ◌∷◌, ◌++◌, map, In, All, drop, ok-injective, subst, arith,
}
use quantmlayer.Text.{Text}
use quantmlayer.Identity.{hex_encode, hex_decode, hex_digit}
use quantmlayer.Identity.Hex.{hex_decode-hex_encode}
use quantmlayer.Compile.{
  Ecosystem, cargo, npm, pypi, go, token, RelPath, path_text, LockfileRef, GitAnswer,
}
use quantmlayer.Compile.Walk.{hex}
use quantmlayer.Compile.Envelope.{Envelope, hash_input, hash_prefix, hash_envelope, assemble}
use quantmlayer.Compile.Provenance.{IsCompiled, compiled-assembled}

cons_head : {x y : ℕ} {xs ys : Text} → ◌≡◌ {A = Text} (x ∷ xs) (y ∷ ys) → x ≡ y
cons_head e = cc

cons_tail : {x y : ℕ} {xs ys : Text} → ◌≡◌ {A = Text} (x ∷ xs) (y ∷ ys) → xs ≡ ys
cons_tail e = cc

-- A text without the separator byte.
abbrev pub is_zero_free : Text → Bool
is_zero_free = all (λ b. not (b == 0))

zero_free : (s : Text) → is_zero_free s ≡ true → ¬ In 0 s
zero_free s h m = let bad : not (0 == 0) ≡ true = all_elim (λ b. not (b == 0)) 0 s h m in cc

-- Fields without the separator are cut the same way.
cut : (xs ys r s : Text) → ¬ In 0 xs → ¬ In 0 ys → xs ++ 0 ∷ r ≡ ys ++ 0 ∷ s → (xs ≡ ys) × (r ≡ s)
cut [] [] r s hx hy e = (refl, cons_tail e)
cut (x ∷ xs) (y ∷ ys) r s hx hy e =
    let (same, later) = cut xs ys r s (λ m. hx (inr m)) (λ m. hy (inr m)) (cons_tail e) in
    (rw (cons_head e) (ap (λ zs. y ∷ zs) same), later)
cut [] (y ∷ ys) r s hx hy e = absurd (hy (inl (cons_head e)))
cut (x ∷ xs) [] r s hx hy e = absurd (hx (inl (sym (cons_head e))))

hex_digit-ne-zero : (d : ℕ) → 0 ≢ hex_digit d
hex_digit-ne-zero d h = ground arith

hex_encode-no_zero : (bs : Text) → ¬ In 0 (hex_encode bs)
unfolding hex_encode
hex_encode-no_zero (b ∷ bs) (inl e) = hex_digit-ne-zero (b / 16) e
hex_encode-no_zero (b ∷ bs) (inr (inl e)) = hex_digit-ne-zero (b % 16) e
hex_encode-no_zero (b ∷ bs) (inr (inr m)) = hex_encode-no_zero bs m
hex_encode-no_zero [] m = m

hex_encode_injective :
    (xs ys : Text)
    → All (λ b. b < 256) xs
    → All (λ b. b < 256) ys
    → hex_encode xs ≡ hex_encode ys
    → xs ≡ ys
hex_encode_injective xs ys hx hy e =
    ok-injective
      (sym (hex_decode-hex_encode xs hx) ∙ (ap hex_decode e ∙ hex_decode-hex_encode ys hy))

token_injective : (a b : Ecosystem) → token a ≡ token b → a ≡ b
unfolding token
token_injective cargo cargo e = refl
token_injective npm npm e = refl
token_injective pypi pypi e = refl
token_injective go go e = refl
token_injective _ _ e = cc

token-no_zero : (eco : Ecosystem) → ¬ In 0 (token eco)
unfolding token
token-no_zero cargo = zero_free (token cargo) refl
token-no_zero npm = zero_free (token npm) refl
token-no_zero pypi = zero_free (token pypi) refl
token-no_zero go = zero_free (token go) refl

-- What the hash names of a lockfile: its path, its ecosystem and its digest.
abbrev pub identity : LockfileRef → Text × Ecosystem × Text
identity l = (path_text l.path, l.ecosystem, l.sha256)

-- A lockfile whose path is free of the separator byte, and whose digest is in hex.
abbrev IsPlain : LockfileRef → Type 0
IsPlain l = (¬ In 0 (path_text l.path)) × (¬ In 0 l.sha256)

nonempty : (xs r : Text) → ◌≡◌ {A = Text} [] (xs ++ 0 ∷ r) → ⊥
nonempty [] r e = cc
nonempty (x ∷ xs) r e = cc

hash_input_injective :
    (ls ks : List LockfileRef)
    → ((l : LockfileRef) → In l ls → IsPlain l)
    → ((l : LockfileRef) → In l ks → IsPlain l)
    → hash_input ls ≡ hash_input ks
    → map identity ls ≡ map identity ks
unfolding hash_input
hash_input_injective [] [] p q e = refl
hash_input_injective [] (k ∷ ks) p q e = absurd (nonempty (path_text k.path) _ e)
hash_input_injective (l ∷ ls) [] p q e = absurd (nonempty (path_text l.path) _ (sym e))
hash_input_injective (l ∷ ls) (k ∷ ks) p q e =
    let (pl, sl) = p l (inl refl) in
    let (pk, sk) = q k (inl refl) in
    let (same_path, e1) = cut (path_text l.path) (path_text k.path) _ _ pl pk e in
    let (same_token, e2) =
      cut (token l.ecosystem) (token k.ecosystem) _ _ (token-no_zero l.ecosystem)
        (token-no_zero k.ecosystem) e1 in
    let (same_digest, e3) = cut l.sha256 k.sha256 _ _ sl sk e2 in
    let later = hash_input_injective ls ks (λ x m. p x (inr m)) (λ x m. q x (inr m)) e3 in
    joined same_path (token_injective l.ecosystem k.ecosystem same_token) same_digest later
  where
    joined :
        path_text l.path ≡ path_text k.path
        → l.ecosystem ≡ k.ecosystem
        → l.sha256 ≡ k.sha256
        → map identity ls ≡ map identity ks
        → map identity (l ∷ ls) ≡ map identity (k ∷ ks)
    joined a b c d = cc

module _ (sha256 : Text → Text) (git : RelPath → GitAnswer) where
  plain :
      (e : Envelope)
      → IsCompiled sha256 git e
      → all (λ l. is_zero_free (path_text l.path)) e.lockfiles ≡ true
      → (l : LockfileRef) → In l e.lockfiles
      → IsPlain l
  unfolding hex
  plain e c h l m =
      let (skipped, made, digested) = compiled-assembled sha256 git e c in
      let (bytes, same) = digested l m in
      (
        zero_free _ (all_elim (λ k. is_zero_free (path_text k.path)) l e.lockfiles h m),
        λ n. hex_encode-no_zero (sha256 bytes) (subst (In 0) same n),
      )

  own_hash :
      (e : Envelope) → IsCompiled sha256 git e → e.envelope_hash ≡ hash_envelope sha256 e.lockfiles
  unfolding assemble
  own_hash e c =
      let (skipped, made, _) = compiled-assembled sha256 git e c in
      ap (λ (x : Envelope). x.envelope_hash) made

-- Two compiled envelopes with one hash have the same lockfiles, in the same order: the same paths,
-- ecosystems and content digests, whatever the state of version control was. The hash gives bytes,
-- no path has a zero byte, and the two inputs of the envelope hash are no collision of it.
pub envelope_hash_determines :
    (sha256 : Text → Text) (git git' : RelPath → GitAnswer)
    → ((m : Text) → All (λ b. b < 256) (sha256 m))
    → (e f : Envelope) → IsCompiled sha256 git e
    → IsCompiled sha256 git' f
    → all (λ l. is_zero_free (path_text l.path)) e.lockfiles ≡ true
    → all (λ l. is_zero_free (path_text l.path)) f.lockfiles ≡ true
    → (sha256 (hash_prefix ++ hash_input e.lockfiles)
          ≡ sha256 (hash_prefix ++ hash_input f.lockfiles)
        → hash_prefix ++ hash_input e.lockfiles ≡ hash_prefix ++ hash_input f.lockfiles)
    → e.envelope_hash ≡ f.envelope_hash
    → map identity e.lockfiles ≡ map identity f.lockfiles
unfolding hash_envelope hex
envelope_hash_determines sha256 git git' octets e f c d pe pf apart same =
    let hashes : hex_encode (sha256 (hash_prefix ++ hash_input e.lockfiles))
        ≡ hex_encode (sha256 (hash_prefix ++ hash_input f.lockfiles)) =
      sym (own_hash sha256 git e c) ∙ (same ∙ own_hash sha256 git' f d) in
    hash_input_injective e.lockfiles f.lockfiles (plain sha256 git e c pe)
      (plain sha256 git' f d pf)
      (ap (drop 23) (apart (hex_encode_injective _ _ (octets _) (octets _) hashes)))
