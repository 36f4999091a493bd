-- ===== src/Prelude/Fallible.antt =====
-- Rust's `Result<A, E>`, with the `?` operator as bind.
use mathlib.Core.Path.{◌≡◌, refl}
use mathlib.Core.Bool.{Bool, true, false}

pub data Outcome {ℓ κ} (E : Type ℓ) (A : Type κ) : Type (ℓ ⊔ κ) where
  ok : A → Outcome E A
  err : E → Outcome E A

infixl 5 ◌>>◌ ◌>>=◌
-- `?`: the first error ends the function.
abbrev pub ◌>>=◌ {ℓ κ μ} :
    {E : Type ℓ} {A : Type κ} {B : Type μ} → Outcome E A → (A → Outcome E B) → Outcome E B
err failure >>= next = err failure
ok value >>= next = next value

-- `if test { return Err(failure) }`, with the test negated.
abbrev pub guard {ℓ} : {E : Type ℓ} → Bool → E → Outcome E (Unit {0})
guard false failure = err failure
guard true failure = ok tt

-- A step whose value is not used.
abbrev pub ◌>>◌ {ℓ μ} : {E : Type ℓ} {B : Type μ} → Outcome E (Unit {0}) → Outcome E B → Outcome E B
step >> next = step >>= λ _. next

-- A guard that passed.
pub guard-ok {ℓ} : {E : Type ℓ} (b : Bool) (e : E) → guard b e ≡ ok tt → b ≡ true
guard-ok true e h = refl
guard-ok false e h = cc

-- Inversion of a successful bind.
pub >>=-eq-ok {ℓ κ μ} :
    {E : Type ℓ} {A : Type κ} {B : Type μ} (step : Outcome E A) (next : A → Outcome E B) {r : B}
    → (step >>= next) ≡ ok r
    → (value : A) × (step ≡ ok value) × (next value ≡ ok r)
>>=-eq-ok (err failure) next h = cc
>>=-eq-ok (ok value) next h = (value, refl, h)

-- Inversion of a guard followed by the rest of a function.
pub guard->>-eq-ok {ℓ μ} :
    {E : Type ℓ} {B : Type μ} (b : Bool) (e : E) (k : Outcome E B) {r : B}
    → (guard b e >> k) ≡ ok r
    → (b ≡ true) × (k ≡ ok r)
guard->>-eq-ok true e k h = (refl, h)
guard->>-eq-ok false e k h = cc

-- Inversion of a step whose value is not used.
pub >>-eq-ok {ℓ μ} :
    {E : Type ℓ} {B : Type μ} (m : Outcome E (Unit {0})) (k : Outcome E B) {r : B}
    → (m >> k) ≡ ok r
    → (m ≡ ok tt) × (k ≡ ok r)
>>-eq-ok (ok u) k h = (refl, h)
>>-eq-ok (err e) k h = cc

-- Successful steps compose.
pub >>=-ok {ℓ κ μ} :
    {E : Type ℓ} {A : Type κ} {B : Type μ} (m : Outcome E A) (f : A → Outcome E B) {a : A} {b : B}
    → m ≡ ok a
    → f a ≡ ok b
    → (m >>= f) ≡ ok b
>>=-ok m f h k = rw h k

pub >>-ok {ℓ μ} :
    {E : Type ℓ} {B : Type μ} (m : Outcome E (Unit {0})) (k : Outcome E B) {r : B}
    → m ≡ ok tt
    → k ≡ ok r
    → (m >> k) ≡ ok r
>>-ok m k h e = rw h e

pub guard->>-ok {ℓ μ} :
    {E : Type ℓ} {B : Type μ} (b : Bool) (e : E) (k : Outcome E B) {r : B}
    → b ≡ true
    → k ≡ ok r
    → (guard b e >> k) ≡ ok r
guard->>-ok b e k h q = rw h q

pub ok-injective {ℓ κ} :
    {E : Type ℓ} {A : Type κ} {a b : A} → ◌≡◌ {A = Outcome E A} (ok a) (ok b) → a ≡ b
ok-injective h = cc
