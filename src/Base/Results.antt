-- ===== src/Base/Results.antt =====
-- Fallible code: `Result E A` is Rust's `Result<A, E>`, with `?` as bind and `ensure!` as `ensure`.
use mathlib.Core.Path.{◌≡◌, refl}
use mathlib.Core.Logic.{◌⊎◌, inl, inr}
use mathlib.Core.Bool.{Bool, true, false}
use mathlib.Core.Option.{Option, none, some}

pub data Result {ℓ} (Failure : Type 0) (Success : Type ℓ) : Type ℓ where
  err : Failure → Result Failure Success
  ok : Success → Result Failure Success

module _ {E : Type 0} where
  pub Result-cases {ℓ} :
      {A : Type ℓ} (r : Result E A) → ((a : A) × (r ≡ ok a)) ⊎ ((e : E) × (r ≡ err e))
  Result-cases (err why) = inr (why, refl)
  Result-cases (ok x) = inl (x, refl)

  -- `Option::context`
  abbrev pub context {ℓ} : {A : Type ℓ} → Option A → E → Result E A
  context none why = err why
  context (some x) why = ok x

  abbrev pub ensure : (holds : Bool) (why : E) → Result E (Unit {0})
  ensure false why = err why
  ensure true why = ok tt

  infixl 5 ◌>>=◌
  abbrev pub ◌>>=◌ {ℓ κ} : {A : Type ℓ} → {B : Type κ} → Result E A → (A → Result E B) → Result E B
  err why >>= next = err why
  ok x >>= next = next x

  infixl 5 ◌>>◌
  abbrev pub ◌>>◌ {ℓ} : {B : Type ℓ} → Result E (Unit {0}) → Result E B → Result E B
  first >> next = first >>= λ done. next

  -- What a chain that succeeds says of its first part.
  pub >>=-eq-ok {ℓ κ} :
      {A : Type ℓ} {B : Type κ} (first : Result E A) (next : A → Result E B) {y : B}
      → (first >>= next) ≡ ok y
      → (x : A) × (first ≡ ok x) × (next x ≡ ok y)
  >>=-eq-ok (err why) next e = cc
  >>=-eq-ok (ok x) next e = (x, refl, e)

  -- The same for a test.
  pub >>-eq-ok {ℓ} :
      {B : Type ℓ} (holds : Bool) (why : E) (next : Result E B) {y : B}
      → (ensure holds why >> next) ≡ ok y
      → (holds ≡ true) × (next ≡ ok y)
  >>-eq-ok false why next e = cc
  >>-eq-ok true why next e = (refl, e)

  -- A chain of two checks succeeds when both do.
  pub >>-eq-ok_unit :
      (first second : Result E (Unit {0}))
      → (first >> second) ≡ ok tt
      → (first ≡ ok tt) × (second ≡ ok tt)
  >>-eq-ok_unit (err why) second h = cc
  >>-eq-ok_unit (ok tt) second h = (refl, h)

  -- A context that succeeds was given the value.
  pub context-eq-ok {ℓ} :
      {A : Type ℓ} (o : Option A) (why : E) (x : A) → context o why ≡ ok x → o ≡ some x
  context-eq-ok none why x e = cc
  context-eq-ok (some y) why x e = cc

  pub ok_injective {ℓ} : {A : Type ℓ} {a b : A} → ◌≡◌ {A = Result E A} (ok a) (ok b) → a ≡ b
  ok_injective e = cc

  pub err-ne-ok {ℓ} : {A : Type ℓ} {why : E} {a : A} → ◌≡◌ {A = Result E A} (err why) (ok a) → ⊥
  err-ne-ok e = cc
