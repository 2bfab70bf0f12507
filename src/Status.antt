-- ===== src/Status.antt =====
-- include/gem16/status.h: the status codes and the result type of every fallible operation.
use gem16gb.Prelude.{◌≡◌, refl, subst, ◌⊎◌, inl, inr, String, Bool, true, false}

pub data StatusCode : Type 0 where
  ok_code invalid_argument not_found io_error data_loss unsupported : StatusCode
  resource_exhausted cancelled internal : StatusCode

pub record Status : Type 0 where
  pub code : StatusCode
  pub message : String

-- A `Result` holds a value or a status that is not ok; `return Status(...)` is `err`.
pub data Result {ℓ} (A : Type ℓ) : Type ℓ where
  ok : A → Result A
  err : Status → Result A

abbrev pub fail {ℓ} : {A : Type ℓ} → StatusCode → String → Result A
fail c m = err (record { code = c; message = m })

-- `if (!x.ok()) return x.status();`, for a call whose value is used and for one whose is not.
infixl 5 ◌>>=◌
infixl 5 ◌>>◌
abbrev pub ◌>>=◌ {ℓ κ} : {X : Type ℓ} {Y : Type κ} → Result X → (X → Result Y) → Result Y
err status >>= next = err status
ok value >>= next = next value

abbrev pub ◌>>◌ {κ} : {Y : Type κ} → Result (Unit {0}) → Result Y → Result Y
first >> second = first >>= (λ done. second)

-- `if (bad) return Status(...);`
abbrev pub refuse_if : Bool → StatusCode → String → Result (Unit {0})
refuse_if false c m = ok tt
refuse_if true c m = fail c m

abbrev pub is_ok {ℓ} : {A : Type ℓ} → Result A → Bool
is_ok (ok a) = true
is_ok (err e) = false

-- A chain that returned a value got one from its first call.
pub >>=-eq-ok {ℓ κ} :
    {X : Type ℓ} {Y : Type κ} (first : Result X) (next : X → Result Y) {y : Y}
    → (first >>= next) ≡ ok y
    → (x : X) × (first ≡ ok x) × (next x ≡ ok y)
>>=-eq-ok (err status) next returned_y = cc
>>=-eq-ok (ok value) next returned_y = (value, refl, returned_y)

pub Result-cases {ℓ} :
    {A : Type ℓ} (r : Result A) → ((a : A) × (r ≡ ok a)) ⊎ ((e : Status) × (r ≡ err e))
Result-cases (ok a) = inl (a, refl)
Result-cases (err e) = inr (e, refl)

-- Whatever value a computation returns satisfies `P`; it may also be refused.
pub data Ensures {ℓ κ} {A : Type ℓ} (P : A → Type κ) : Result A → Type (ℓ ⊔ κ) where
  returned : {a : A} → P a → Ensures P (ok a)
  refused : {e : Status} → Ensures P (err e)

module _ {ℓ κ} {A : Type ℓ} {P : A → Type κ} where
  pub Ensures-ok : {r : Result A} {a : A} → Ensures P r → r ≡ ok a → P a
  Ensures-ok (returned h) e = subst P (cc) h
  Ensures-ok refused e = cc

  -- A step of a `do` block: the rest may use that the step returned its value.
  pub Ensures-step {μ} :
      {B : Type μ} (m : Result B) {f : B → Result A}
      → ((b : B) → m ≡ ok b → Ensures P (f b))
      → Ensures P (m >>= f)
  Ensures-step (ok b) k = k b refl
  Ensures-step (err e) k = refused

  pub Ensures-mono {μ} :
      {Q : A → Type μ} {r : Result A} → Ensures P r → ((a : A) → P a → Q a) → Ensures Q r
  Ensures-mono (returned {a} h) k = returned (k a h)
  Ensures-mono refused k = refused

  -- A check that a `do` block passes.
  pub Ensures-check :
      (b : Bool) (c : StatusCode) (m : String) {r : Result A}
      → (b ≡ false → Ensures P r)
      → Ensures P (refuse_if b c m >> r)
  Ensures-check true c m k = refused
  Ensures-check false c m k = k refl
