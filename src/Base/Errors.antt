-- ===== src/Base/Errors.antt =====
-- Go's error values and the results of fallible calls.
use Prim.Native.String.{String}
use mathlib.Core.Path.{◌≡◌, refl}
use mathlib.Core.Logic.{◌⊎◌, inl, inr}
use mathlib.Core.Bool.{Bool, true, false}

-- `eof`, `unexpected_eof` and `deadline_exceeded` are the values of packages io and os that the
-- program compares with or returns; `other` is any error of a lower layer. `errorf` is
-- `fmt.Errorf` with no wrapped error, and `wrap` one with `%w`. `panics` is no Go value: a run-time
-- panic leaves the call in place of a result.
pub data Error : Type 0 where
  eof unexpected_eof deadline_exceeded : Error
  other errorf panics : String → Error
  wrap : String → Error → Error

-- The comparison `err == io.EOF`: a wrapped error is another value.
abbrev pub is_eof : Error → Bool
is_eof eof = true
is_eof _ = false

pub data Result {ℓ} (A : Type ℓ) : Type ℓ where
  ok : A → Result A
  err : Error → Result A

infixl 5 ◌>>=◌
abbrev pub ◌>>=◌ {ℓ κ} : {A : Type ℓ} {B : Type κ} → Result A → (A → Result B) → Result B
ok a >>= f = f a
err e >>= f = err e

-- `if err != nil { return fmt.Errorf("…: %w", err) }`
abbrev pub wrapping {ℓ} : {A : Type ℓ} → String → Result A → Result A
wrapping text (ok a) = ok a
wrapping text (err e) = err (wrap text e)

pub Result-cases {ℓ} :
    {A : Type ℓ} (r : Result A) → ((a : A) × (r ≡ ok a)) ⊎ ((e : Error) × (r ≡ err e))
Result-cases (ok a) = inl (a, refl)
Result-cases (err e) = inr (e, refl)

-- Inversion of a step that wraps its error.
pub wrapping-eq-ok {ℓ κ} :
    {A : Type ℓ} {B : Type κ} (text : String) (m : Result A) (f : A → Result B) {b : B}
    → (wrapping text m >>= f) ≡ ok b
    → (a : A) × (m ≡ ok a) × (f a ≡ ok b)
wrapping-eq-ok text (ok a) f h = (a, refl, h)
wrapping-eq-ok text (err e) f h = cc

-- Inversion of a step.
pub bound-ok :
    {A B : Type 0} (r : Result A) (k : A → Result B) (b : B)
    → (r >>= k) ≡ ok b
    → (a : A) × (r ≡ ok a) × (k a ≡ ok b)
bound-ok (ok a) k b h = (a, refl, h)
bound-ok (err e) k b h = absurd (cc h)
