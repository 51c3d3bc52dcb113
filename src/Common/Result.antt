-- ===== src/Common/Result.antt =====
-- The exceptions that the modelled code raises, and the monad of calls that may raise one.
use mathlib.Core.Path.{◌≡◌, refl}
use mathlib.Core.Logic.{◌⊎◌, inl, inr}
use mathlib.Core.List.{List}
use mathlib.Core.Option.{Option, none, some}
use whooshy.Common.Lists.{get_elem?}
use Prim.Native.Nat.{ℕ}

-- `read_too_far` and `time_error` are whoosh's ReadTooFar and TimeError; `index_error`, `key_error`,
-- `type_error`, `value_error`, `assertion_error`, `attribute_error` and `overflow_error` are Python's.
-- `stuck` is no exception: a loop of the model ran out of fuel.
pub data Error : Type 0 where
  read_too_far index_error key_error type_error value_error assertion_error attribute_error
        overflow_error time_error stuck :
      Error

pub data Result {ℓ} (A : Type ℓ) : Type ℓ where
  ok : A → Result A
  err : Error → Result A

infixl 5 ◌>>=◌
abbrev pub ◌>>=◌ {ℓ κ} : {A : Type ℓ} {B : Type κ} → Result A → (A → Result B) → Result B
ok a >>= f = f a
err e >>= f = err e

abbrev pub or_raise {ℓ} : {A : Type ℓ} → Error → Option A → Result A
or_raise e none = err e
or_raise e (some a) = ok a

-- `xs[i]` at an index that is not negative.
abbrev pub index {ℓ} : {A : Type ℓ} → List A → ℕ → Result A
index xs i = or_raise index_error (get_elem? xs i)

pub Result-cases {ℓ} :
    {A : Type ℓ} (r : Result A) → ((a : A) × (r ≡ ok a)) ⊎ ((e : Error) × (r ≡ err e))
Result-cases (ok a) = inl (a, refl)
Result-cases (err e) = inr (e, refl)
