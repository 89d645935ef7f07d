-- ===== src/Prelude/Results.antt =====
-- Python calls that may raise: a value or an exception.
use mathlib.Core.Path.{◌≡◌, refl}
use mathlib.Core.Logic.{◌⊎◌, inl, inr}

pub data Exception : Type 0 where
  value_error key_error type_error index_error runtime_error assertion_error zero_division_error
        attribute_error schema_error :
      Exception

pub data Result {ℓ} (A : Type ℓ) : Type ℓ where
  ok : A → Result A
  raise : Exception → Result A

infixl 5 ◌>>=◌
-- A `do` block goes on with the value, and passes an exception on.
abbrev pub ◌>>=◌ {ℓ κ} :
    {Value : Type ℓ} {Next : Type κ} → Result Value → (Value → Result Next) → Result Next
raise problem >>= _ = raise problem
ok value >>= next = next value

-- Both calls of a chain that returned have returned.
pub >>=-eq-ok {ℓ κ} :
    {Value : Type ℓ} {Next : Type κ} (call : Result Value) (next : Value → Result Next)
    {last : Next}
    → (call >>= next) ≡ ok last
    → (value : Value) × (call ≡ ok value) × (next value ≡ ok last)
>>=-eq-ok (raise problem) next returned = cc
>>=-eq-ok (ok value) next returned = (value, refl, returned)

pub Result-cases {ℓ} :
    {A : Type ℓ} (r : Result A) → ((a : A) × (r ≡ ok a)) ⊎ ((e : Exception) × (r ≡ raise e))
Result-cases (ok a) = inl (a, refl)
Result-cases (raise e) = inr (e, refl)
