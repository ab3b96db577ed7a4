-- ===== src/Base/Results.antt =====
-- Python exceptions as values: a call returns, or raises one of the exceptions that the code meets.
use mathlib.Core.Path.{◌≡◌, refl}
use mathlib.Core.Logic.{◌⊎◌, inl, inr}
use mathlib.Core.Option.{Option, none, some}

pub data PyError : Type 0 where
  struct_error index_error overflow_error unicode_error value_error : PyError
  file_not_found file_exists os_error key_error : PyError

pub data Result {ℓ} (A : Type ℓ) : Type ℓ where
  ok : A → Result A
  err : PyError → Result A

pub Result-cases {ℓ} :
    {A : Type ℓ} (r : Result A) → ((a : A) × (r ≡ ok a)) ⊎ ((e : PyError) × (r ≡ err e))
Result-cases (ok a) = inl (a, refl)
Result-cases (err e) = inr (e, refl)

-- A subscript that may be out of range.
abbrev pub or_raise {κ} : {B : Type κ} → Option B → PyError → Result B
or_raise none e = err e
or_raise (some b) e = ok b

-- What follows a call runs only if the call returns.
infixl 5 ◌>>=◌
abbrev pub ◌>>=◌ {κ ι} : {B : Type κ} {C : Type ι} → Result B → (B → Result C) → Result C
err e >>= next = err e
ok b >>= next = next b

pub >>=-eq-ok {κ ι} :
    {B : Type κ} {C : Type ι} (call : Result B) (next : B → Result C) {c : C}
    → (call >>= next) ≡ ok c
    → (b : B) × (call ≡ ok b) × (next b ≡ ok c)
>>=-eq-ok (err e) next h = cc
>>=-eq-ok (ok b) next h = (b, refl, h)
