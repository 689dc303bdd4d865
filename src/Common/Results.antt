-- ===== src/Common/Results.antt =====
-- What a C++ evaluation comes to.
use mathlib.Core.Path.{◌≡◌, refl}

-- The exceptions that the program throws, and the one of `std::filesystem`.
pub data Exception : Type 0 where
  runtime_error out_of_range invalid_argument filesystem_error length_error : Exception

-- `undefined` is undefined behaviour, such as a read past the end of a span. `out_of_fuel` is no
-- result of the program: a loop has used up the rounds that the model gives it.
pub data Outcome {ℓ} (A : Type ℓ) : Type ℓ where
  ok : A → Outcome A
  throws : Exception → Outcome A
  undefined : Outcome A
  out_of_fuel : Outcome A

abbrev pub bind {ℓ κ} : {A : Type ℓ} {B : Type κ} → Outcome A → (A → Outcome B) → Outcome B
bind (ok a) f = f a
bind (throws e) f = throws e
bind undefined f = undefined
bind out_of_fuel f = out_of_fuel

pub bind-eq-ok {ℓ κ} :
    {A : Type ℓ} {B : Type κ} (m : Outcome A) (f : A → Outcome B) {b : B}
    → bind m f ≡ ok b
    → (a : A) × (m ≡ ok a) × (f a ≡ ok b)
bind-eq-ok (ok a) f h = (a, refl, h)
bind-eq-ok (throws e) f h = cc
bind-eq-ok undefined f h = cc
bind-eq-ok out_of_fuel f h = cc
