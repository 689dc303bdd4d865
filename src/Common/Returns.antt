-- ===== src/Common/Returns.antt =====
-- What a C++ evaluation returns, if it returns.
use mathlib.Core.Path.{◌≡◌}
use codecrafters_kafka_cpp.Common.Results.{
  Exception, Outcome, ok, throws, undefined, out_of_fuel, bind,
}

-- A result, if there is one, has the property.
pub data Returns {A : Type 0} (P : A → Type 0) : Outcome A → Type 0 where
  returned : (a : A) → P a → Returns P (ok a)
  threw : (e : Exception) → Returns P (throws e)
  broke : Returns P undefined
  ran_out : Returns P out_of_fuel

pub Returns-bind_if :
    {A B : Type 0} (Q : A → Type 0) (P : B → Type 0) (m : Outcome A) (f : A → Outcome B)
    → Returns Q m
    → ((a : A) → Q a → Returns P (f a))
    → Returns P (bind m f)
Returns-bind_if Q P _ f (returned a q) h = h a q
Returns-bind_if Q P _ f (threw e) h = threw e
Returns-bind_if Q P _ f broke h = broke
Returns-bind_if Q P _ f ran_out h = ran_out

pub Returns-any : {A : Type 0} (m : Outcome A) → Returns (λ a. Unit {0}) m
Returns-any (ok a) = returned a tt
Returns-any (throws e) = threw e
Returns-any undefined = broke
Returns-any out_of_fuel = ran_out

pub Returns-bind :
    {A B : Type 0} (P : B → Type 0) (m : Outcome A) (f : A → Outcome B)
    → ((a : A) → Returns P (f a))
    → Returns P (bind m f)
Returns-bind P m f h = Returns-bind_if (λ a. Unit {0}) P m f (Returns-any m) (λ a u. h a)

pub Returns-imp :
    {A : Type 0} {P Q : A → Type 0} {m : Outcome A}
    → ((a : A) → P a → Q a)
    → Returns P m
    → Returns Q m
Returns-imp h (returned a p) = returned a (h a p)
Returns-imp h (threw e) = threw e
Returns-imp h broke = broke
Returns-imp h ran_out = ran_out

pub Returns-elim :
    {A : Type 0} (P : A → Type 0) (m : Outcome A) (a : A) → Returns P m → m ≡ ok a → P a
Returns-elim P _ a (returned b p) e = let same : b ≡ a = cc in rw same at p
Returns-elim P _ a (threw x) e = cc
Returns-elim P _ a broke e = cc
Returns-elim P _ a ran_out e = cc
