-- ===== src/Prelude/Errors.antt =====
-- Exceptions and the results of code that may raise.
use Prim.Native.String.{String}
use rumor_mill_ai.Prelude.Tests.{if◌then◌else◌}
use mathlib.Core.Path.{◌≡◌, refl}
use mathlib.Core.Bool.{Bool}

-- The exceptions that the modelled code raises or tells apart. `provider_error` carries the
-- error's code and `other` the name of any other exception class.
pub data Exc : Type 0 where
  value_error : String → Exc
  lookup_error : Exc
  key_error : Exc
  type_error : Exc
  lease_lost : Exc
  provider_error : String → Exc
  other : String → Exc

-- How a call ends: with an exception, or with a value.
pub data Result {ℓ} (T : Type ℓ) : Type ℓ where
  raise : Exc → Result T
  ok : T → Result T

-- `if b: raise e`
abbrev pub raise_if : Bool → Exc → Result (Unit {0})
raise_if b e = if b then raise e else ok tt

-- What follows a call runs only if the call did not raise.
infixl 5 ◌>>=◌
abbrev pub ◌>>=◌ {ℓ κ} : {T : Type ℓ} {S : Type κ} → Result T → (T → Result S) → Result S
raise exc >>= then_run = raise exc
ok value >>= then_run = then_run value

infixl 5 ◌>>◌
abbrev pub ◌>>◌ {κ} : {S : Type κ} → Result (Unit {0}) → Result S → Result S
check >> rest = check >>= λ checked. rest

-- A sequence that did not raise: its first call returned, and so did what follows.
pub >>=-eq-ok {ℓ κ} :
    {T : Type ℓ} {S : Type κ} (call : Result T) (then_run : T → Result S) {last : S}
    → (call >>= then_run) ≡ ok last
    → (value : T) × (call ≡ ok value) × (then_run value ≡ ok last)
>>=-eq-ok (raise exc) then_run e = cc
>>=-eq-ok (ok value) then_run e = (value, refl, e)
