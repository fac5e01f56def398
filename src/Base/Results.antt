-- ===== src/Base/Results.antt =====
-- What a call of the modelled code comes to, and the chains of such calls.
use mathlib.Core.Path.{◌≡◌, refl}
use mathlib.Core.Logic.{◌≢◌}
use mathlib.Core.Bool.{Bool, true, false}

-- The messages of `luaL_error` and `luaL_argcheck`, by what they complain of.
pub data Error : Type 0 where
  base_range unable_to_convert number_out_of_range : Error
  cannot_be_converted unsupported_base : Error
  invalid_signature not_described cannot_convert_argument : Error
  no_memory mismatch no_message no_signature : Error
  argument_type : Error
  cannot_append cannot_open cannot_close cannot_convert_signature no_variant_signature : Error
  table_index checkstack invalid_name invalid_path raised refused_description : Error
  not_initialized too_few_arguments no_events cdbus_failure : Error

-- What the C standard leaves undefined, where the code can come to it.
pub data Fault : Type 0 where
  signed_overflow division_by_zero float_range : Fault
  out_of_bounds_read null_pointer dangling_pointer double_free mismatched_free confused_next : Fault

-- `lua_error` leaves the C function by a long jump; `undefined` is undefined behaviour;
-- `out_of_fuel` is a recursion that was cut off.
pub data Result {ℓ} (A : Type ℓ) : Type ℓ where
  ok : A → Result A
  lua_error : Error → Result A
  undefined : Fault → Result A
  out_of_fuel : Result A

infixl 5 ◌>>=◌ ◌>>◌
-- Only `ok` goes on to the rest of a chain.
abbrev pub ◌>>=◌ {ℓ₁ ℓ₂} : {X : Type ℓ₁} {Y : Type ℓ₂} → Result X → (X → Result Y) → Result Y
out_of_fuel >>= next = out_of_fuel
undefined fault >>= next = undefined fault
lua_error error >>= next = lua_error error
ok x >>= next = next x

abbrev pub ◌>>◌ {ℓ₂} : {Y : Type ℓ₂} → Result (Unit {0}) → Result Y → Result Y
first >> next = first >>= λ u. next

-- `luaL_argcheck` and the like.
abbrev pub guard : Bool → Error → Result (Unit {0})
guard false error = lua_error error
guard true error = ok tt

-- Inversion of a successful chain.
pub >>=-eq-ok {ℓ₁ ℓ₂} :
    {X : Type ℓ₁} {Y : Type ℓ₂} (first : Result X) (next : X → Result Y) {y : Y}
    → first >>= next ≡ ok y
    → (x : X) × (first ≡ ok x) × (next x ≡ ok y)
>>=-eq-ok out_of_fuel next e = cc
>>=-eq-ok (undefined fault) next e = cc
>>=-eq-ok (lua_error error) next e = cc
>>=-eq-ok (ok x) next e = (x, refl, e)

pub >>-eq-ok {ℓ₂} :
    {Y : Type ℓ₂} (first : Result (Unit {0})) (next : Result Y) {y : Y}
    → first >> next ≡ ok y
    → next ≡ ok y
>>-eq-ok out_of_fuel next e = cc
>>-eq-ok (undefined fault) next e = cc
>>-eq-ok (lua_error error) next e = cc
>>-eq-ok (ok x) next e = e

-- The call was not cut off.
abbrev pub Ends {ℓ} : {A : Type ℓ} → Result A → Type ℓ
Ends r = r ≢ out_of_fuel

pub >>=-Ends {ℓ κ} :
    {A : Type ℓ} {B : Type κ} (m : Result A) (f : A → Result B)
    → Ends m
    → ((a : A) → Ends (f a))
    → Ends (m >>= f)
>>=-Ends (ok a) f h k = k a
>>=-Ends (lua_error e) f h k = λ p. cc
>>=-Ends (undefined u) f h k = λ p. cc
>>=-Ends out_of_fuel f h k = absurd (h refl)

-- The same where the rest ends on what the call returns.
pub >>=-Ends_on {ℓ₁ ℓ₂} :
    {X : Type ℓ₁} {Y : Type ℓ₂} (first : Result X) (next : X → Result Y)
    → Ends first
    → ((x : X) → first ≡ ok x → Ends (next x))
    → Ends (first >>= next)
>>=-Ends_on out_of_fuel next h k = absurd (h refl)
>>=-Ends_on (undefined fault) next h k = λ p. cc
>>=-Ends_on (lua_error error) next h k = λ p. cc
>>=-Ends_on (ok x) next h k = k x refl
