-- ===== src/Uint64.antt =====
-- src/l2dbus_uint64.c: the unsigned 64-bit integers of Lua scripts. A value on the Lua stack is cast
-- to a `uint64_t` and the result of an operator is what the new userdata holds.
pub mod Power
pub mod Range
pub mod Ring
pub mod Text
use l2dbus.Base.{
  ℕ, zero, suc, ◌+◌, ◌-◌, ◌*◌, ◌/◌, ◌%◌, Bool, none, some, List, [], ◌∷◌, ltb, leb, ◌==◌,
  if◌then◌else◌, Result, ok, lua_error, undefined, out_of_fuel, Error, Fault, ◌>>=◌, ◌>>◌, guard,
}
use l2dbus.Base.Int.{ℤ, pos, pos_part}
use l2dbus.Boxed.{BaseArg, invalid_index, pushed, at, is_base, opt_int, read_int64, read_uint64}
use l2dbus.C.Words.{u64_mod, to_uint64, double_to_uint64}
use l2dbus.C.Strings.{Errno, strtoull}
use l2dbus.Lua.{Lua, LuaType}
use l2dbus.Util.{is_user_data}

-- The loop of `__pow`.
unfoldable pub power_loop : ℕ → ℕ → ℕ → ℕ → Result ℕ
power_loop zero base exp result = out_of_fuel
power_loop (suc fuel) base exp result =
    let result' = if exp % 2 == 1 then result * base % u64_mod else result in
    let rest = power_loop fuel (base * base % u64_mod) (exp / 2) result' in
    if exp == 0 then ok result else rest

-- An exponent of 64 bits takes 64 rounds, and one more to see that it is used up.
unfoldable pub power : ℕ → ℕ → Result ℕ
unfolding power_loop
power base exp = power_loop 65 base exp 1

module _ (L : Lua) where
  open L use {Value, lua_type, to_number, to_string}

  -- The string case: only a zero result makes the code look at `errno`, which is not reset before.
  unfoldable pub cast_string : Errno → Value → BaseArg Value → Result (ℕ × Errno)
  cast_string errno num base = do
    b ← elim base [ invalid_index ↦ ok (pos 10) | pushed b ↦ ok b | at v ↦ opt_int L v (pos 10) ]
    guard (is_base b) Error.base_range
    let (value, errno') = strtoull L.sets_einval errno (pos_part b) (to_string num)
    if value == 0
        then (elim errno' [
          | Errno.einval ↦ lua_error Error.unable_to_convert
          | Errno.erange ↦ lua_error Error.number_out_of_range
          | e ↦ ok (value, e)
        ])
        else ok (value, errno')

  unfoldable pub cast_userdata : Errno → Value → Result (ℕ × Errno)
  cast_userdata errno num = elim (is_user_data L num (some "l2dbus.uint64")) [
    | some p ↦ do n ← read_uint64 L p; ok (n, errno)
    | none ↦ elim (is_user_data L num (some "l2dbus.int64")) [
      | some p ↦ do z ← read_int64 L p; ok (to_uint64 z, errno)
      | none ↦ lua_error Error.cannot_be_converted
    ]
  ]

  unfoldable pub uint64_cast : Errno → Value → BaseArg Value → Result (ℕ × Errno)
  unfolding cast_string cast_userdata
  uint64_cast errno num base = elim (lua_type num) [
    | LuaType.number ↦ do z ← double_to_uint64 (to_number num); ok (z, errno)
    | LuaType.string ↦ cast_string errno num base
    | LuaType.userdata ↦ cast_userdata errno num
    | _ ↦ lua_error Error.cannot_be_converted
  ]

  -- Two operands, cast from left to right.
  unfoldable pub operands : Errno → Value → Value → Result (ℕ × ℕ)
  operands errno x y = do
    (a, errno') ← uint64_cast errno x invalid_index
    (b, _) ← uint64_cast errno' y invalid_index
    ok (a, b)

  -- `Uint64.new(...)`: the cast takes the last two of the arguments.
  unfoldable pub new_uint64 : Errno → List Value → Result ℕ
  new_uint64 errno [] = ok 0
  new_uint64 errno (x ∷ []) = do (z, _) ← uint64_cast errno x (pushed (pos 10)); ok z
  new_uint64 errno (x ∷ y ∷ []) = do (z, _) ← uint64_cast errno x (at y); ok z
  new_uint64 errno (x ∷ y ∷ w ∷ rest) = new_uint64 errno (y ∷ w ∷ rest)

  -- `l2dbus_uint64Create`, for the other modules.
  unfoldable pub uint64_create : Errno → Value → ℤ → Result ℕ
  uint64_create errno v base = do (z, _) ← uint64_cast errno v (pushed base); ok z

  unfoldable pub uint64_add : Errno → Value → Value → Result ℕ
  unfolding operands
  uint64_add errno x y = do (a, b) ← operands errno x y; ok ((a + b) % u64_mod)

  unfoldable pub uint64_subtract : Errno → Value → Value → Result ℕ
  unfolding operands
  uint64_subtract errno x y = do (a, b) ← operands errno x y; ok ((a + u64_mod - b) % u64_mod)

  unfoldable pub uint64_multiply : Errno → Value → Value → Result ℕ
  unfolding operands
  uint64_multiply errno x y = do (a, b) ← operands errno x y; ok (a * b % u64_mod)

  unfoldable pub uint64_divide : Errno → Value → Value → Result ℕ
  unfolding operands
  uint64_divide errno x y = do
    (a, b) ← operands errno x y
    if b == 0 then undefined Fault.division_by_zero else ok (a / b)

  unfoldable pub uint64_modulus : Errno → Value → Value → Result ℕ
  unfolding operands
  uint64_modulus errno x y = do
    (a, b) ← operands errno x y
    if b == 0 then undefined Fault.division_by_zero else ok (a % b)

  unfoldable pub uint64_power : Errno → Value → Value → Result ℕ
  unfolding operands
  uint64_power errno x y = do (a, b) ← operands errno x y; power a b

  unfoldable pub uint64_negate : Errno → Value → Result ℕ
  uint64_negate errno x = do
    (n, _) ← uint64_cast errno x invalid_index
    ok ((u64_mod - n) % u64_mod)

  unfoldable pub uint64_equal : Errno → Value → Value → Result Bool
  unfolding operands
  uint64_equal errno x y = do (a, b) ← operands errno x y; ok (a == b)

  unfoldable pub uint64_less_than : Errno → Value → Value → Result Bool
  unfolding operands
  uint64_less_than errno x y = do (a, b) ← operands errno x y; ok (ltb a b)

  unfoldable pub uint64_less_equal : Errno → Value → Value → Result Bool
  unfolding operands
  uint64_less_equal errno x y = do (a, b) ← operands errno x y; ok (leb a b)
