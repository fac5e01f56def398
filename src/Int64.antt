-- ===== src/Int64.antt =====
-- src/l2dbus_int64.c: the 64-bit integers of Lua scripts. A value on the Lua stack is cast to an
-- `int64_t` and the result of an operator is what the new userdata holds.
pub mod Power
pub mod Cast
pub mod Division
pub mod Range
pub mod Ends
pub mod Text
use l2dbus.Base.{
  ℕ, zero, suc, ◌/◌, ◌%◌, Bool, true, false, none, some, List, [], ◌∷◌, ◌==◌, if◌then◌else◌, Result,
  ok, lua_error, out_of_fuel, Error, ◌>>=◌, ◌>>◌, guard,
}
use l2dbus.Base.Int.{ℤ, pos, pos_part, ltb_ℤ, leb_ℤ, eqb_ℤ}
use l2dbus.Boxed.{BaseArg, invalid_index, pushed, at, is_base, opt_int, read_int64, read_uint64}
use l2dbus.C.Words.{add64, sub64, mul64, div64, mod64, to_int64, double_to_int64}
use l2dbus.C.Strings.{Errno, strtoll}
use l2dbus.Lua.{Lua, LuaType}
use l2dbus.Util.{is_user_data}

-- The loop of `__pow`: the base is squared in the last round too.
unfoldable pub power_loop : ℕ → ℤ → ℕ → ℤ → Result ℤ
power_loop zero base exp result = out_of_fuel
power_loop (suc fuel) base exp result = elim (exp == 0) [
  | true ↦ ok result
  | false ↦ (if exp % 2 == 1 then mul64 result base else ok result) >>= λ result'.
      mul64 base base >>= λ base'. power_loop fuel base' (exp / 2) result'
]

-- An exponent of 63 bits takes 63 rounds, and one more to see that it is used up.
unfoldable pub power : ℤ → ℤ → Result ℤ
unfolding power_loop
power base exp = if ltb_ℤ exp (pos 0) then ok (pos 0) else power_loop 64 base (pos_part exp) (pos 1)

module _ (L : Lua) where
  open L use {Value, lua_type, to_number, to_string}

  -- The string case: only a zero result makes the code look at `errno`, which is not reset before.
  unfoldable pub cast_string : Errno → Value → BaseArg Value → Result (ℤ × Errno)
  cast_string errno num base = do
    b ← elim base [ invalid_index ↦ ok (pos 10) | pushed b ↦ ok b | at v ↦ opt_int L v (pos 10) ]
    guard (is_base b) Error.base_range
    let (value, errno') = strtoll L.sets_einval errno (pos_part b) (to_string num)
    if eqb_ℤ value (pos 0)
        then (elim errno' [
          | Errno.einval ↦ lua_error Error.unable_to_convert
          | Errno.erange ↦ lua_error Error.number_out_of_range
          | e ↦ ok (value, e)
        ])
        else ok (value, errno')

  unfoldable pub cast_userdata : Errno → Value → Result (ℤ × Errno)
  cast_userdata errno num = elim (is_user_data L num (some "l2dbus.int64")) [
    | some p ↦ do z ← read_int64 L p; ok (z, errno)
    | none ↦ elim (is_user_data L num (some "l2dbus.uint64")) [
      | some p ↦ do n ← read_uint64 L p; ok (to_int64 n, errno)
      | none ↦ lua_error Error.cannot_be_converted
    ]
  ]

  unfoldable pub int64_cast : Errno → Value → BaseArg Value → Result (ℤ × Errno)
  unfolding cast_string cast_userdata
  int64_cast errno num base = elim (lua_type num) [
    | LuaType.number ↦ do z ← double_to_int64 (to_number num); ok (z, errno)
    | LuaType.string ↦ cast_string errno num base
    | LuaType.userdata ↦ cast_userdata errno num
    | _ ↦ lua_error Error.cannot_be_converted
  ]

  -- Two operands, cast from left to right.
  unfoldable pub operands : Errno → Value → Value → Result (ℤ × ℤ)
  operands errno x y = do
    (a, errno') ← int64_cast errno x invalid_index
    (b, _) ← int64_cast errno' y invalid_index
    ok (a, b)

  -- `Int64.new(...)`: the cast takes the last two of the arguments.
  unfoldable pub new_int64 : Errno → List Value → Result ℤ
  new_int64 errno [] = ok (pos 0)
  new_int64 errno (x ∷ []) = do (z, _) ← int64_cast errno x (pushed (pos 10)); ok z
  new_int64 errno (x ∷ y ∷ []) = do (z, _) ← int64_cast errno x (at y); ok z
  new_int64 errno (x ∷ y ∷ w ∷ rest) = new_int64 errno (y ∷ w ∷ rest)

  -- `l2dbus_int64Create`, for the other modules.
  unfoldable pub int64_create : Errno → Value → ℤ → Result ℤ
  int64_create errno v base = do (z, _) ← int64_cast errno v (pushed base); ok z

  unfoldable pub int64_add : Errno → Value → Value → Result ℤ
  unfolding operands
  int64_add errno x y = do (a, b) ← operands errno x y; add64 a b

  unfoldable pub int64_subtract : Errno → Value → Value → Result ℤ
  unfolding operands
  int64_subtract errno x y = do (a, b) ← operands errno x y; sub64 a b

  unfoldable pub int64_multiply : Errno → Value → Value → Result ℤ
  unfolding operands
  int64_multiply errno x y = do (a, b) ← operands errno x y; mul64 a b

  unfoldable pub int64_divide : Errno → Value → Value → Result ℤ
  unfolding operands
  int64_divide errno x y = do (a, b) ← operands errno x y; div64 a b

  unfoldable pub int64_modulus : Errno → Value → Value → Result ℤ
  unfolding operands
  int64_modulus errno x y = do (a, b) ← operands errno x y; mod64 a b

  unfoldable pub int64_power : Errno → Value → Value → Result ℤ
  unfolding operands
  int64_power errno x y = do (a, b) ← operands errno x y; power a b

  unfoldable pub int64_negate : Errno → Value → Result ℤ
  int64_negate errno x = do (n, _) ← int64_cast errno x invalid_index; sub64 (pos 0) n

  unfoldable pub int64_equal : Errno → Value → Value → Result Bool
  unfolding operands
  int64_equal errno x y = do (a, b) ← operands errno x y; ok (eqb_ℤ a b)

  unfoldable pub int64_less_than : Errno → Value → Value → Result Bool
  unfolding operands
  int64_less_than errno x y = do (a, b) ← operands errno x y; ok (ltb_ℤ a b)

  unfoldable pub int64_less_equal : Errno → Value → Value → Result Bool
  unfolding operands
  int64_less_equal errno x y = do (a, b) ← operands errno x y; ok (leb_ℤ a b)
