-- ===== src/Boxed.antt =====
-- What src/l2dbus_int64.c and src/l2dbus_uint64.c share: the arguments of a cast, and the reading of a
-- boxed integer through its pointer.
use Prim.Native.String.{String}
use l2dbus.Util.{is_user_data}
use l2dbus.Base.{
  ◌==◌, [], ◌∷◌, Option, none, some, ℕ, Bool, ◌&&◌, ◌||◌, not, if◌then◌else◌, Result, ok, lua_error,
  undefined, Error, Fault,
}
use l2dbus.Base.Int.{ℤ, pos, ltb_ℤ, eqb_ℤ}
use l2dbus.C.Words.{to_int32}
use l2dbus.Lua.{Lua, LuaType, Block, Bytes, type_code}

-- `*base` may be 0, which lets `strtoll` choose, or 2 to 36.
unfoldable pub is_base : ℤ → Bool
is_base base = not ((ltb_ℤ base (pos 2) || ltb_ℤ (pos 36) base) && not (eqb_ℤ base (pos 0)))

-- The argument `baseIdx`: an index that is not valid, an integer pushed by the caller, or a value.
pub data BaseArg {ℓ} (V : Type ℓ) : Type ℓ where
  invalid_index : BaseArg V
  pushed : ℤ → BaseArg V
  at : V → BaseArg V

-- The bytes in front of the first NUL.
abbrev pub c_string : Bytes → Bytes
c_string [] = []
c_string (c ∷ s) = let rest = c_string s in if c == 0 then [] else c ∷ rest

module _ (L : Lua) where
  open L use {Value, lua_type, is_number, to_integer, to_string, block}

  -- luaL_optint
  unfoldable pub opt_int : Value → ℤ → Result ℤ
  opt_int v default = elim (lua_type v) [
    | LuaType.nil ↦ ok default
    | LuaType.no_type ↦ ok default
    | _ ↦ if is_number v then ok (to_int32 (to_integer v)) else lua_error Error.argument_type
  ]

  -- A pointer to an `l2dbus_Int64`, or to an `l2dbus_Uint64`, is read through.
  unfoldable pub read_int64 : ℕ → Result ℤ
  read_int64 p = elim (block p) [ Block.int64 z ↦ ok z | _ ↦ undefined Fault.out_of_bounds_read ]

  unfoldable pub read_uint64 : ℕ → Result ℕ
  read_uint64 p = elim (block p) [ Block.uint64 n ↦ ok n | _ ↦ undefined Fault.out_of_bounds_read ]

  -- luaL_checkudata tests the metatable as `l2dbus_isUserData` does, and raises an error otherwise.
  unfoldable pub check_udata : Value → String → Result ℕ
  check_udata v name = elim (is_user_data L v (some name)) [
    | none ↦ lua_error Error.argument_type
    | some p ↦ ok p
  ]

  -- The argument 2 of `toString`: base 10 where it is not given, else luaL_checkinteger as an `int`.
  unfoldable pub base_argument : Option Value → Result ℤ
  base_argument none = ok (pos 10)
  base_argument (some b) =
      if is_number b then ok (to_int32 (to_integer b)) else lua_error Error.argument_type

  -- luaL_checkint
  unfoldable pub check_int : Value → Result ℤ
  check_int v = if is_number v then ok (to_int32 (to_integer v)) else lua_error Error.argument_type

  -- luaL_checktype
  unfoldable pub check_type : Value → LuaType → Result (Unit {0})
  check_type v t =
      if type_code (lua_type v) == type_code t then ok tt else lua_error Error.argument_type

  -- luaL_checkany
  unfoldable pub check_any : Value → Result (Unit {0})
  check_any v =
      if type_code (lua_type v) == type_code LuaType.no_type
      then lua_error Error.argument_type
      else ok tt

  -- luaL_checkstring: the code reads the string up to its first NUL.
  unfoldable pub check_string : Value → Result Bytes
  check_string v = elim (lua_type v) [
    | LuaType.string ↦ ok (c_string (to_string v))
    | LuaType.number ↦ ok (c_string (to_string v))
    | _ ↦ lua_error Error.argument_type
  ]
