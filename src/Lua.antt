-- ===== src/Lua.antt =====
-- The Lua virtual machine as the C code sees it through the Lua C API. The machine is not part of
-- the repository: it is the parameter `Lua`, a snapshot of a state in which the functions of the
-- API that the modelled code calls are the fields. What the code relies on stands in `Lua.Laws`.
pub mod Laws
pub mod Refs
pub mod Slots
use Prim.Native.String.{String}
use l2dbus.Base.{ℕ, List, Option, Bool}
use l2dbus.Base.Int.{ℤ}

-- The results of `lua_type`, `no_type` for `LUA_TNONE`.
pub data LuaType : Type 0 where
  no_type nil boolean light_userdata number string table function userdata thread : LuaType

abbrev pub type_code : LuaType → ℕ
type_code LuaType.no_type = 10
type_code LuaType.nil = 0
type_code LuaType.boolean = 1
type_code LuaType.light_userdata = 2
type_code LuaType.number = 3
type_code LuaType.string = 4
type_code LuaType.table = 5
type_code LuaType.function = 6
type_code LuaType.userdata = 7
type_code LuaType.thread = 8

-- A `lua_Number` is a C double: a finite one is ±(whole + fraction / 2^1074).
pub data LuaNumber : Type 0 where
  nan : LuaNumber
  infinite : (negative : Bool) → LuaNumber
  finite : (negative : Bool) (whole fraction : ℕ) → LuaNumber

-- A C string without its terminating zero.
abbrev pub Bytes : Type 0
Bytes = List ℕ

-- What the memory block of a full userdata holds: the structures of this library, or something else.
pub data Block : Type 0 where
  int64 : ℤ → Block
  uint64 : ℕ → Block
  dbus_value : (value_ref : ℕ) (signature : Option Bytes) → Block
  foreign : Block

pub record Lua : Type 1 where
  -- of the C library: whether strtoll and strtoull set EINVAL where a string has no digits, as POSIX lets them
  pub sets_einval : Bool
  pub Value : Type 0
  pub lua_type : Value → LuaType
  -- lua_isnumber: a number, or a string that converts to one
  pub is_number : Value → Bool
  pub to_number : Value → LuaNumber
  pub to_integer : Value → ℤ
  pub to_boolean : Value → Bool
  -- lua_tostring, for a string or a number
  pub to_string : Value → Bytes
  -- the pairs that `lua_next` hands out, in its order
  pub entries : Value → List (Value × Value)
  pub raw_len : Value → ℕ
  pub raw_get_i : Value → ℕ → Value
  pub get_field : Value → String → Value
  -- whether lua_getfield raises an error, as a metamethod __index may
  pub raises : Value → String → Bool
  pub touserdata : Value → Option ℕ
  pub metatable : Value → Option Value
  -- a field of the registry
  pub registry : String → Value
  pub raw_equal : Value → Value → Bool
  pub user_value : Value → Value
  -- the block at the address of a full userdata
  pub block : ℕ → Block
