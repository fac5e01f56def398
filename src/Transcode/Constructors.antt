-- ===== src/Transcode/Constructors.antt =====
-- The constructors of the wrappers of src/l2dbus_transcode.c, and what can be asked of a wrapper.
pub mod Stored
use l2dbus.Base.{
  ℕ, Bool, true, false, Option, none, some, List, [], ◌∷◌, ◌==◌, if◌then◌else◌, Result, ok,
  lua_error, out_of_fuel, Error, ◌>>=◌,
}
use l2dbus.Base.Int.{ℤ, pos}
use l2dbus.Boxed.{check_type, check_string}
use l2dbus.C.Strings.{Errno}
use l2dbus.Dbus.{DbusType, code}
use l2dbus.Int64.{int64_create}
use l2dbus.Lua.{Lua, LuaType, Bytes}
use l2dbus.Transcode.Message.{Sig, Sigs, followed, Library}
use l2dbus.Transcode.Tables.{Check, item, is_table_dictionary, is_table_array, is_table_structure}
use l2dbus.Transcode.Wrapper.{query_dbus_type_id}
use l2dbus.Types.{
  TypeId, dbus_invalid_type_id, dbus_byte_type_id, dbus_boolean_type_id, dbus_int16_type_id,
  dbus_uint16_type_id, dbus_int32_type_id, dbus_uint32_type_id, dbus_int64_type_id,
  dbus_uint64_type_id, dbus_double_type_id, dbus_string_type_id, dbus_object_path_type_id,
  dbus_signature_type_id, dbus_array_type_id, dbus_struct_type_id, dbus_variant_type_id,
  dbus_dict_entry_type_id, dbus_unix_fd_type_id,
}
use l2dbus.Uint64.{uint64_create}
use l2dbus.Userdata.{top}

-- What is wrapped: an argument, an integer that is boxed for it, or nil.
pub data Content (V : Type 0) : Type 0 where
  nil : Content V
  given : V → Content V
  boxed_int64 : ℤ → Content V
  boxed_uint64 : ℕ → Content V

-- A new `l2dbus_DbusValue` with its type, and the value that its table keeps under `valueRef`.
pub record Wrapped (V : Type 0) : Type 0 where
  pub type_id : TypeId
  pub signature : Option Bytes
  pub content : Content V

-- The first type of a signature is of the kind of a container.
abbrev pub is_array : Sigs → Bool
is_array (followed (Sig.array s) ss) = true
is_array (followed (Sig.dict k w) ss) = true
is_array _ = false

abbrev pub is_dict : Sigs → Bool
is_dict (followed (Sig.dict k w) ss) = true
is_dict _ = false

abbrev pub is_struct : Sigs → Bool
is_struct (followed (Sig.struct fields) ss) = true
is_struct _ = false

abbrev pub is_variant : Sigs → Bool
is_variant (followed Sig.variant ss) = true
is_variant _ = false

unfoldable pub describes : TypeId → Sigs → Bool
describes id ss =
    if id == dbus_array_type_id
    then is_array ss
    else if id == dbus_struct_type_id
    then is_struct ss
    else if id == dbus_variant_type_id
    then is_variant ss
    else if id == dbus_dict_entry_type_id
    then is_dict ss
    else true

-- `has_room` says whether there is memory for the copy of a signature.
module _ (L : Lua) (B : Library) (has_room : Bytes → Bool) (fuel : ℕ) where
  open L use {Value, lua_type}
  open B use {parse}

  -- The signature that new userdata keeps.
  unfoldable pub new_userdata : TypeId → Option Bytes → Result (Option Bytes)
  new_userdata id none = ok none
  new_userdata id (some s) = elim (parse s) [
    | none ↦ lua_error Error.invalid_signature
    | some ss ↦
        if describes id ss
        then if has_room s then ok (some s) else lua_error Error.no_memory
        else lua_error Error.not_described
  ]

  unfoldable pub wrap : TypeId → Option Bytes → Content Value → Result (Wrapped Value)
  wrap id signature content = do
    kept ← new_userdata id signature
    ok (record { type_id = id; signature = kept; content = content })

  -- The type of the first argument is checked; the value is what stands below the new userdata on
  -- the stack, which is the last argument.
  unfoldable pub new_plain : TypeId → LuaType → List Value → Result (Wrapped Value)
  new_plain id t [] = lua_error Error.argument_type
  new_plain id t (v ∷ more) = do _ ← check_type L v t; wrap id none (Content.given (top L v more))

  unfoldable pub new_invalid : List Value → Result (Wrapped Value)
  new_invalid args = wrap dbus_invalid_type_id none Content.nil

  unfoldable pub new_byte : List Value → Result (Wrapped Value)
  new_byte = new_plain dbus_byte_type_id LuaType.number

  unfoldable pub new_boolean : List Value → Result (Wrapped Value)
  new_boolean = new_plain dbus_boolean_type_id LuaType.boolean

  unfoldable pub new_int16 : List Value → Result (Wrapped Value)
  new_int16 = new_plain dbus_int16_type_id LuaType.number

  unfoldable pub new_uint16 : List Value → Result (Wrapped Value)
  new_uint16 = new_plain dbus_uint16_type_id LuaType.number

  unfoldable pub new_int32 : List Value → Result (Wrapped Value)
  new_int32 = new_plain dbus_int32_type_id LuaType.number

  unfoldable pub new_uint32 : List Value → Result (Wrapped Value)
  new_uint32 = new_plain dbus_uint32_type_id LuaType.number

  unfoldable pub new_double : List Value → Result (Wrapped Value)
  new_double = new_plain dbus_double_type_id LuaType.number

  unfoldable pub new_string : List Value → Result (Wrapped Value)
  new_string = new_plain dbus_string_type_id LuaType.string

  unfoldable pub new_object_path : List Value → Result (Wrapped Value)
  new_object_path = new_plain dbus_object_path_type_id LuaType.string

  unfoldable pub new_signature : List Value → Result (Wrapped Value)
  new_signature = new_plain dbus_signature_type_id LuaType.string

  unfoldable pub new_unix_fd : List Value → Result (Wrapped Value)
  new_unix_fd = new_plain dbus_unix_fd_type_id LuaType.number

  -- A copy of the converted value is wrapped.
  unfoldable pub new_dbus_int64 : Errno → Value → Result (Wrapped Value)
  new_dbus_int64 errno v = do
    z ← int64_create L errno v (pos 10)
    wrap dbus_int64_type_id none (Content.boxed_int64 z)

  unfoldable pub new_dbus_uint64 : Errno → Value → Result (Wrapped Value)
  new_dbus_uint64 errno v = do
    n ← uint64_create L errno v (pos 10)
    wrap dbus_uint64_type_id none (Content.boxed_uint64 n)

  -- luaL_optstring
  unfoldable pub opt_string : List Value → Result (Option Bytes)
  opt_string [] = ok none
  opt_string (v ∷ more) = elim (lua_type v) [
    | LuaType.nil ↦ ok none
    | _ ↦ do s ← check_string L v; ok (some s)
  ]

  -- luaL_argcheck of a check that is run by fuel.
  abbrev pub passed : Check → Result (Unit {0})
  passed none = out_of_fuel
  passed (some true) = ok tt
  passed (some false) = lua_error Error.cannot_be_converted

  unfoldable pub new_container : TypeId → (Value → Check) → List Value → Result (Wrapped Value)
  new_container id check [] = lua_error Error.cannot_be_converted
  new_container id check (v ∷ more) = do
    _ ← passed (check v)
    signature ← opt_string more
    wrap id signature (Content.given v)

  unfoldable pub new_array : List Value → Result (Wrapped Value)
  new_array = new_container dbus_array_type_id (is_table_array L fuel)

  unfoldable pub new_dictionary : List Value → Result (Wrapped Value)
  new_dictionary = new_container dbus_dict_entry_type_id (is_table_dictionary L fuel)

  unfoldable pub new_structure : List Value → Result (Wrapped Value)
  new_structure = new_container dbus_struct_type_id (is_table_structure L fuel)

  -- A number, a Boolean, a string, a table that is a dictionary, or userdata that can be sent.
  unfoldable pub new_variant : List Value → Result (Wrapped Value)
  new_variant = new_container dbus_variant_type_id (item L (is_table_dictionary L fuel))

  unfoldable pub get_type_id : Value → Result ℕ
  get_type_id v = elim (query_dbus_type_id L v) [
    | none ↦ lua_error Error.argument_type
    | some t ↦ ok (code t)
  ]
