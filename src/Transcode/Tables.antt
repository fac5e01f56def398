-- ===== src/Transcode/Tables.antt =====
-- `l2dbus_dbusIsTableDictionary`, `...IsTableArray`, `...IsTableStructure` and
-- `l2dbus_transcodeMapLuaToDbusType` of src/l2dbus_transcode.c. The check of a dictionary calls
-- itself on the tables it holds, by fuel: `none` is a recursion that was cut off.
pub mod Order
pub mod Fuel
pub mod Spec
use l2dbus.Base.{
  ℕ, zero, suc, ◌+◌, Bool, true, false, not, ◌&&◌, ◌||◌, Option, none, some, List, [], ◌∷◌, ◌==◌,
  if◌then◌else◌,
}
use l2dbus.Dbus.{DbusType, is_basic}
use l2dbus.Lua.{Lua, LuaType, type_code}
use l2dbus.Transcode.NumType.{calc_dbus_num_type}
use l2dbus.Transcode.Wrapper.{query_dbus_type_id, is_sendable, is_sendable_id, is_found}
use l2dbus.Types.{TypeId, int64_type_id, uint64_type_id, invalid_type_id, get_name_by_type_id}
use l2dbus.Util.{is_user_data, get_meta_type_id}

-- A verdict, or the recursion was cut off.
abbrev pub Check : Type 0
Check = Option Bool

-- `else` is run where the first check passes.
abbrev pub and_then : Check → Check → Check
and_then none next = none
and_then (some true) next = next
and_then (some false) next = some false

module _ (L : Lua) where
  open L use {Value, lua_type, is_number, to_number, entries, raw_len}

  -- A key has to be of a basic D-Bus type.
  unfoldable pub dict_key : Value → Bool
  dict_key k = elim (lua_type k) [
    | LuaType.number ↦ true
    | LuaType.boolean ↦ true
    | LuaType.string ↦ true
    | LuaType.userdata ↦ elim (query_dbus_type_id L k) [
      | none ↦ let id = get_meta_type_id L k in id == int64_type_id || id == uint64_type_id
      | some t ↦ is_basic t
    ]
    | _ ↦ false
  ]

  -- A value of a dictionary or a structure; `nested` checks a table as a dictionary.
  unfoldable pub item : (Value → Check) → Value → Check
  item nested v = elim (lua_type v) [
    | LuaType.number ↦ some true
    | LuaType.boolean ↦ some true
    | LuaType.string ↦ some true
    | LuaType.table ↦ nested v
    | LuaType.userdata ↦ some (is_sendable L v)
    | _ ↦ some false
  ]

  unfoldable pub dict_entries : (Value → Check) → List (Value × Value) → Check
  dict_entries nested [] = some true
  dict_entries nested ((k, v) ∷ es) =
      let rest = dict_entries nested es in
      if dict_key k then and_then (item nested v) rest else some false

  unfoldable pub is_table_dictionary : ℕ → Value → Check
  is_table_dictionary zero t = none
  is_table_dictionary (suc fuel) t = elim (lua_type t) [
    | LuaType.table ↦ dict_entries (is_table_dictionary fuel) (entries t)
    | _ ↦ some false
  ]

  -- The Lua type and the metatable identifier that the items before agreed on. The first userdata
  -- is checked to be sendable, the later ones to have its identifier.
  unfoldable pub array_item : (Value → Check) → TypeId → Value → Check
  array_item nested seen v = elim (lua_type v) [
    | LuaType.number ↦ some true
    | LuaType.boolean ↦ some true
    | LuaType.string ↦ some true
    | LuaType.table ↦ nested v
    | LuaType.userdata ↦
        some (if seen == invalid_type_id then is_sendable L v else seen == get_meta_type_id L v)
    | _ ↦ some false
  ]

  -- What `metaTypeId` holds after an item.
  unfoldable pub seen_after : TypeId → Value → TypeId
  seen_after seen v = elim (lua_type v) [
    | LuaType.userdata ↦ if seen == invalid_type_id then get_meta_type_id L v else seen
    | _ ↦ seen
  ]

  abbrev same_type : Option LuaType → LuaType → Bool
  same_type none t = true
  same_type (some s) t = type_code s == type_code t

  -- `luaType` and `metaTypeId`, and the number of items in the end against `lua_rawlen`.
  unfoldable pub array_entries :
      (Value → Check) → Option LuaType → TypeId → ℕ → ℕ → List (Value × Value) → Check
  array_entries nested kind seen count len [] = some (count == len)
  array_entries nested kind seen count len ((k, v) ∷ es) =
      let rest = array_entries nested (some (lua_type v)) (seen_after seen v) (count + 1) len es in
      if is_number k && same_type kind (lua_type v)
      then and_then (array_item nested seen v) rest
      else some false

  unfoldable pub is_table_array : ℕ → Value → Check
  is_table_array zero t = none
  is_table_array (suc fuel) t = elim (lua_type t) [
    | LuaType.table ↦
        array_entries (is_table_dictionary fuel) none invalid_type_id 0 (raw_len t) (entries t)
    | _ ↦ some false
  ]

  unfoldable pub struct_entries : (Value → Check) → ℕ → ℕ → List (Value × Value) → Check
  struct_entries nested count len [] = some (count == len)
  struct_entries nested count len ((k, v) ∷ es) =
      let rest = struct_entries nested (count + 1) len es in
      if is_number k then and_then (item nested v) rest else some false

  unfoldable pub is_table_structure : ℕ → Value → Check
  is_table_structure zero t = none
  is_table_structure (suc fuel) t = elim (lua_type t) [
    | LuaType.table ↦ struct_entries (is_table_dictionary fuel) 0 (raw_len t) (entries t)
    | _ ↦ some false
  ]

  -- From the most restrictive to the least.
  pub table_type : Check → Check → Check → Option DbusType
  table_type none struct dict = none
  table_type (some true) struct dict = some DbusType.array
  table_type (some false) none dict = none
  table_type (some false) (some true) dict = some DbusType.struct
  table_type (some false) (some false) none = none
  table_type (some false) (some false) (some true) = some DbusType.dict_entry
  table_type (some false) (some false) (some false) = some DbusType.invalid

  userdata_type : Value → DbusType
  userdata_type v =
      let id = get_meta_type_id L v in
      if id == int64_type_id
      then DbusType.int64
      else if id == uint64_type_id
      then DbusType.uint64
      else elim (query_dbus_type_id L v) [ none ↦ DbusType.invalid | some t ↦ t ]

  -- `DBUS_TYPE_INVALID` for what cannot be sent.
  unfoldable pub map_lua_to_dbus_type : ℕ → Value → Option DbusType
  unfolding table_type userdata_type
  map_lua_to_dbus_type fuel v = elim (lua_type v) [
    | LuaType.number ↦ some (calc_dbus_num_type (to_number v))
    | LuaType.boolean ↦ some DbusType.boolean
    | LuaType.string ↦ some DbusType.string
    | LuaType.table ↦
        table_type (is_table_array fuel v) (is_table_structure fuel v) (is_table_dictionary fuel v)
    | LuaType.userdata ↦ some (userdata_type v)
    | _ ↦ some DbusType.invalid
  ]
