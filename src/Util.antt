-- ===== src/Util.antt =====
-- src/l2dbus_util.c: what a userdata is, by its metatable and its type identifier.
use Prim.Native.String.{String}
use l2dbus.Base.{ℕ, ◌||◌, Option, none, some, leb, if◌then◌else◌}
use l2dbus.Base.Int.{ℤ}
use l2dbus.C.Words.{to_uint32}
use l2dbus.Lua.{Lua, LuaType}
use l2dbus.Types.{TypeId, start_type_id, end_type_id, invalid_type_id, get_name_by_type_id}

-- The cast of a Lua integer to the enumeration, an `unsigned int`, and the test of its range.
unfoldable pub to_type_id : ℤ → TypeId
unfolding to_uint32
to_type_id z =
    let id = to_uint32 z in
    if leb id start_type_id || leb end_type_id id then invalid_type_id else id

module _ (L : Lua) where
  open L use {Value, lua_type, to_integer, get_field, touserdata, metatable, registry, raw_equal}

  -- The address of the userdata if its metatable is the registered one.
  unfoldable pub is_user_data : Value → Option String → Option ℕ
  is_user_data v type_name = elim (touserdata v) [
    | none ↦ none
    | some p ↦ elim (metatable v) [
      | none ↦ none
      | some mt ↦ elim type_name [
        | none ↦ none
        | some name ↦ if raw_equal (registry name) mt then some p else none
      ]
    ]
  ]

  unfoldable pub get_meta_type_id : Value → TypeId
  unfolding to_type_id
  get_meta_type_id v = elim (lua_type v) [
    | LuaType.userdata ↦
        let id = get_field v "__typeId" in
        elim (lua_type id) [ LuaType.number ↦ to_type_id (to_integer id) | _ ↦ invalid_type_id ]
    | _ ↦ invalid_type_id
  ]

  -- `lua_typename` stands for a value without a valid identifier. The code calls it with an index of the stack
  -- in place of a type; what it returns then is the parameter `typename`, and is no name of a metatable.
  unfoldable pub get_type_name : String → Value → Option String
  get_type_name typename v =
      let type_id = get_meta_type_id v in
      if leb type_id invalid_type_id then some typename else get_name_by_type_id type_id
