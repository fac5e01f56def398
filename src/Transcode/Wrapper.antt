-- ===== src/Transcode/Wrapper.antt =====
-- The userdata of src/l2dbus_transcode.c that wrap a value together with a D-Bus type, and how the
-- wrapped value and the cached signature are read back.
use l2dbus.Base.{
  ℕ, Bool, ◌||◌, ◌&&◌, not, Option, none, some, ltb, ◌==◌, if◌then◌else◌, Result, ok, undefined,
  Fault, ◌>>=◌, Ends, arith,
}
use l2dbus.Dbus.{DbusType, of_code}
use l2dbus.Lua.{Lua, LuaType, Block, Bytes}
use l2dbus.Types.{
  TypeId, int64_type_id, uint64_type_id, start_dbus_type_id, end_dbus_type_id, dbus_invalid_type_id,
  get_name_by_type_id,
}
use l2dbus.Util.{is_user_data, get_meta_type_id, get_type_name}

-- The type identifiers of what can be sent: Int64, Uint64 and the wrappers but `Invalid`.
unfoldable pub is_sendable_id : TypeId → Bool
is_sendable_id id =
    id == int64_type_id
    || id == uint64_type_id
    || (ltb start_dbus_type_id id && ltb id end_dbus_type_id && not (id == dbus_invalid_type_id))

abbrev pub is_found {ℓ} : {A : Type ℓ} → Option A → Bool
is_found none = Bool.false
is_found (some _) = Bool.true

module _ (L : Lua) where
  open L use {
    Value, lua_type, is_number, to_integer, get_field, touserdata, user_value, raw_get_i, block,
  }

  -- `none` where the value is no wrapper.
  unfoldable pub query_dbus_type_id : Value → Option DbusType
  query_dbus_type_id v = elim (lua_type v) [
    | LuaType.userdata ↦
        let id = get_field v "__dbusTypeId" in
        if is_number id then of_code (to_integer id) else none
    | _ ↦ none
  ]

  -- A userdata of this library whose value can be sent.
  unfoldable pub is_sendable : Value → Bool
  is_sendable v =
      let id = get_meta_type_id L v in
      is_found (is_user_data L v (get_name_by_type_id id)) && is_sendable_id id

  -- A pointer to an `l2dbus_DbusValue`, read through, on a 64-bit platform: there the signature lies behind
  -- the 8 bytes of a boxed integer. What other userdata hold there is left out.
  unfoldable pub read_wrapper : Option ℕ → Result (ℕ × Option Bytes)
  read_wrapper none = undefined Fault.null_pointer
  read_wrapper (some p) = elim (block p) [
    | Block.dbus_value value_ref signature ↦ ok (value_ref, signature)
    | _ ↦ undefined Fault.out_of_bounds_read
  ]

  -- The signature that the constructor stored, if the value is a userdata of this library.
  unfoldable pub get_cached_signature : Value → Result (Option Bytes)
  unfolding read_wrapper
  get_cached_signature v = elim (is_user_data L v (get_type_name L "userdata" v)) [
    | none ↦ ok none
    | some p ↦ do (_, signature) ← read_wrapper (some p); ok signature
  ]

  -- The wrapped value; any other value is its own.
  unfoldable pub get_value : Value → Result Value
  unfolding read_wrapper
  get_value v = elim (query_dbus_type_id v) [
    | none ↦ ok v
    | some _ ↦ do
      (value_ref, _) ← read_wrapper (touserdata v)
      let table = user_value v
      elim (lua_type table) [ LuaType.nil ↦ ok table | _ ↦ ok (raw_get_i table value_ref) ]
  ]

  -- Reading a wrapper does not run out of fuel.
  read_wrapper-Ends : (p : Option ℕ) → Ends (read_wrapper p)
  unfolding read_wrapper
  read_wrapper-Ends none = λ e. cc
  read_wrapper-Ends (some p) = λ e. ground arith

  pub get_cached_signature-Ends : (v : Value) → Ends (get_cached_signature v)
  unfolding get_cached_signature
  get_cached_signature-Ends v = λ e. ground arith

  pub get_value-Ends : (v : Value) → Ends (get_value v)
  unfolding get_value
  get_value-Ends v = λ e. ground arith
