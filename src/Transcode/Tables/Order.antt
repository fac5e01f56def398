-- ===== src/Transcode/Tables/Order.antt =====
-- The order of the checks in `l2dbus_transcodeMapLuaToDbusType` of src/l2dbus_transcode.c: arrays are
-- structures and structures are dictionaries.
use l2dbus.Base.{
  ℕ, zero, suc, ◌+◌, ◌≡◌, ◌≢◌, ◌⊎◌, inl, refl, arith, true, false, Option, none, some, List, [],
  ◌∷◌,
}
use l2dbus.Lua.{Lua, LuaType}
use l2dbus.Lua.Laws.{NumberLike}
use l2dbus.Transcode.Wrapper.{is_sendable, is_sendable_id, is_found}
use l2dbus.Transcode.Tables.{
  Check, and_then, dict_key, item, dict_entries, is_table_dictionary, array_item, seen_after,
  array_entries, is_table_array, struct_entries, is_table_structure,
}
use l2dbus.Types.{TypeId, invalid_type_id, get_name_by_type_id}
use l2dbus.Util.{is_user_data, get_meta_type_id}

-- No userdata of another library has an identifier of this one in its field `__typeId`.
abbrev pub NoForgery : Lua → Type 0
NoForgery L =
    (v : L.Value)
    → get_meta_type_id L v ≢ invalid_type_id
    → is_found (is_user_data L v (get_name_by_type_id (get_meta_type_id L v))) ≡ true

pub and_then-true : (a b : Check) → and_then a b ≡ some true → (a ≡ some true) × (b ≡ some true)
and_then-true none b h = cc
and_then-true (some true) b h = ground arith
and_then-true (some false) b h = cc

module _ (L : Lua) (numbers : NumberLike L) where
  open L use {Value, lua_type, is_number}

  number_key : (k : Value) → is_number k ≡ true → dict_key L k ≡ true
  unfolding dict_key
  number_key k h = ground (arith, numbers k h)

  struct_entries-dict :
      (nested : Value → Check) (count len : ℕ) (es : List (Value × Value))
      → struct_entries L nested count len es ≡ some true
      → dict_entries L nested es ≡ some true
  unfolding struct_entries dict_entries
  struct_entries-dict nested count len [] h = ground arith
  struct_entries-dict nested count len ((k, v) ∷ es) h =
      ground (arith, number_key k, struct_entries-dict nested (count + 1) len es)

  -- Where `lua_isnumber` holds of numbers and numeric strings only: what passes the check of
  -- structures passes that of dictionaries, with the same fuel.
  pub is_table_structure-dictionary :
      (fuel : ℕ) (t : Value)
      → is_table_structure L fuel t ≡ some true
      → is_table_dictionary L fuel t ≡ some true
  unfolding is_table_structure is_table_dictionary
  is_table_structure-dictionary zero t h = cc
  is_table_structure-dictionary (suc fuel) t h =
      ground (arith, struct_entries-dict (is_table_dictionary L fuel) 0 (L.raw_len t) (L.entries t))

module _ (L : Lua) (genuine : NoForgery L) where
  open L use {Value, lua_type, is_number}

  -- The identifier that the items agreed on can be sent.
  abbrev Agreed : TypeId → Type 0
  Agreed seen = (seen ≡ invalid_type_id) ⊎ (is_sendable_id seen ≡ true)

  array_item-item :
      (nested : Value → Check) (seen : TypeId) (v : Value)
      → Agreed seen
      → array_item L nested seen v ≡ some true
      → (item L nested v ≡ some true) × Agreed (seen_after L seen v)
  unfolding array_item item seen_after is_sendable
  array_item-item nested seen v a h = ground (arith, genuine v)

  array_entries-struct :
      (nested : Value → Check) (kind : Option LuaType) (seen : TypeId) (count len : ℕ)
      (es : List (Value × Value))
      → Agreed seen
      → array_entries L nested kind seen count len es ≡ some true
      → struct_entries L nested count len es ≡ some true
  unfolding array_entries struct_entries
  array_entries-struct nested kind seen count len [] a h = h
  array_entries-struct nested kind seen count len ((k, v) ∷ es) a h = ground (
    arith,
    array_item-item nested seen v a,
    array_entries-struct nested (some (lua_type v)) (seen_after L seen v) (count + 1) len es,
  )

  -- Where no foreign userdata has an identifier of this library: what passes the check of arrays
  -- passes that of structures, with the same fuel.
  pub is_table_array-structure :
      (fuel : ℕ) (t : Value)
      → is_table_array L fuel t ≡ some true
      → is_table_structure L fuel t ≡ some true
  unfolding is_table_array is_table_structure
  is_table_array-structure zero t h = cc
  is_table_array-structure (suc fuel) t h = ground (
    arith,
    array_entries-struct (is_table_dictionary L fuel) none invalid_type_id 0 (L.raw_len t)
        (L.entries t) (inl refl),
  )
