-- ===== src/Transcode/Tables/Spec.antt =====
-- What can be sent as a D-Bus dictionary, described independently of the checks of
-- src/l2dbus_transcode.c, and what the checks make of it.
use l2dbus.Base.{
  ℕ, zero, suc, ◌<◌, ◌≡◌, ◌≢◌, ◌↔◌, refl, ap, arith, true, false, some, List, [], ◌∷◌, All,
}
use l2dbus.Dbus.{DbusType}
use l2dbus.Lua.{Lua, LuaType}
use l2dbus.Lua.Laws.{HasDepth, NumberLike}
use l2dbus.Transcode.Wrapper.{is_sendable}
use l2dbus.Transcode.Tables.{
  Check, dict_key, item, dict_entries, is_table_dictionary, map_lua_to_dbus_type, table_type,
}
use l2dbus.Transcode.Tables.Order.{
  NoForgery, and_then-true, is_table_array-structure, is_table_structure-dictionary,
}
use l2dbus.Transcode.Tables.Fuel.{
  Returns, below, is_table_dictionary-Returns, is_table_array-Returns, is_table_structure-Returns,
}

-- Values that can be sent, dictionaries, and the pairs of a dictionary: keys of basic types, and
-- values that can be sent, tables as dictionaries again.
mutual
  pub data Sendable (L : Lua) : L.Value → Type 0 where
    number : {v : L.Value} → L.lua_type v ≡ LuaType.number → Sendable L v
    boolean : {v : L.Value} → L.lua_type v ≡ LuaType.boolean → Sendable L v
    string : {v : L.Value} → L.lua_type v ≡ LuaType.string → Sendable L v
    userdata :
        {v : L.Value} → L.lua_type v ≡ LuaType.userdata → is_sendable L v ≡ true → Sendable L v
    table : {v : L.Value} → Dictionary L v → Sendable L v

  pub data Dictionary (L : Lua) : L.Value → Type 0 where
    pairs : {t : L.Value} → L.lua_type t ≡ LuaType.table → Pairs L (L.entries t) → Dictionary L t

  pub data Pairs (L : Lua) : List (L.Value × L.Value) → Type 0 where
    empty : Pairs L []
    pair :
        {k v : L.Value} {es : List (L.Value × L.Value)}
        → dict_key L k ≡ true
        → Sendable L v
        → Pairs L es
        → Pairs L ((k, v) ∷ es)

module _ (L : Lua) where
  open L use {Value, lua_type, entries}

  -- The recursive check is right about tables.
  abbrev Sound : (Value → Check) → Type 0
  Sound nested = (v : Value) → nested v ≡ some true → Dictionary L v

  item-Sendable :
      (nested : Value → Check)
      → Sound nested
      → (v : Value) → item L nested v ≡ some true
      → Sendable L v
  unfolding item
  item-Sendable nested sound v h = by_type (lua_type v) refl
    where
      by_type : (t : LuaType) → lua_type v ≡ t → Sendable L v
      by_type LuaType.number e = number e
      by_type LuaType.boolean e = boolean e
      by_type LuaType.string e = string e
      by_type LuaType.userdata e = userdata e (ground arith)
      by_type LuaType.table e = table (sound v (rw (e, item) at h))
      by_type _ e = absurd (ground arith)

  dict_entries-Pairs :
      (nested : Value → Check)
      → Sound nested
      → (es : List (Value × Value)) → dict_entries L nested es ≡ some true
      → Pairs L es
  unfolding dict_entries
  dict_entries-Pairs nested sound [] h = empty
  dict_entries-Pairs nested sound ((k, v) ∷ es) h =
      let ok_key : dict_key L k ≡ true = ground arith in
      let both = and_then-true _ _ (rw ok_key at h) in
      pair ok_key (item-Sendable nested sound v both.0) (dict_entries-Pairs nested sound es both.1)

  is_table_dictionary-Dictionary :
      (fuel : ℕ) (t : Value) → is_table_dictionary L fuel t ≡ some true → Dictionary L t
  unfolding is_table_dictionary
  is_table_dictionary-Dictionary zero t h = absurd (cc)
  is_table_dictionary-Dictionary (suc fuel) t h =
      let is_table : lua_type t ≡ LuaType.table = ground arith in
      pairs is_table (
        dict_entries-Pairs _ (is_table_dictionary-Dictionary fuel) (entries t)
          (rw (is_table, is_table_dictionary) at h))

module _ (L : Lua) (depth : L.Value → ℕ) (deep : HasDepth L depth) where
  open L use {Value, lua_type, entries}

  -- The recursive check accepts the dictionaries below a depth.
  abbrev CompleteBelow : ℕ → (Value → Check) → Type 0
  CompleteBelow n nested = (v : Value) → depth v < n → Dictionary L v → nested v ≡ some true

  module _ (n : ℕ) (nested : Value → Check) (complete : CompleteBelow n nested) where
    item_complete : {v : Value} → Sendable L v → depth v < n → item L nested v ≡ some true
    unfolding item
    item_complete (number e) h = rw (e, item)
    item_complete (boolean e) h = rw (e, item)
    item_complete (string e) h = rw (e, item)
    item_complete (userdata e s) h = rw (e, item) (ap some s)
    item_complete (table {v} (pairs e p)) h = rw (e, item) (complete v h (pairs e p))

    entries_complete :
        {es : List (Value × Value)}
        → Pairs L es
        → All (λ (e : Value × Value). depth (e.1) < n) es
        → dict_entries L nested es ≡ some true
    unfolding dict_entries
    entries_complete empty h = refl
    entries_complete (pair key value rest) h =
        rw (key, item_complete value h.0, entries_complete rest h.1)

  accepts_below :
      (fuel : ℕ) (t : Value)
      → depth t < fuel
      → Dictionary L t
      → is_table_dictionary L fuel t ≡ some true
  unfolding is_table_dictionary
  accepts_below zero t h d = absurd (omega arith)
  accepts_below (suc fuel) t h (pairs e p) =
      rw (e, is_table_dictionary)
        (entries_complete fuel _ (accepts_below fuel) p
          (below L depth deep fuel t h (entries t) (deep t)))

  -- Where the tables nest no deeper than a depth says, and the fuel is above that of the table, the
  -- check of dictionaries passes exactly for the dictionaries of the inductive description.
  pub is_table_dictionary_iff :
      (fuel : ℕ) (t : Value)
      → depth t < fuel
      → (is_table_dictionary L fuel t ≡ some true) ↔ Dictionary L t
  is_table_dictionary_iff fuel t h =
      (is_table_dictionary-Dictionary L fuel t, accepts_below fuel t h)

  dictionary_refused : (c : Check) → Returns c → c ≢ some true → c ≡ some false
  dictionary_refused c (true, e) h = absurd (h e)
  dictionary_refused c (false, e) h = e

  refused_iff :
      (fuel : ℕ) (t : Value)
      → depth t < fuel
      → (is_table_dictionary L fuel t ≡ some false) ↔ (¬ Dictionary L t)
  refused_iff fuel t h = (
    λ no_dict d. cc (accepts_below fuel t h d),
    λ none_such.
        dictionary_refused _ (is_table_dictionary-Returns L depth deep fuel t h)
          (λ e. none_such (is_table_dictionary-Dictionary L fuel t e)),
  )

  -- The order of the three checks.
  table_type-invalid :
      (a s d : Check)
      → Returns a
      → Returns s
      → Returns d
      → (a ≡ some true → s ≡ some true)
      → (s ≡ some true → d ≡ some true)
      → (x : DbusType) × (table_type L a s d ≡ some x) × ((x ≡ DbusType.invalid) ↔ (d ≡ some false))
  unfolding table_type
  table_type-invalid a s d (true, ea) rs rd a→s s→d =
      (DbusType.array, rw ea, (λ e. cc, λ e. cc (ea, e, a→s ea, s→d (a→s ea))))
  table_type-invalid a s d (false, ea) (true, es) rd a→s s→d =
      (DbusType.struct, rw (ea, es), (λ e. cc, λ e. cc (es, e, s→d es)))
  table_type-invalid a s d (false, ea) (false, es) (true, ed) a→s s→d =
      (DbusType.dict_entry, rw (ea, es, ed), (λ e. cc, λ e. cc (ed, e)))
  table_type-invalid a s d (false, ea) (false, es) (false, ed) a→s s→d =
      (DbusType.invalid, rw (ea, es, ed), (λ e. ed, λ e. refl))

  -- Where the tables nest no deeper than a depth says, `lua_isnumber` holds of numbers and numeric
  -- strings only, and no foreign userdata has an identifier of this library: a table is mapped to
  -- some type once the fuel is above its depth, and the type is `DBUS_TYPE_INVALID` exactly when the
  -- table is no dictionary. The checks for arrays and structures, which run first, accept no more.
  pub map_lua_to_dbus_type-table :
      NumberLike L
      → NoForgery L
      → (fuel : ℕ) (t : Value) → lua_type t ≡ LuaType.table
      → depth t < fuel
      → (d : DbusType) × (map_lua_to_dbus_type L fuel t ≡ some d)
        × ((d ≡ DbusType.invalid) ↔ (¬ Dictionary L t))
  unfolding map_lua_to_dbus_type
  map_lua_to_dbus_type-table numbers genuine fuel t e h =
      let (d, mapped, refused) =
        table_type-invalid _ _ _ (is_table_array-Returns L depth deep fuel t h)
          (is_table_structure-Returns L depth deep fuel t h)
          (is_table_dictionary-Returns L depth deep fuel t h)
          (is_table_array-structure L genuine fuel t)
          (is_table_structure-dictionary L numbers fuel t) in
      let iff = refused_iff fuel t h in
      (
        d,
        rw (e, map_lua_to_dbus_type) mapped,
        ((λ x. iff.0 (refused.0 x)), (λ x. refused.1 (iff.1 x))),
      )
