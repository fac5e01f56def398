-- ===== src/Transcode/Tables/Fuel.antt =====
-- When the recursion of `l2dbus_dbusIsTableDictionary` ends (src/l2dbus_transcode.c), and what it
-- decides.
use l2dbus.Base.{
  ℕ, zero, suc, ◌+◌, ◌<◌, ◌≡◌, refl, arith, Bool, true, false, Option, none, some, List, [], ◌∷◌,
  All, if◌then◌else◌, ◌==◌,
}
use l2dbus.Lua.{Lua, LuaType}
use l2dbus.Lua.Laws.{HasDepth}
use l2dbus.Transcode.Wrapper.{is_sendable}
use l2dbus.Transcode.Tables.{
  Check, and_then, dict_key, item, dict_entries, is_table_dictionary, array_item, seen_after,
  array_entries, is_table_array, struct_entries, is_table_structure,
}
use l2dbus.Types.{TypeId, invalid_type_id}
use l2dbus.Util.{get_meta_type_id}

-- A check that came to a verdict.
abbrev pub Returns : Check → Type 0
Returns c = (b : Bool) × (c ≡ some b)

and_then-Returns : (a b : Check) → Returns a → Returns b → Returns (and_then a b)
and_then-Returns none b r q = absurd (cc (r.1))
and_then-Returns (some true) b r q = q
and_then-Returns (some false) b r q = (false, refl)

if-Returns : (c : Bool) (a : Check) → Returns a → Returns (if c then a else some false)
if-Returns true a r = r
if-Returns false a r = (false, refl)

module _ (L : Lua) (depth : L.Value → ℕ) (deep : HasDepth L depth) where
  open L use {Value, lua_type, entries, raw_len}

  -- The recursive call returns below a depth.
  abbrev ReturnsBelow : ℕ → (Value → Check) → Type 0
  ReturnsBelow n nested = (v : Value) → depth v < n → Returns (nested v)

  module _ (n : ℕ) (nested : Value → Check) (returns : ReturnsBelow n nested) where
    item-Returns : (v : Value) → depth v < n → Returns (item L nested v)
    unfolding item
    item-Returns v h = by_type (lua_type v) refl
      where
        by_type : (t : LuaType) → lua_type v ≡ t → Returns (item L nested v)
        by_type LuaType.number e = (true, rw (e, item))
        by_type LuaType.boolean e = (true, rw (e, item))
        by_type LuaType.string e = (true, rw (e, item))
        by_type LuaType.table e = let (b, r) = returns v h in (b, rw (e, item) r)
        by_type LuaType.userdata e = (is_sendable L v, rw (e, item))
        by_type _ e = (false, rw (e, item))

    array_item-Returns :
        (seen : TypeId) (v : Value) → depth v < n → Returns (array_item L nested seen v)
    unfolding array_item
    array_item-Returns seen v h = by_type (lua_type v) refl
      where
        by_type : (t : LuaType) → lua_type v ≡ t → Returns (array_item L nested seen v)
        by_type LuaType.number e = (true, rw (e, array_item))
        by_type LuaType.boolean e = (true, rw (e, array_item))
        by_type LuaType.string e = (true, rw (e, array_item))
        by_type LuaType.table e = let (b, r) = returns v h in (b, rw (e, array_item) r)
        by_type LuaType.userdata e = (
          if seen == invalid_type_id then is_sendable L v else seen == get_meta_type_id L v,
          rw (e, array_item),
        )
        by_type _ e = (false, rw (e, array_item))

    dict_entries-Returns :
        (es : List (Value × Value))
        → All (λ (e : Value × Value). depth (e.1) < n) es
        → Returns (dict_entries L nested es)
    unfolding dict_entries
    dict_entries-Returns [] h = (true, refl)
    dict_entries-Returns ((k, v) ∷ es) h =
        if-Returns (dict_key L k) _
          (and_then-Returns _ _ (item-Returns v h.0) (dict_entries-Returns es h.1))

    struct_entries-Returns :
        (count len : ℕ) (es : List (Value × Value))
        → All (λ (e : Value × Value). depth (e.1) < n) es
        → Returns (struct_entries L nested count len es)
    unfolding struct_entries
    struct_entries-Returns count len [] h = (_, refl)
    struct_entries-Returns count len ((k, v) ∷ es) h =
        if-Returns (L.is_number k) _ (
          and_then-Returns _ _ (item-Returns v h.0) (struct_entries-Returns (count + 1) len es h.1))

    array_entries-Returns :
        (kind : Option LuaType) (seen : TypeId) (count len : ℕ) (es : List (Value × Value))
        → All (λ (e : Value × Value). depth (e.1) < n) es
        → Returns (array_entries L nested kind seen count len es)
    unfolding array_entries
    array_entries-Returns kind seen count len [] h = (_, refl)
    array_entries-Returns kind seen count len ((k, v) ∷ es) h = if-Returns _ _ (
        and_then-Returns _ _ (array_item-Returns seen v h.0)
          (array_entries-Returns (some (lua_type v)) (seen_after L seen v) (count + 1) len es h.1))

  pub below :
      (n : ℕ) (t : Value)
      → depth t < suc n
      → (es : List (Value × Value)) → All (λ (e : Value × Value). depth (e.1) < depth t) es
      → All (λ (e : Value × Value). depth (e.1) < n) es
  below n t h [] a = tt
  below n t h (e ∷ es) a = (omega arith, below n t h es a.1)

  -- Fuel above the depth of the table is enough for the check of a dictionary.
  pub is_table_dictionary-Returns :
      (fuel : ℕ) (t : Value) → depth t < fuel → Returns (is_table_dictionary L fuel t)
  unfolding is_table_dictionary
  is_table_dictionary-Returns zero t h = absurd (omega arith)
  is_table_dictionary-Returns (suc fuel) t h = by_type (lua_type t) refl (
      dict_entries-Returns fuel _ (is_table_dictionary-Returns fuel) (entries t)
        (below fuel t h (entries t) (deep t)))
    where
      by_type :
          (k : LuaType)
          → lua_type t ≡ k
          → Returns (dict_entries L (is_table_dictionary L fuel) (entries t))
          → Returns (is_table_dictionary L (suc fuel) t)
      by_type LuaType.table e (b, r) = (b, rw (e, is_table_dictionary) r)
      by_type _ e r = (false, rw (e, is_table_dictionary))

  pub is_table_structure-Returns :
      (fuel : ℕ) (t : Value) → depth t < fuel → Returns (is_table_structure L fuel t)
  unfolding is_table_structure
  is_table_structure-Returns zero t h = absurd (omega arith)
  is_table_structure-Returns (suc fuel) t h = by_type (lua_type t) refl (
      struct_entries-Returns fuel _ (is_table_dictionary-Returns fuel) 0 (raw_len t) (entries t)
        (below fuel t h (entries t) (deep t)))
    where
      by_type :
          (k : LuaType)
          → lua_type t ≡ k
          → Returns (struct_entries L (is_table_dictionary L fuel) 0 (raw_len t) (entries t))
          → Returns (is_table_structure L (suc fuel) t)
      by_type LuaType.table e (b, r) = (b, rw (e, is_table_structure) r)
      by_type _ e r = (false, rw (e, is_table_structure))

  pub is_table_array-Returns :
      (fuel : ℕ) (t : Value) → depth t < fuel → Returns (is_table_array L fuel t)
  unfolding is_table_array
  is_table_array-Returns zero t h = absurd (omega arith)
  is_table_array-Returns (suc fuel) t h = by_type (lua_type t) refl (
      array_entries-Returns fuel _ (is_table_dictionary-Returns fuel) none invalid_type_id 0
        (raw_len t) (entries t) (below fuel t h (entries t) (deep t)))
    where
      by_type :
          (k : LuaType)
          → lua_type t ≡ k
          → Returns (
              array_entries L
                (is_table_dictionary L fuel)
                none
                invalid_type_id
                0
                (raw_len t)
                (entries t))
          → Returns (is_table_array L (suc fuel) t)
      by_type LuaType.table e (b, r) = (b, rw (e, is_table_array) r)
      by_type _ e r = (false, rw (e, is_table_array))

-- A table whose first pair holds the table itself, under a key that can be sent: the recursion of
-- the check of dictionaries is cut off whatever the fuel, so it does not end.
pub is_table_dictionary-cyclic :
    (L : Lua) (t k : L.Value) (es : List (L.Value × L.Value))
    → L.lua_type t ≡ LuaType.table
    → L.entries t ≡ (k, t) ∷ es
    → dict_key L k ≡ true
    → (fuel : ℕ) → is_table_dictionary L fuel t ≡ none
unfolding is_table_dictionary dict_entries item
is_table_dictionary-cyclic L t k es table self key zero = refl
is_table_dictionary-cyclic L t k es table self key (suc fuel) =
    rw (table, is_table_dictionary)
      (rw (self, dict_entries)
        (rw (key, table, item) (rw (is_table_dictionary-cyclic L t k es table self key fuel))))
