-- ===== src/Transcode/Signature/Levels.antt =====
-- The recursion of `l2dbus_dbusComputeSignature` (src/l2dbus_transcode.c) is cut by its test of the
-- level.
use l2dbus.Base.{
  ℕ, zero, suc, ◌+◌, ◌≤◌, ◌<◌, ◌≡◌, ◌≢◌, refl, inl, inr, arith, true, false, Option, none, some,
  List, [], ◌∷◌, Bool-cases, Option-cases, leb, ltb, Result, ok, out_of_fuel, ◌>>=◌, Ends, >>=-Ends,
}
use l2dbus.Dbus.{DbusType}
use l2dbus.Lua.{Lua, LuaType, Bytes}
use l2dbus.Lua.Laws.{HasDepth, NumberLike}
use l2dbus.Transcode.Tables.{map_lua_to_dbus_type}
use l2dbus.Transcode.Tables.Order.{NoForgery}
use l2dbus.Transcode.Tables.Spec.{map_lua_to_dbus_type-table}
use l2dbus.Transcode.Wrapper.{get_value, get_cached_signature-Ends, get_value-Ends}
use l2dbus.Transcode.Signature.{
  StringBuffer, Outcome, append_all, if_valid, Recur, container, first_element, fields, structure,
  first_entry, dictionary, by_type, compute_signature, maximum_signature_length,
  maximum_type_recursion_depth,
}

module _ (L : Lua) (S : StringBuffer) (fuel : ℕ) where
  open L use {Value, raw_len, raw_get_i, entries, lua_type}
  open S use {Buffer, buffer_length}

  if_valid-Ends :
      (o : Outcome L S fuel) (next : Buffer → Result (Outcome L S fuel))
      → ((b : Buffer) → Ends (next b))
      → Ends (if_valid L S fuel o next)
  if_valid-Ends (true, b) next h = h b
  if_valid-Ends (false, b) next h = λ e. cc

  module _ (recur : Recur L S fuel) (ends : (b : Buffer) (v : Value) → Ends (recur b v)) where
    fields-Ends :
        (u : Value) (count idx : ℕ) (b : Buffer) → Ends (fields L S fuel recur u count idx b)
    unfolding fields
    fields-Ends u zero idx b = λ e. cc
    fields-Ends u (suc count) idx b =
        >>=-Ends _ _ (ends b (raw_get_i u idx))
          λ o. if_valid-Ends o _ λ c. fields-Ends u count (idx + 1) c

    structure-Ends : (u : Value) (b : Buffer) → Ends (structure L S fuel recur u b)
    unfolding structure
    structure-Ends u b =
        >>=-Ends _ _ (fields-Ends u (raw_len u) 1 b) λ o. if_valid-Ends o _ λ c e. cc

    first_element-Ends : (u : Value) (b : Buffer) → Ends (first_element L S fuel recur u b)
    unfolding first_element
    first_element-Ends u b = ground (arith, ends b (raw_get_i u 1))

    first_entry-Ends :
        (es : List (Value × Value)) (b : Buffer) → Ends (first_entry L S fuel recur es b)
    unfolding first_entry
    first_entry-Ends [] b = λ e. cc
    first_entry-Ends ((k, w) ∷ es) b = >>=-Ends _ _ (ends b k) λ o. if_valid-Ends o _ λ c e. cc

    dictionary-Ends : (u : Value) (b : Buffer) → Ends (dictionary L S fuel recur u b)
    unfolding dictionary
    dictionary-Ends u b =
        >>=-Ends _ _ (first_entry-Ends (entries u) b) λ o. if_valid-Ends o _ λ c e. cc

    container-Ends :
        (b : Buffer) (v : Value) (opening : Bytes)
        (body : Value → Buffer → Result (Outcome L S fuel))
        → ((u : Value) (c : Buffer) → Ends (body u c))
        → Ends (container L S fuel b v opening body)
    unfolding container
    container-Ends b v opening body h = >>=-Ends _ _ (get_cached_signature-Ends L v) by_cache
      where
        by_cache :
            (cached : Option Bytes)
            → Ends (elim cached as (λ _. Result (Outcome L S fuel)) [
              | some s ↦ ok (append_all L S fuel b s)
              | none ↦
                  if_valid L S fuel
                    (append_all L S fuel b opening)
                    (λ c. get_value L v >>= λ u. body u c)
            ])
        by_cache (some s) = λ e. cc
        by_cache none = if_valid-Ends _ _ λ c. >>=-Ends _ _ (get_value-Ends L v) λ u. h u c

    by_type-Ends : (t : DbusType) (b : Buffer) (v : Value) → Ends (by_type L S fuel recur t b v)
    unfolding by_type
    by_type-Ends DbusType.array b v = container-Ends b v _ _ first_element-Ends
    by_type-Ends DbusType.struct b v = container-Ends b v _ _ structure-Ends
    by_type-Ends DbusType.variant b v = container-Ends b v _ _ λ u c. ends c u
    by_type-Ends DbusType.dict_entry b v = container-Ends b v _ _ dictionary-Ends
    by_type-Ends DbusType.invalid b v = λ e. cc
    by_type-Ends t b v = λ e. cc

  module _ (mapped : (v : Value) → map_lua_to_dbus_type L fuel v ≢ none) where
    levels_suffice :
        (levels level : ℕ)
        → maximum_type_recursion_depth + 2 ≤ levels + level
        → (b : Buffer) (v : Value) → level ≤ maximum_type_recursion_depth + 1
        → Ends (compute_signature L S fuel levels level b v)
    unfolding compute_signature
    levels_suffice zero level h b v low = absurd (omega arith)
    levels_suffice (suc levels) level h b v low =
        elim (Bool-cases (leb maximum_signature_length (buffer_length b))) [
          | inl long ↦ rw long (λ e. cc)
          | inr short ↦ elim (Bool-cases (ltb maximum_type_recursion_depth level)) [
            | inl deep ↦ rw (short, deep) (λ e. cc)
            | inr shallow ↦ elim (Option-cases (map_lua_to_dbus_type L fuel v)) [
              | inl cut ↦ absurd (mapped v cut)
              | inr (t, found) ↦
                  let next : level + 1 ≤ maximum_type_recursion_depth + 1 = ground arith in
                  let rec = levels_suffice levels (level + 1) (omega arith) in
                  rw (short, shallow, found)
                    (by_type-Ends (compute_signature L S fuel levels (level + 1))
                      (λ c u. rec c u next) t b v)
            ]
          ]
        ]

  -- Every value has a type once the fuel of the table checks exceeds the depth of the tables.
  mapped_below :
      NumberLike L
      → NoForgery L
      → (depth : Value → ℕ) → HasDepth L depth
      → (v : Value) → depth v < fuel
      → map_lua_to_dbus_type L fuel v ≢ none
  unfolding map_lua_to_dbus_type
  mapped_below numbers genuine depth deep v h = by_lua_type (lua_type v) refl
    where
      by_lua_type : (t : LuaType) → lua_type v ≡ t → map_lua_to_dbus_type L fuel v ≢ none
      by_lua_type LuaType.table e =
          let (d, found, _) = map_lua_to_dbus_type-table L depth deep numbers genuine fuel v e h in
          λ cut. cc (found, cut)
      by_lua_type _ e = rw (e, map_lua_to_dbus_type) (λ cut. cc)

  -- Where `lua_isnumber` holds of numbers and numeric strings only, no foreign userdata has an
  -- identifier of this library, and every table has a depth below the fuel of the table checks: the
  -- computation of a signature from level 0 ends, and 34 levels are enough for it.
  pub compute_signature-Ends :
      NumberLike L
      → NoForgery L
      → (depth : Value → ℕ) → HasDepth L depth
      → ((v : Value) → depth v < fuel)
      → (levels : ℕ) → 34 ≤ levels
      → (b : Buffer) (v : Value) → compute_signature L S fuel levels 0 b v ≢ out_of_fuel
  compute_signature-Ends numbers genuine depth deep low levels h b v =
      levels_suffice (λ u. mapped_below numbers genuine depth deep u (low u)) levels 0 (omega arith)
        b v (omega arith)
