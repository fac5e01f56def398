-- ===== src/Transcode/Marshall/Ends.antt =====
-- The marshalling of src/l2dbus_transcode.c ends for types without variants.
use l2dbus.Base.{
  ℕ, zero, suc, ◌+◌, arith, Option, List, [], ◌∷◌, Result, ◌>>=◌, ◌>>◌, Ends, >>=-Ends,
}
use l2dbus.Boxed.{check_type}
use l2dbus.Dbus.{DbusType}
use l2dbus.Lua.{Lua, LuaType, Bytes}
use l2dbus.Transcode.Marshall.{
  Buffers, Append, unwrapping, unwrapped, opened, closed, elements, marshall_array, dict_pair,
  next_key, dict_items, marshall_dict, marshall_unwrapped, marshall_fields, marshall_value,
  marshall_as_type,
}
use l2dbus.Transcode.Message.{Sig, Sigs, followed, Item, Library}
use l2dbus.Transcode.Scalars.Ends.{
  marshall_byte-Ends, marshall_boolean-Ends, marshall_int16-Ends, marshall_uint16-Ends,
  marshall_int32-Ends, marshall_uint32-Ends, marshall_int64-Ends, marshall_uint64-Ends,
  marshall_double-Ends, marshall_string-Ends, marshall_object_path-Ends, marshall_signature-Ends,
  marshall_unix_fd-Ends,
}
use l2dbus.Transcode.Signature.{StringBuffer}
use l2dbus.Transcode.Wrapper.{get_cached_signature-Ends, get_value-Ends}

-- No variant stands in the type, at any depth.
unfoldable mutual
  pub HasNoVariant : Sig → Type 0
  HasNoVariant Sig.variant = ⊥
  HasNoVariant (Sig.array s) = HasNoVariant s
  HasNoVariant (Sig.dict k w) = HasNoVariant k × HasNoVariant w
  HasNoVariant (Sig.struct ss) = HaveNoVariant ss
  HasNoVariant _ = Unit

  pub HaveNoVariant : Sigs → Type 0
  HaveNoVariant Sigs.end = Unit
  HaveNoVariant (followed s ss) = HasNoVariant s × HaveNoVariant ss

module _ (L : Lua) (S : StringBuffer) (P : Buffers S) (B : Library) (fuel : ℕ) where
  open L use {Value, lua_type, raw_len, raw_get_i, entries}

  abbrev EndsOn : Append L S P B fuel → Type 0
  EndsOn one = (v : Value) → Ends (one v)

  opened-Ends : (t : DbusType) → Ends (opened L S P B fuel t)
  unfolding opened
  opened-Ends t = λ e. ground arith

  closed-Ends : (t : DbusType) (i : Item) → Ends (closed L S P B fuel t i)
  unfolding closed
  closed-Ends t i = λ e. ground arith

  check_type-Ends : (v : Value) (t : LuaType) → Ends (check_type L v t)
  unfolding check_type
  check_type-Ends v t = λ e. ground arith

  next_key-Ends : (key : Sig) (k : Value) → Ends (next_key L S P B fuel key k)
  unfolding next_key
  next_key-Ends key k = λ e. ground arith

  pub unwrapped-Ends : (v : Value) → Ends (unwrapped L S P B fuel v)
  unfolding unwrapped
  unwrapped-Ends v = λ e. ground (arith, get_cached_signature-Ends L v, get_value-Ends L v)

  unwrapping-EndsOn :
      (switch : Option Bytes × Value → Result Item)
      → ((cv : Option Bytes × Value) → Ends (switch cv))
      → EndsOn (unwrapping L S P B fuel switch)
  unwrapping-EndsOn switch h v = >>=-Ends (unwrapped L S P B fuel v) switch (unwrapped-Ends v) h

  -- A container is checked, opened, filled and closed.
  container-Ends :
      {A : Type 0} (u : Value) (t : DbusType) (inner : Result A) (whole : A → Item)
      → Ends inner
      → Ends (do
        check_type L u LuaType.table
        opened L S P B fuel t
        is ← inner
        closed L S P B fuel t (whole is))
  container-Ends u t inner whole h =
      >>=-Ends (check_type L u LuaType.table) _ (check_type-Ends u LuaType.table) (λ _.
        >>=-Ends (opened L S P B fuel t) _ (opened-Ends t)
          (λ _. >>=-Ends inner _ h (λ is. closed-Ends t (whole is))))

  elements-Ends :
      (one : Append L S P B fuel)
      → EndsOn one
      → (u : Value) (count idx : ℕ) → Ends (elements L S P B fuel one u count idx)
  unfolding elements
  elements-Ends one h u zero idx = λ e. cc
  elements-Ends one h u (suc count) idx = >>=-Ends (one (raw_get_i u idx)) _ (h _) (λ i.
      >>=-Ends (elements L S P B fuel one u count (idx + 1)) _
        (elements-Ends one h u count (idx + 1)) (λ is e. cc))

  dict_pair-Ends :
      (one_key one_value : Append L S P B fuel)
      → EndsOn one_key
      → EndsOn one_value
      → (k w : Value) → Ends (dict_pair L S P B fuel one_key one_value k w)
  unfolding dict_pair
  dict_pair-Ends one_key one_value keys values k w =
      >>=-Ends (opened L S P B fuel DbusType.dict_entry) _ (opened-Ends DbusType.dict_entry) (λ _.
        >>=-Ends (one_key k) _ (keys k) (λ i.
          >>=-Ends (one_value w) _ (values w)
            (λ j. closed-Ends DbusType.dict_entry (Item.dict_entry i j))))

  dict_items-Ends :
      (key : Sig) (one_key one_value : Append L S P B fuel)
      → EndsOn one_key
      → EndsOn one_value
      → (es : List (Value × Value)) → Ends (dict_items L S P B fuel key one_key one_value es)
  unfolding dict_items
  dict_items-Ends key one_key one_value keys values [] = λ e. cc
  dict_items-Ends key one_key one_value keys values ((k, w) ∷ es) =
      >>=-Ends (dict_pair L S P B fuel one_key one_value k w) _
        (dict_pair-Ends one_key one_value keys values k w)
        (λ pair. >>=-Ends (next_key L S P B fuel key k) _ (next_key-Ends key k) (λ _.
          >>=-Ends (dict_items L S P B fuel key one_key one_value es) _
            (dict_items-Ends key one_key one_value keys values es) (λ is e. cc)))

  marshall_array-Ends :
      (s : Sig) (one : Append L S P B fuel)
      → EndsOn one
      → EndsOn (marshall_array L S P B fuel s one)
  unfolding marshall_array
  marshall_array-Ends s one h u =
      container-Ends u DbusType.array _ (Item.array s) (elements-Ends one h u (raw_len u) 1)

  marshall_dict-Ends :
      (k w : Sig) (one_key one_value : Append L S P B fuel)
      → EndsOn one_key
      → EndsOn one_value
      → EndsOn (marshall_dict L S P B fuel k w one_key one_value)
  unfolding marshall_dict
  marshall_dict-Ends k w one_key one_value keys values u =
      container-Ends u DbusType.array _ (Item.dict k w)
        (dict_items-Ends k one_key one_value keys values (entries u))

  module _ (deep : Sig → Append L S P B fuel) where
    mutual
      unfolding marshall_unwrapped HasNoVariant

      marshall_unwrapped-Ends :
          (s : Sig)
          → HasNoVariant s
          → (cv : Option Bytes × Value) → Ends (marshall_unwrapped L S P B fuel deep s cv)
      marshall_unwrapped-Ends Sig.byte h (c, u) = marshall_byte-Ends L B u
      marshall_unwrapped-Ends Sig.boolean h (c, u) = marshall_boolean-Ends L B u
      marshall_unwrapped-Ends Sig.int16 h (c, u) = marshall_int16-Ends L B u
      marshall_unwrapped-Ends Sig.uint16 h (c, u) = marshall_uint16-Ends L B u
      marshall_unwrapped-Ends Sig.int32 h (c, u) = marshall_int32-Ends L B u
      marshall_unwrapped-Ends Sig.uint32 h (c, u) = marshall_uint32-Ends L B u
      marshall_unwrapped-Ends Sig.int64 h (c, u) = marshall_int64-Ends L B u
      marshall_unwrapped-Ends Sig.uint64 h (c, u) = marshall_uint64-Ends L B u
      marshall_unwrapped-Ends Sig.double h (c, u) = marshall_double-Ends L B u
      marshall_unwrapped-Ends Sig.string h (c, u) = marshall_string-Ends L B u
      marshall_unwrapped-Ends Sig.object_path h (c, u) = marshall_object_path-Ends L B u
      marshall_unwrapped-Ends Sig.signature h (c, u) = marshall_signature-Ends L B u
      marshall_unwrapped-Ends Sig.unix_fd h (c, u) = marshall_unix_fd-Ends L B u
      marshall_unwrapped-Ends Sig.variant h (c, u) = absurd h
      marshall_unwrapped-Ends (Sig.array s) h (c, u) =
          marshall_array-Ends s _ (unwrapping-EndsOn _ (marshall_unwrapped-Ends s h)) u
      marshall_unwrapped-Ends (Sig.dict k w) (h, h') (c, u) =
          marshall_dict-Ends k w _ _ (unwrapping-EndsOn _ (marshall_unwrapped-Ends k h))
            (unwrapping-EndsOn _ (marshall_unwrapped-Ends w h')) u
      marshall_unwrapped-Ends (Sig.struct ss) h (c, u) =
          container-Ends u DbusType.struct (marshall_fields L S P B fuel deep ss u (raw_len u) 1)
            Item.struct (marshall_fields-Ends ss h u (raw_len u) 1)

      marshall_fields-Ends :
          (ss : Sigs)
          → HaveNoVariant ss
          → (u : Value) (count idx : ℕ) → Ends (marshall_fields L S P B fuel deep ss u count idx)
      marshall_fields-Ends Sigs.end h u count idx = λ e. cc
      marshall_fields-Ends (followed s ss) h u zero idx = λ e. cc
      marshall_fields-Ends (followed s ss) (h, hs) u (suc count) idx =
          >>=-Ends
            (unwrapping L S P B fuel (marshall_unwrapped L S P B fuel deep s) (raw_get_i u idx)) _
            (unwrapping-EndsOn _ (marshall_unwrapped-Ends s h) (raw_get_i u idx))
            (λ i.
              >>=-Ends (marshall_fields L S P B fuel deep ss u count (idx + 1)) _
                (marshall_fields-Ends ss hs u count (idx + 1)) (λ is e. cc))

  -- For a type in which no variant stands, one unit of fuel is enough: the value is appended, or an
  -- error is raised, or C leaves the behaviour open.
  pub marshall_as_type-Ends :
      (s : Sig)
      → HasNoVariant s
      → (nesting : ℕ) (v : Value) → Ends (marshall_as_type L S P B fuel (suc nesting) s v)
  unfolding marshall_as_type marshall_value
  marshall_as_type-Ends s h nesting =
      unwrapping-EndsOn _ (marshall_unwrapped-Ends (marshall_as_type L S P B fuel nesting) s h)
