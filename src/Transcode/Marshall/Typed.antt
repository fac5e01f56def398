-- ===== src/Transcode/Marshall/Typed.antt =====
-- What `l2dbus_transcodeMarshallAsType` of src/l2dbus_transcode.c appends has the type of the signature.
use l2dbus.Base.{
  ℕ, zero, suc, ◌+◌, ◌≡◌, inl, inr, refl, arith, Option, List, [], ◌∷◌, Option-cases, Result, ok,
  ◌>>=◌, >>=-eq-ok, >>-eq-ok,
}
use l2dbus.Dbus.{DbusType}
use l2dbus.Lua.{Lua, Bytes}
use l2dbus.Lua.Laws.{HoldsWords}
use l2dbus.Transcode.Marshall.{
  Buffers, Append, unwrapping, unwrapped, closed, elements, marshall_array, dict_pair, next_key,
  dict_items, marshall_dict, marshall_variant, variant_signature, marshall_unwrapped,
  marshall_fields, marshall_value, marshall_as_type,
}
use l2dbus.Transcode.Message.{Sig, Sigs, followed, Item, Items, item, Library}
use l2dbus.Transcode.Message.Typing.{HasType, HaveType, HavePairType, IsPair, HaveTypes}
use l2dbus.Transcode.Scalars.Typed.{
  marshall_byte-HasType, marshall_boolean-HasType, marshall_int16-HasType, marshall_uint16-HasType,
  marshall_int32-HasType, marshall_uint32-HasType, marshall_int64-HasType, marshall_uint64-HasType,
  marshall_double-HasType, marshall_string-HasType, marshall_object_path-HasType,
  marshall_signature-HasType, marshall_unix_fd-HasType,
}
use l2dbus.Transcode.Signature.{StringBuffer}

module _ (L : Lua) (S : StringBuffer) (P : Buffers S) (B : Library) (fuel : ℕ) where
  open L use {Value, raw_len, raw_get_i, entries}

  abbrev Typed : Sig → Append L S P B fuel → Type 0
  Typed s one = (v : Value) (i : Item) → one v ≡ ok i → HasType i s

  -- The last step of a container closes it.
  >>=-closed :
      {A : Type 0} (t : DbusType) (inner : Result A) (whole : A → Item) (j : Item)
      → inner >>= (λ a. closed L S P B fuel t (whole a)) ≡ ok j
      → (a : A) × (inner ≡ ok a) × (whole a ≡ j)
  unfolding closed
  >>=-closed t inner whole j h =
      let (a, e, h') = >>=-eq-ok inner (λ a. closed L S P B fuel t (whole a)) h in
      (a, e, ground arith)

  unwrapping-Typed :
      (s : Sig) (switch : Option Bytes × Value → Result Item)
      → ((cv : Option Bytes × Value) (i : Item) → switch cv ≡ ok i → HasType i s)
      → Typed s (unwrapping L S P B fuel switch)
  unwrapping-Typed s switch typed v i h =
      let (cv, _, h') = >>=-eq-ok (unwrapped L S P B fuel v) switch h in typed cv i h'

  elements-HaveType :
      (s : Sig) (one : Append L S P B fuel)
      → Typed s one
      → (u : Value) (count idx : ℕ) (is : Items) → elements L S P B fuel one u count idx ≡ ok is
      → HaveType is s
  unfolding elements HasType
  elements-HaveType s one typed u zero idx is h = let same : Items.end ≡ is = cc in rw (← same) tt
  elements-HaveType s one typed u (suc count) idx is h =
      let (i, first, h') = >>=-eq-ok _ _ h in
      let (rest, others, last) = >>=-eq-ok _ _ h' in
      let same : item i rest ≡ is = cc in
      rw (← same) (typed _ i first, elements-HaveType s one typed u count (idx + 1) rest others)

  marshall_array-HasType :
      (s : Sig) (one : Append L S P B fuel)
      → Typed s one
      → Typed (Sig.array s) (marshall_array L S P B fuel s one)
  unfolding marshall_array HasType
  marshall_array-HasType s one typed v i h =
      let h' = >>-eq-ok _ _ (>>-eq-ok _ _ h) in
      let (is, all, same) =
        >>=-closed DbusType.array (elements L S P B fuel one v (raw_len v) 1) (Item.array s) i h' in
      rw (← same) (refl, elements-HaveType s one typed v _ 1 is all)

  dict_pair-IsPair :
      (k w : Sig) (one_key one_value : Append L S P B fuel)
      → Typed k one_key
      → Typed w one_value
      → (a b : Value) (i : Item) → dict_pair L S P B fuel one_key one_value a b ≡ ok i
      → IsPair i k w
  unfolding dict_pair HasType
  dict_pair-IsPair k w one_key one_value keys values a b pair h =
      let (i, key, h') = >>=-eq-ok (one_key a) _ (>>-eq-ok _ _ h) in
      let (j, value, same) =
        >>=-closed DbusType.dict_entry (one_value b) (Item.dict_entry i) pair h' in
      rw (← same) (keys a i key, values b j value)

  dict_items-HavePairType :
      (k w : Sig) (one_key one_value : Append L S P B fuel)
      → Typed k one_key
      → Typed w one_value
      → (es : List (Value × Value)) (is : Items)
      → dict_items L S P B fuel k one_key one_value es ≡ ok is
      → HavePairType is k w
  unfolding dict_items HasType
  dict_items-HavePairType k w one_key one_value keys values [] is h =
      let same : Items.end ≡ is = cc in rw (← same) tt
  dict_items-HavePairType k w one_key one_value keys values ((a, b) ∷ es) is h =
      let (pair, whole, h') = >>=-eq-ok (dict_pair L S P B fuel one_key one_value a b) _ h in
      let (rest, others, last) =
        >>=-eq-ok (dict_items L S P B fuel k one_key one_value es) _
          (>>-eq-ok (next_key L S P B fuel k a) _ h') in
      let same : item pair rest ≡ is = cc in
      rw (← same) (
        dict_pair-IsPair k w one_key one_value keys values a b pair whole,
        dict_items-HavePairType k w one_key one_value keys values es rest others,
      )

  marshall_dict-HasType :
      (k w : Sig) (one_key one_value : Append L S P B fuel)
      → Typed k one_key
      → Typed w one_value
      → Typed (Sig.dict k w) (marshall_dict L S P B fuel k w one_key one_value)
  unfolding marshall_dict HasType
  marshall_dict-HasType k w one_key one_value keys values v i h =
      let h' = >>-eq-ok _ _ (>>-eq-ok _ _ h) in
      let (is, all, same) =
        >>=-closed DbusType.array (dict_items L S P B fuel k one_key one_value (entries v))
          (Item.dict k w) i h' in
      rw (← same) (refl, refl, dict_items-HavePairType k w one_key one_value keys values _ is all)

  marshall_variant-HasType :
      (deep : Sig → Append L S P B fuel)
      → ((s : Sig) → Typed s (deep s))
      → (cached : Option Bytes) → Typed Sig.variant (marshall_variant L S P B fuel deep cached)
  unfolding marshall_variant HasType
  marshall_variant-HasType deep typed cached v i h =
      let (s, _, h₁) = >>=-eq-ok (variant_signature L S P B fuel cached v) _ h in
      elim (Option-cases (B.contained s)) [
        | inl bad ↦ absurd (cc (rw bad at h₁))
        | inr (t, e) ↦
            let (j, inner, same) =
              >>=-closed DbusType.variant (deep t v) (Item.variant t) i (rw e at h₁) in
            rw (← same) (typed t v j inner)
      ]

  module _ (words : HoldsWords L) (deep : Sig → Append L S P B fuel)
      (typed : (s : Sig) → Typed s (deep s)) where
    mutual
      unfolding marshall_unwrapped HasType

      marshall_unwrapped-HasType :
          (s : Sig) (cv : Option Bytes × Value) (i : Item)
          → marshall_unwrapped L S P B fuel deep s cv ≡ ok i
          → HasType i s
      marshall_unwrapped-HasType Sig.byte (c, v) i h = marshall_byte-HasType L B words v i h
      marshall_unwrapped-HasType Sig.boolean (c, v) i h = marshall_boolean-HasType L B words v i h
      marshall_unwrapped-HasType Sig.int16 (c, v) i h = marshall_int16-HasType L B words v i h
      marshall_unwrapped-HasType Sig.uint16 (c, v) i h = marshall_uint16-HasType L B words v i h
      marshall_unwrapped-HasType Sig.int32 (c, v) i h = marshall_int32-HasType L B words v i h
      marshall_unwrapped-HasType Sig.uint32 (c, v) i h = marshall_uint32-HasType L B words v i h
      marshall_unwrapped-HasType Sig.int64 (c, v) i h = marshall_int64-HasType L B words v i h
      marshall_unwrapped-HasType Sig.uint64 (c, v) i h = marshall_uint64-HasType L B words v i h
      marshall_unwrapped-HasType Sig.double (c, v) i h = marshall_double-HasType L B words v i h
      marshall_unwrapped-HasType Sig.string (c, v) i h = marshall_string-HasType L B words v i h
      marshall_unwrapped-HasType Sig.object_path (c, v) i h =
          marshall_object_path-HasType L B words v i h
      marshall_unwrapped-HasType Sig.signature (c, v) i h =
          marshall_signature-HasType L B words v i h
      marshall_unwrapped-HasType Sig.unix_fd (c, v) i h = marshall_unix_fd-HasType L B words v i h
      marshall_unwrapped-HasType Sig.variant (c, v) i h =
          marshall_variant-HasType deep typed c v i h
      marshall_unwrapped-HasType (Sig.array s) (c, v) i h =
          marshall_array-HasType s _ (unwrapping-Typed s _ (marshall_unwrapped-HasType s)) v i h
      marshall_unwrapped-HasType (Sig.dict k w) (c, v) i h =
          marshall_dict-HasType k w _ _ (unwrapping-Typed k _ (marshall_unwrapped-HasType k))
            (unwrapping-Typed w _ (marshall_unwrapped-HasType w)) v i h
      marshall_unwrapped-HasType (Sig.struct ss) (c, v) i h =
          let h' = >>-eq-ok _ _ (>>-eq-ok _ _ h) in
          let (is, all, same) =
            >>=-closed DbusType.struct (marshall_fields L S P B fuel deep ss v (raw_len v) 1)
              Item.struct i h' in
          rw (← same) (marshall_fields-HaveTypes ss v (raw_len v) 1 is all)

      marshall_fields-HaveTypes :
          (ss : Sigs) (u : Value) (count idx : ℕ) (is : Items)
          → marshall_fields L S P B fuel deep ss u count idx ≡ ok is
          → HaveTypes is ss
      marshall_fields-HaveTypes Sigs.end u count idx is h =
          let same : Items.end ≡ is = cc in rw (← same) tt
      marshall_fields-HaveTypes (followed s ss) u zero idx is h =
          let same : Items.end ≡ is = cc in rw (← same) tt
      marshall_fields-HaveTypes (followed s ss) u (suc count) idx is h =
          let one = marshall_unwrapped L S P B fuel deep s in
          let (i, first, h') = >>=-eq-ok (unwrapping L S P B fuel one (raw_get_i u idx)) _ h in
          let (rest, others, last) =
            >>=-eq-ok (marshall_fields L S P B fuel deep ss u count (idx + 1)) _ h' in
          let same : item i rest ≡ is = cc in
          rw (← same) (
            unwrapping-Typed s one (marshall_unwrapped-HasType s) (raw_get_i u idx) i first,
            marshall_fields-HaveTypes ss u count (idx + 1) rest others,
          )

  -- Where boxed integers are machine words: a value that is appended has the type that the signature
  -- iterator stands on, at every depth, and its numbers are in the range of their types; of a structure
  -- it may hold fewer fields than the type has.
  pub marshall_as_type-HasType :
      HoldsWords L
      → (nesting : ℕ) (s : Sig) (v : Value) (i : Item)
      → marshall_as_type L S P B fuel nesting s v ≡ ok i
      → HasType i s
  unfolding marshall_as_type marshall_value
  marshall_as_type-HasType words zero s v i h = absurd (cc)
  marshall_as_type-HasType words (suc nesting) s v i h =
      unwrapping-Typed s _
        (marshall_unwrapped-HasType words (marshall_as_type L S P B fuel nesting)
          (marshall_as_type-HasType words nesting) s)
        v i h
