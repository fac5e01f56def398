-- ===== src/Transcode/Signature/Grammar.antt =====
-- Signatures as the D-Bus specification defines them, and what `l2dbus_dbusComputeSignature` of
-- src/l2dbus_transcode.c appends to its buffer.
use l2dbus.Base.{
  ℕ, zero, suc, ◌+◌, ◌<◌, ◌≡◌, ◌≢◌, sym, ap, ◌∙◌, inl, inr, refl, arith, Bool, true, false, some,
  List, [], ◌∷◌, ◌++◌, append_assoc, ◌==◌, length, Bool-cases, Result, ok, >>=-eq-ok, ==_iff,
}
use l2dbus.Dbus.{DbusType, code, is_basic}
use l2dbus.Lua.{Lua, Bytes}
use l2dbus.Transcode.Tables.{map_lua_to_dbus_type}
use l2dbus.Transcode.Wrapper.{get_cached_signature, get_value}
use l2dbus.Transcode.Signature.{
  StringBuffer, Outcome, append_all, if_valid, Recur, first_element, fields, structure, first_entry,
  dictionary,
}

-- One complete type, and a sequence of at least one.
mutual
  pub data Single : Bytes → Type 0 where
    basic : {w : Bytes} (t : DbusType) → is_basic t ≡ true → w ≡ code t ∷ [] → Single w
    variant : {w : Bytes} → w ≡ b'v' ∷ [] → Single w
    array : {w s : Bytes} → Single s → w ≡ b'a' ∷ s → Single w
    struct : {w s : Bytes} → Some s → w ≡ b'(' ∷ (s ++ b')' ∷ []) → Single w
    dict :
        {w s : Bytes} (t : DbusType)
        → is_basic t ≡ true
        → Single s
        → w ≡ b'a' ∷ b'{' ∷ code t ∷ (s ++ b'}' ∷ [])
        → Single w

  pub data Some : Bytes → Type 0 where
    one : {s : Bytes} → Single s → Some s
    more : {s r : Bytes} → Single s → Some r → Some (s ++ r)

-- When the buffer says that it appended every byte, it did.
abbrev pub AppendExact : StringBuffer → Type 0
AppendExact S =
    (b : S.Buffer) (s : Bytes)
    → (S.append b s).1 ≡ length s
    → S.contents (S.append b s).0 ≡ S.contents b ++ s

module _ (L : Lua) (S : StringBuffer) (fuel : ℕ) (exact : AppendExact S) where
  open L use {Value, raw_len, raw_get_i, entries}
  open S use {Buffer, contents, buffer_length}

  abbrev pub Extends : Buffer → Buffer → Bytes → Type 0
  Extends b b' s = contents b' ≡ contents b ++ s

  pub Extends-trans :
      (b c d : Buffer) (s r : Bytes) → Extends b c s → Extends c d r → Extends b d (s ++ r)
  Extends-trans b c d s r p q = q ∙ ap (λ t. t ++ r) p ∙ append_assoc (contents b) s r

  pub append_all-Extends :
      (b b' : Buffer) (s : Bytes) → append_all L S fuel b s ≡ (true, b') → Extends b b' s
  unfolding append_all
  append_all-Extends b b' s h =
      let whole = ap (λ (o : Bool × Buffer). o.0) h in
      let last = ap (λ (o : Bool × Buffer). o.1) h in
      rw (← last) (exact b s (sym ((==_iff _ _).0 whole)))

  pub if_valid-true :
      (o : Outcome L S fuel) (next : Buffer → Result (Outcome L S fuel)) (b' : Buffer)
      → if_valid L S fuel o next ≡ ok (true, b')
      → (c : Buffer) × (o ≡ (true, c)) × (next c ≡ ok (true, b'))
  if_valid-true (true, c) next b' h = (c, refl, h)
  if_valid-true (false, c) next b' h = absurd (ground arith)

  -- What a computation of a part appends: one complete type, and the letter itself for a basic one.
  abbrev pub Appends : Buffer → Value → Buffer → Type 0
  Appends b v b' =
      (s : Bytes) × Extends b b' s
      × Single s
      × ((t : DbusType)
          → map_lua_to_dbus_type L fuel v ≡ some t
          → is_basic t ≡ true
          → s ≡ code t ∷ [])

  abbrev pub IsGood : Recur L S fuel → Type 0
  IsGood recur = (b : Buffer) (v : Value) (b' : Buffer) → recur b v ≡ ok (true, b') → Appends b v b'

  -- A stored signature is one complete type, there is no explicit variant, structures have fields,
  -- and dictionaries have entries, whose keys are of basic types.
  pub record WellWrapped : Type 0 where
    pub stored :
        (v : Value) (t : DbusType) (s : Bytes)
        → map_lua_to_dbus_type L fuel v ≡ some t
        → get_cached_signature L v ≡ ok (some s)
        → Single s
    pub plain : (v : Value) → map_lua_to_dbus_type L fuel v ≢ some DbusType.variant
    pub filled :
        (v u : Value)
        → map_lua_to_dbus_type L fuel v ≡ some DbusType.struct
        → get_value L v ≡ ok u
        → 0 < raw_len u
    pub keyed :
        (v u : Value)
        → map_lua_to_dbus_type L fuel v ≡ some DbusType.dict_entry
        → get_value L v ≡ ok u
        → (k w : Value) × (es : List (Value × Value)) × (t : DbusType) × (entries u ≡ (k, w) ∷ es)
          × (map_lua_to_dbus_type L fuel k ≡ some t)
          × (is_basic t ≡ true)

  module _ (recur : Recur L S fuel) (good : IsGood recur) where
    fields-Some :
        (u : Value) (count idx : ℕ) (b b' : Buffer)
        → fields L S fuel recur u (suc count) idx b ≡ ok (true, b')
        → (s : Bytes) × Extends b b' s × Some s
    unfolding fields
    fields-Some u zero idx b b' h =
        let (o, first, h') = >>=-eq-ok _ _ h in
        let (c, valid, last) = if_valid-true o _ b' h' in
        let (s, e, single, _) = good b (raw_get_i u idx) c (first ∙ ap ok valid) in
        (s, ground arith, one single)
    fields-Some u (suc count) idx b b' h =
        let (o, first, h') = >>=-eq-ok _ _ h in
        let (c, valid, rest) = if_valid-true o _ b' h' in
        let (s, e, single, _) = good b (raw_get_i u idx) c (first ∙ ap ok valid) in
        let (r, e', others) = fields-Some u count (idx + 1) c b' rest in
        (s ++ r, Extends-trans b c b' s r e e', more single others)

    fields_filled :
        (u : Value) (count idx : ℕ) (b b' : Buffer)
        → 0 < count
        → fields L S fuel recur u count idx b ≡ ok (true, b')
        → (s : Bytes) × Extends b b' s × Some s
    fields_filled u zero idx b b' h e = elim h [ ]
    fields_filled u (suc count) idx b b' h e = fields-Some u count idx b b' e

    -- What a body adds, with the opening in front of it.
    abbrev Completes : Buffer → Buffer → Type 0
    Completes b₀ b' = (s : Bytes) × Extends b₀ b' s × Single s

    pub structure-Single :
        (u : Value) (b₀ b b' : Buffer)
        → 0 < raw_len u
        → Extends b₀ b (b'(' ∷ [])
        → structure L S fuel recur u b ≡ ok (true, b')
        → Completes b₀ b'
    unfolding structure
    structure-Single u b₀ b b' filled opened h =
        let (o, inner, h') = >>=-eq-ok _ _ h in
        let (c, valid, closed) = if_valid-true o _ b' h' in
        let (s, e, some_fields) = fields_filled u (raw_len u) 1 b c filled (inner ∙ ap ok valid) in
        let end = append_all-Extends c b' (b')' ∷ []) (ground arith) in
        (
          b'(' ∷ (s ++ b')' ∷ []),
          Extends-trans b₀ b b' _ _ opened (Extends-trans b c b' s _ e end),
          struct some_fields refl,
        )

    pub first_element-Single :
        (u : Value) (b₀ b b' : Buffer)
        → Extends b₀ b (b'a' ∷ [])
        → first_element L S fuel recur u b ≡ ok (true, b')
        → Completes b₀ b'
    unfolding first_element
    first_element-Single u b₀ b b' opened h = elim (Bool-cases (raw_len u == 0)) [
      | inl empty ↦ absurd (ground arith)
      | inr filled ↦
          let (s, e, single, _) = good b (raw_get_i u 1) b' (rw filled at h) in
          (b'a' ∷ s, Extends-trans b₀ b b' _ s opened e, array single refl)
    ]

    pub dictionary-Single :
        (u k w : Value) (es : List (Value × Value)) (t : DbusType) (b₀ b b' : Buffer)
        → entries u ≡ (k, w) ∷ es
        → map_lua_to_dbus_type L fuel k ≡ some t
        → is_basic t ≡ true
        → Extends b₀ b (b'a' ∷ b'{' ∷ [])
        → dictionary L S fuel recur u b ≡ ok (true, b')
        → Completes b₀ b'
    unfolding dictionary first_entry
    dictionary-Single u k w es t b₀ b b' pairs key base opened h =
        let (o, inner, h') = >>=-eq-ok _ _ (rw (pairs, first_entry) at h) in
        let (c, valid, closed) = if_valid-true o _ b' h' in
        let (o', key_part, h'') = >>=-eq-ok _ _ (inner ∙ ap ok valid) in
        let (d, valid', value_part) = if_valid-true o' _ c h'' in
        let (s, e, single, exactly) = good b k d (key_part ∙ ap ok valid') in
        let e' = append_all-Extends d c (b'v' ∷ []) (ground arith) in
        let end = append_all-Extends c b' (b'}' ∷ []) (ground arith) in
        let s_is = exactly t key base in
        (
          b'a' ∷ b'{' ∷ code t ∷ (b'v' ∷ [] ++ b'}' ∷ []),
          Extends-trans b₀ b b' (b'a' ∷ b'{' ∷ []) (code t ∷ b'v' ∷ b'}' ∷ []) opened (
              Extends-trans b d b' (code t ∷ []) (b'v' ∷ b'}' ∷ []) (rw (← s_is) e)
                (Extends-trans d c b' (b'v' ∷ []) _ e' end)),
          dict t base (variant refl) refl,
        )

-- The letter of a variant with anything behind it is more than one complete type.
pub more_than_variant : (c : ℕ) (s : Bytes) → ¬ Single (b'v' ∷ c ∷ s)
more_than_variant c s (basic t base e) = ground arith
more_than_variant c s (variant e) = ground arith
more_than_variant c s (array inner e) = ground arith
more_than_variant c s (struct inner e) = ground arith
more_than_variant c s (dict t base inner e) = ground arith
