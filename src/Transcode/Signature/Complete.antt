-- ===== src/Transcode/Signature/Complete.antt =====
-- What `l2dbus_dbusComputeSignature` of src/l2dbus_transcode.c appends for a value is one complete type.
use l2dbus.Base.{
  ℕ, zero, suc, ◌+◌, ◌≡◌, inl, inr, refl, arith, true, false, Option, none, some, [], ◌∷◌, ◌++◌,
  Bool-cases, Option-cases, leb, ltb, Result, ok, ◌>>=◌, >>=-eq-ok,
}
use l2dbus.Dbus.{DbusType, code, is_basic}
use l2dbus.Lua.{Lua, Bytes}
use l2dbus.Transcode.Tables.{map_lua_to_dbus_type}
use l2dbus.Transcode.Wrapper.{get_cached_signature, get_value}
use l2dbus.Transcode.Signature.{
  StringBuffer, Outcome, append_all, if_valid, Recur, container, by_type, compute_signature,
  maximum_signature_length, maximum_type_recursion_depth,
}
use l2dbus.Transcode.Signature.Grammar.{
  Single, AppendExact, Extends, append_all-Extends, if_valid-true, Appends, IsGood, WellWrapped,
  structure-Single, first_element-Single, dictionary-Single,
}

module _ (L : Lua) (S : StringBuffer) (fuel : ℕ) (exact : AppendExact S) where
  open L use {Value, raw_len, raw_get_i, entries}
  open S use {Buffer, contents, buffer_length}

  -- A container with a stored signature, or a body that completes its opening.
  container-Single :
      (b v_b : Buffer) (v : Value) (opening : Bytes)
      (body : Value → Buffer → Result (Outcome L S fuel))
      → ((s : Bytes) → get_cached_signature L v ≡ ok (some s) → Single s)
      → ((u : Value) (c : Buffer)
          → get_cached_signature L v ≡ ok none
          → get_value L v ≡ ok u
          → Extends L S fuel exact b c opening
          → body u c ≡ ok (true, v_b)
          → (s : Bytes) × Extends L S fuel exact b v_b s × Single s)
      → container L S fuel b v opening body ≡ ok (true, v_b)
      → (s : Bytes) × Extends L S fuel exact b v_b s × Single s
  unfolding container
  container-Single b b' v opening body stored completes h =
      let (cached, is_cached, h') = >>=-eq-ok _ _ h in by_cache cached is_cached h'
    where
      by_cache :
          (cached : Option Bytes)
          → get_cached_signature L v ≡ ok cached
          → (elim cached as (λ _. Result (Outcome L S fuel)) [
            | some s ↦ ok (append_all L S fuel b s)
            | none ↦
                if_valid L S fuel
                  (append_all L S fuel b opening)
                  (λ c. get_value L v >>= λ u. body u c)
          ])
            ≡ ok (true, b')
          → (s : Bytes) × Extends L S fuel exact b b' s × Single s
      by_cache (some s) e h =
          (s, append_all-Extends L S fuel exact b b' s (ground arith), stored s e)
      by_cache none e h =
          let (c, opened, h') = if_valid-true L S fuel exact _ _ b' h in
          let (u, wrapped, last) = >>=-eq-ok _ _ h' in
          completes u c e wrapped (append_all-Extends L S fuel exact b c opening opened) last

  -- A container has no letter of its own.
  appended :
      (b b' : Buffer) (v : Value) (t : DbusType)
      → map_lua_to_dbus_type L fuel v ≡ some t
      → is_basic t ≡ false
      → (s : Bytes) × Extends L S fuel exact b b' s × Single s
      → Appends L S fuel exact b v b'
  appended b b' v t e container (s, extends, single) =
      (s, extends, single, λ t' e' base. absurd (ground arith))

  -- A basic type is its letter.
  letter :
      (b b' : Buffer) (v : Value) (t : DbusType)
      → map_lua_to_dbus_type L fuel v ≡ some t
      → is_basic t ≡ true
      → ok (append_all L S fuel b (code t ∷ [])) ≡ ok (true, b')
      → Appends L S fuel exact b v b'
  letter b b' v t e base h = (
    code t ∷ [],
    append_all-Extends L S fuel exact b b' (code t ∷ []) (ground arith),
    Single.basic t base refl,
    λ t' e' base'. let same : t' ≡ t = cc in rw same,
  )

  module _ (wrapped : WellWrapped L S fuel exact) (recur : Recur L S fuel)
      (good : IsGood L S fuel exact recur) where
    by_type-Appends :
        (t : DbusType) (b : Buffer) (v : Value) (b' : Buffer)
        → map_lua_to_dbus_type L fuel v ≡ some t
        → by_type L S fuel recur t b v ≡ ok (true, b')
        → Appends L S fuel exact b v b'
    unfolding by_type
    by_type-Appends DbusType.array b v b' e h = appended b b' v DbusType.array e refl (
        container-Single b b' v _ _ (λ s. wrapped.stored v DbusType.array s e)
          (λ u c _ _. first_element-Single L S fuel exact recur good u b c b') h)
    by_type-Appends DbusType.struct b v b' e h = appended b b' v DbusType.struct e refl (
        container-Single b b' v _ _ (λ s. wrapped.stored v DbusType.struct s e)
          (λ u c _ g. structure-Single L S fuel exact recur good u b c b' (wrapped.filled v u e g))
          h)
    by_type-Appends DbusType.variant b v b' e h = absurd (wrapped.plain v e)
    by_type-Appends DbusType.dict_entry b v b' e h = appended b b' v DbusType.dict_entry e refl (
        container-Single b b' v _ _ (λ s. wrapped.stored v DbusType.dict_entry s e)
          (λ u c _ g.
            let (k, w, es, t, pairs, key, base) = wrapped.keyed v u e g in
            dictionary-Single L S fuel exact recur good u k w es t b c b' pairs key base)
          h)
    by_type-Appends DbusType.invalid b v b' e h = absurd (ground arith)
    by_type-Appends t b v b' e h = letter b b' v t e refl h

  compute_signature-Appends :
      WellWrapped L S fuel exact
      → (levels level : ℕ) → IsGood L S fuel exact (compute_signature L S fuel levels level)
  unfolding compute_signature
  compute_signature-Appends wrapped zero level b v b' h = absurd (cc)
  compute_signature-Appends wrapped (suc levels) level b v b' h =
      elim (Bool-cases (leb maximum_signature_length (buffer_length b))) [
        | inl long ↦ absurd (cc (rw long at h))
        | inr short ↦ elim (Bool-cases (ltb maximum_type_recursion_depth level)) [
          | inl deep ↦ absurd (cc (rw (short, deep) at h))
          | inr shallow ↦ elim (Option-cases (map_lua_to_dbus_type L fuel v)) [
            | inl cut ↦ absurd (cc (rw (short, shallow, cut) at h))
            | inr (t, mapped) ↦
                by_type-Appends wrapped _ (compute_signature-Appends wrapped levels (level + 1)) t b
                  v b' mapped (rw (short, shallow, mapped) at h)
          ]
        ]
      ]

  -- Where the buffer appends what it says it does and the values are well wrapped (stored signatures
  -- are complete types, no explicit variant, structures and dictionaries not empty and the first key
  -- of a basic type): when the computation reports a valid signature, the buffer holds its old content
  -- and, behind it, one complete type of the D-Bus specification.
  pub compute_signature-Single :
      WellWrapped L S fuel exact
      → (levels level : ℕ) (b : Buffer) (v : Value) (b' : Buffer)
      → compute_signature L S fuel levels level b v ≡ ok (true, b')
      → (s : Bytes) × (contents b' ≡ contents b ++ s) × Single s
  compute_signature-Single wrapped levels level b v b' h =
      let (s, extends, single, _) = compute_signature-Appends wrapped levels level b v b' h in
      (s, extends, single)
