-- ===== src/Transcode/Signature/Variant.antt =====
-- The variants of `l2dbus_dbusComputeSignature` (src/l2dbus_transcode.c): the signature of the wrapped
-- value is appended behind the letter `v`.
use l2dbus.Base.{
  ℕ, zero, suc, ◌≡◌, ◌≢◌, sym, ap, ◌∙◌, inl, inr, refl, arith, true, none, some, [], ◌∷◌, ◌++◌,
  append_assoc, Bool-cases, leb, ltb, ok, ◌+◌,
}
use l2dbus.Dbus.{DbusType, code, is_basic}
use l2dbus.Lua.{Lua}
use l2dbus.Transcode.Tables.{map_lua_to_dbus_type}
use l2dbus.Transcode.Wrapper.{get_cached_signature, get_value}
use l2dbus.Transcode.Signature.{
  StringBuffer, append_all, container, by_type, compute_signature, maximum_signature_length,
  maximum_type_recursion_depth,
}
use l2dbus.Transcode.Signature.Grammar.{
  AppendExact, append_all-Extends, if_valid-true, Single, more_than_variant,
}

module _ (L : Lua) (S : StringBuffer) (fuel : ℕ) (exact : AppendExact S) where
  open L use {Value}
  open S use {Buffer, contents, buffer_length}

  -- A signature that was computed passed the two limits.
  within_limits :
      (levels level : ℕ) (b b' : Buffer) (v : Value) (t : DbusType)
      → map_lua_to_dbus_type L fuel v ≡ some t
      → compute_signature L S fuel (suc levels) level b v ≡ ok (true, b')
      → by_type L S fuel (compute_signature L S fuel levels (level + 1)) t b v ≡ ok (true, b')
  unfolding compute_signature
  within_limits levels level b b' v t mapped h =
      elim (Bool-cases (leb maximum_signature_length (buffer_length b))) [
        | inl long ↦ absurd (cc (rw long at h))
        | inr short ↦ elim (Bool-cases (ltb maximum_type_recursion_depth level)) [
          | inl deep ↦ absurd (cc (rw (short, deep) at h))
          | inr shallow ↦ rw (short, shallow, mapped) at h
        ]
      ]

  by_type-basic :
      (levels level : ℕ) (t : DbusType) (b : Buffer) (v : Value)
      → is_basic t ≡ true
      → by_type L S fuel (compute_signature L S fuel levels level) t b v
        ≡ ok (append_all L S fuel b (code t ∷ []))
  unfolding by_type
  by_type-basic levels level DbusType.array b v h = absurd (cc)
  by_type-basic levels level DbusType.struct b v h = absurd (cc)
  by_type-basic levels level DbusType.variant b v h = absurd (cc)
  by_type-basic levels level DbusType.dict_entry b v h = absurd (cc)
  by_type-basic levels level DbusType.invalid b v h = absurd (cc)
  by_type-basic levels level t b v h = refl

  no_levels :
      (level : ℕ) (b b' : Buffer) (v : Value)
      → compute_signature L S fuel 0 level b v ≢ ok (true, b')
  unfolding compute_signature
  no_levels level b b' v h = cc

  basic_letter :
      (levels level : ℕ) (b b' : Buffer) (v : Value) (t : DbusType)
      → map_lua_to_dbus_type L fuel v ≡ some t
      → is_basic t ≡ true
      → compute_signature L S fuel levels level b v ≡ ok (true, b')
      → contents b' ≡ contents b ++ code t ∷ []
  basic_letter zero level b b' v t mapped base h = absurd (no_levels level b b' v h)
  basic_letter (suc levels) level b b' v t mapped base h =
      let h' =
        sym (by_type-basic levels (level + 1) t b v base)
        ∙ within_limits levels level b b' v t mapped h in
      append_all-Extends L S fuel exact b b' (code t ∷ []) (ground arith)

  -- Where the buffer appends what it says it does: a valid signature that is computed for a wrapped
  -- variant, without a stored signature, around a value of a basic type appends the letter `v` and the
  -- letter of that type, which is not one complete type.
  pub compute_signature-variant :
      (levels level : ℕ) (b b' : Buffer) (v u : Value) (t : DbusType)
      → map_lua_to_dbus_type L fuel v ≡ some DbusType.variant
      → get_cached_signature L v ≡ ok none
      → get_value L v ≡ ok u
      → map_lua_to_dbus_type L fuel u ≡ some t
      → is_basic t ≡ true
      → compute_signature L S fuel levels level b v ≡ ok (true, b')
      → (contents b' ≡ contents b ++ b'v' ∷ code t ∷ []) × (¬ Single (b'v' ∷ code t ∷ []))
  unfolding by_type container
  compute_signature-variant zero level b b' v u t mapped fresh wrapped inner base h =
      absurd (no_levels level b b' v h)
  compute_signature-variant (suc levels) level b b' v u t mapped fresh wrapped inner base h =
      let whole = within_limits levels level b b' v DbusType.variant mapped h in
      let (c, opened, h') = if_valid-true L S fuel exact _ _ b' (rw (fresh, container) at whole) in
      let first = append_all-Extends L S fuel exact b c (b'v' ∷ []) opened in
      let last = basic_letter levels (level + 1) c b' u t inner base (rw wrapped at h') in
      (
        last
            ∙ ap (λ w. w ++ code t ∷ []) first
            ∙ append_assoc (contents b) (b'v' ∷ []) (code t ∷ []),
        more_than_variant (code t) [],
      )
