-- ===== src/Transcode/Arguments/Count.antt =====
-- What `l2dbus_transcodeLuaArgsToDbusBySignature` of src/l2dbus_transcode.c appends for the arguments.
use l2dbus.Base.{
  ℕ, ◌≤◌, ◌≡◌, refl, arith, inl, inr, Bool, true, false, Option, none, some, List, [], ◌∷◌, length,
  Option-cases, Result, ok, >>=-eq-ok,
}
use l2dbus.Lua.{Lua, Bytes}
use l2dbus.Lua.Laws.{HoldsWords}
use l2dbus.Transcode.Arguments.{
  marshall_at, following, next_argument, marshall_arguments, lua_args_to_dbus_by_signature,
}
use l2dbus.Transcode.Marshall.{Buffers, unwrapped}
use l2dbus.Transcode.Marshall.Typed.{marshall_as_type-HasType}
use l2dbus.Transcode.Message.{Sigs, followed, Item, Items, item, items_length, sigs_length, Library}
use l2dbus.Transcode.Message.Typing.{HasType, HaveTypes}
use l2dbus.Transcode.Signature.{StringBuffer}

module _ (L : Lua) (S : StringBuffer) (P : Buffers S) (B : Library) (fuel nesting : ℕ)
    (words : HoldsWords L) where
  open L use {Value}

  -- One argument for each type from the first on.
  abbrev pub Covers : List Value → Sigs → Items → Type 0
  Covers args ss is =
      (items_length is ≡ length args) × (length args ≤ sigs_length ss) × HaveTypes is ss

  -- An argument takes the type that is next.
  marshall_at-HasType :
      (ss : Sigs) (v : Value) (i : Item)
      → marshall_at L S P B fuel nesting ss v ≡ ok i
      → (s : _) × (rest : Sigs) × (ss ≡ followed s rest) × HasType i s
  unfolding marshall_at
  marshall_at-HasType Sigs.end v i h =
      absurd (let (_, _, h') = >>=-eq-ok (unwrapped L S P B fuel v) _ h in cc)
  marshall_at-HasType (followed s ss) v i h =
      (s, ss, refl, marshall_as_type-HasType L S P B fuel words nesting s v i h)

  next_argument-ok :
      (ss : Sigs) (vs : List Value) (rest : Result Items) (is : Items)
      → next_argument L S P B fuel nesting ss vs rest ≡ ok is
      → rest ≡ ok is
  unfolding next_argument
  next_argument-ok Sigs.end [] rest is h = h
  next_argument-ok Sigs.end (v ∷ vs) rest is h = absurd (cc)
  next_argument-ok (followed s ss) vs rest is h = h

  marshall_arguments-Covers :
      (ss : Sigs) (args : List Value) (is : Items)
      → marshall_arguments L S P B fuel nesting ss args ≡ ok is
      → Covers args ss is
  unfolding marshall_arguments HasType
  marshall_arguments-Covers ss [] is h =
      let same : Items.end ≡ is = cc in rw (← same) (refl, omega arith, tt)
  marshall_arguments-Covers ss (v ∷ vs) is h =
      let (i, first, h') = >>=-eq-ok (marshall_at L S P B fuel nesting ss v) _ h in
      let (s, rest, there, typed) = marshall_at-HasType ss v i first in
      let left = following L S P B fuel nesting ss in
      let (is', others, last) =
        >>=-eq-ok
          (next_argument L S P B fuel nesting left vs
            (marshall_arguments L S P B fuel nesting left vs))
          _ h' in
      let (count, bound, types) =
        marshall_arguments-Covers left vs is' (next_argument-ok left vs _ is' others) in
      let same : item i is' ≡ is = cc in
      let left_is : left ≡ rest = rw there refl in
      let bound' : length vs ≤ sigs_length rest = rw (← left_is) bound in
      let types' : HaveTypes is' rest = rw (← left_is) types in
      rw (← same, there) (omega (arith, count), omega (arith, bound'), (typed, types'))

  -- Where boxed integers are machine words: a call that succeeds was given a message and a valid
  -- signature with at least as many types as there are arguments, and appends one value for each
  -- argument, the values in the order of the signature's types and of these types. There may be more
  -- types than arguments.
  pub lua_args_to_dbus_by_signature-Covers :
      (message : Bool) (args : List Value) (signature : Option Bytes) (is : Items)
      → lua_args_to_dbus_by_signature L S P B fuel nesting message args signature ≡ ok is
      → (message ≡ true)
        × (s : Bytes) × (signature ≡ some s)
        × (ss : Sigs) × (B.parse s ≡ some ss)
        × Covers args ss is
  unfolding lua_args_to_dbus_by_signature
  lua_args_to_dbus_by_signature-Covers false args signature is h = absurd (cc)
  lua_args_to_dbus_by_signature-Covers true args none is h = absurd (cc)
  lua_args_to_dbus_by_signature-Covers true args (some s) is h =
      let (ss, e, covers) = by_parse in (refl, s, refl, ss, e, covers)
    where
      by_parse : (ss : Sigs) × (B.parse s ≡ some ss) × Covers args ss is
      by_parse = elim (Option-cases (B.parse s)) [
        | inl bad ↦ absurd (cc (rw (bad, lua_args_to_dbus_by_signature) at h))
        | inr (ss, e) ↦ (
          ss,
          e,
          marshall_arguments-Covers ss args is (rw (e, lua_args_to_dbus_by_signature) at h),
        )
      ]
