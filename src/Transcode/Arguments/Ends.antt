-- ===== src/Transcode/Arguments/Ends.antt =====
-- The sending of arguments by a signature (src/l2dbus_transcode.c) ends where no variant stands in it.
use l2dbus.Base.{ℕ, suc, Bool, true, false, ◌≡◌, some, List, [], ◌∷◌, Result, Ends, >>=-Ends}
use l2dbus.Lua.{Lua, Bytes}
use l2dbus.Transcode.Arguments.{
  marshall_at, next_argument, marshall_arguments, following, lua_args_to_dbus_by_signature,
}
use l2dbus.Transcode.Marshall.{Buffers, unwrapped}
use l2dbus.Transcode.Marshall.Ends.{
  HaveNoVariant, HasNoVariant, unwrapped-Ends, marshall_as_type-Ends,
}
use l2dbus.Transcode.Message.{Sigs, followed, Items, Library}
use l2dbus.Transcode.Signature.{StringBuffer}

module _ (L : Lua) (S : StringBuffer) (P : Buffers S) (B : Library) (fuel nesting : ℕ) where
  open L use {Value}
  open B use {parse}

  marshall_at-Ends :
      (ss : Sigs)
      → HaveNoVariant ss
      → (v : Value) → Ends (marshall_at L S P B fuel (suc nesting) ss v)
  unfolding marshall_at HasNoVariant
  marshall_at-Ends Sigs.end h v =
      >>=-Ends (unwrapped L S P B fuel v) _ (unwrapped-Ends L S P B fuel v) (λ _ e. cc)
  marshall_at-Ends (followed s ss) (h, hs) v = marshall_as_type-Ends L S P B fuel s h nesting v

  following-HaveNoVariant :
      (ss : Sigs) → HaveNoVariant ss → HaveNoVariant (following L S P B fuel (suc nesting) ss)
  unfolding HasNoVariant
  following-HaveNoVariant Sigs.end h = h
  following-HaveNoVariant (followed s ss) h = h.1

  next_argument-Ends :
      (ss : Sigs) (vs : List Value) (rest : Result Items)
      → Ends rest
      → Ends (next_argument L S P B fuel (suc nesting) ss vs rest)
  unfolding next_argument
  next_argument-Ends Sigs.end (v ∷ vs) rest h = λ e. cc
  next_argument-Ends Sigs.end [] rest h = h
  next_argument-Ends (followed s ss) vs rest h = h

  marshall_arguments-Ends :
      (ss : Sigs)
      → HaveNoVariant ss
      → (args : List Value) → Ends (marshall_arguments L S P B fuel (suc nesting) ss args)
  unfolding marshall_arguments
  marshall_arguments-Ends ss h [] = λ e. cc
  marshall_arguments-Ends ss h (v ∷ vs) =
      let others = marshall_arguments-Ends _ (following-HaveNoVariant ss h) vs in
      >>=-Ends _ _ (marshall_at-Ends ss h v)
        (λ i. >>=-Ends _ _ (next_argument-Ends _ vs _ others) (λ is e. cc))

  -- Where no variant stands in a signature that is valid, one unit of fuel is enough, whatever the
  -- arguments are and whether there is a message: they are sent, or an error is raised, or C leaves
  -- the behaviour open.
  pub lua_args_to_dbus_by_signature-Ends :
      (s : Bytes) (ss : Sigs)
      → parse s ≡ some ss
      → HaveNoVariant ss
      → (message : Bool) (args : List Value)
      → Ends (lua_args_to_dbus_by_signature L S P B fuel (suc nesting) message args (some s))
  unfolding lua_args_to_dbus_by_signature
  lua_args_to_dbus_by_signature-Ends s ss valid h false args = λ e. cc
  lua_args_to_dbus_by_signature-Ends s ss valid h true args =
      rw (valid, lua_args_to_dbus_by_signature) (marshall_arguments-Ends ss h args)
