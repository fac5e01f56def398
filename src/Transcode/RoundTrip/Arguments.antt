-- ===== src/Transcode/RoundTrip/Arguments.antt =====
-- The argument lists that src/l2dbus_transcode.c sends and returns without a loss.
use l2dbus.Base.{ℕ, suc, ◌≡◌, ◌∙◌, refl, Bool, true, some, List, [], ◌∷◌, Result, ok}
use l2dbus.Lua.{Lua, Bytes}
use l2dbus.Transcode.Arguments.{
  marshall_at, next_argument, marshall_arguments, lua_args_to_dbus_by_signature,
}
use l2dbus.Transcode.Marshall.{Buffers, marshall_value, marshall_as_type}
use l2dbus.Transcode.Message.{Sig, Sigs, followed, Items, Library}
use l2dbus.Transcode.RoundTrip.{Accepting, Reads, ReadArguments}
use l2dbus.Transcode.RoundTrip.Containers.{
  SendsAll, Sends-cons, unwrapping-Sends, marshall_unwrapped-Sends,
}
use l2dbus.Transcode.RoundTrip.Basic.{Sends}
use l2dbus.Transcode.Signature.{StringBuffer}
use l2dbus.Transcode.Unmarshall.{Term, dbus_args_to_lua}
use l2dbus.Transcode.Unmarshall.Returns.{dbus_args_to_lua-terms_of}
use l2dbus.Transcode.Unmarshall.Spec.{term_of, WellFormed}

module _ (L : Lua) (S : StringBuffer) (P : Buffers S) (B : Library) (fuel nesting : ℕ)
    (accepting : Accepting B) where
  open L use {Value}

  marshall_at-Sends :
      (s : Sig) (ss : Sigs) (v : Value) (t : Term)
      → Reads L B s v t
      → Sends L B accepting (marshall_at L S P B fuel (suc nesting) (followed s ss) v) t
  unfolding marshall_at marshall_as_type marshall_value
  marshall_at-Sends s ss v t h =
      unwrapping-Sends L S P B fuel accepting (marshall_as_type L S P B fuel nesting) s
        (marshall_unwrapped-Sends L S P B fuel accepting (marshall_as_type L S P B fuel nesting) s)
        v t h

  next_argument-same :
      (ss : Sigs) (vs : List Value) (ts : List Term) (rest : Result Items)
      → ReadArguments L B ss vs ts
      → next_argument L S P B fuel (suc nesting) ss vs rest ≡ rest
  unfolding next_argument ReadArguments
  next_argument-same Sigs.end [] ts rest h = refl
  next_argument-same Sigs.end (v ∷ vs) ts rest h = absurd h
  next_argument-same (followed s ss) vs ts rest h = refl

  marshall_arguments-SendsAll :
      (ss : Sigs) (vs : List Value) (ts : List Term)
      → ReadArguments L B ss vs ts
      → SendsAll L S P B fuel accepting (marshall_arguments L S P B fuel (suc nesting) ss vs) ts
  unfolding marshall_arguments ReadArguments term_of WellFormed
  marshall_arguments-SendsAll Sigs.end [] [] h = (Items.end, refl, refl, tt)
  marshall_arguments-SendsAll (followed s ss) (v ∷ vs) (t ∷ ts) (h, hs) =
      let rest = marshall_arguments L S P B fuel (suc nesting) ss vs in
      rw (next_argument-same ss vs ts rest hs) (
        Sends-cons L S P B fuel accepting (marshall_at L S P B fuel (suc nesting) (followed s ss) v)
          rest t ts (marshall_at-Sends s ss v t h) (marshall_arguments-SendsAll ss vs ts hs))
  marshall_arguments-SendsAll _ _ _ h = absurd h

  -- Where libdbus takes valid arguments and has the memory to open and close every container, the Lua
  -- stack has room, the signature is valid and the
  -- arguments are Lua values of its types, one for each (Booleans, whole numbers in range, doubles,
  -- strings without a NUL that libdbus finds valid, and arrays and structures of those, without
  -- variants, dictionaries, 64-bit integers and file descriptors): the call that sends them succeeds, and the message that it fills is returned as the
  -- same values.
  pub dbus_args_to_lua-lua_args_to_dbus_by_signature :
      (check_stack : ℕ → Bool)
      → ((n : ℕ) → check_stack n ≡ true)
      → (s : Bytes) (ss : Sigs) → B.parse s ≡ some ss
      → (vs : List Value) (ts : List Term) → ReadArguments L B ss vs ts
      → (is : Items) × (lua_args_to_dbus_by_signature L S P B fuel (suc nesting) true vs (some s)
          ≡ ok is)
        × (dbus_args_to_lua check_stack (some is) ≡ ok ts)
  unfolding lua_args_to_dbus_by_signature
  dbus_args_to_lua-lua_args_to_dbus_by_signature check_stack room s ss parsed vs ts h =
      let (is, sent, stands, well) = marshall_arguments-SendsAll ss vs ts h in
      (
        is,
        rw (parsed, lua_args_to_dbus_by_signature) sent,
        dbus_args_to_lua-terms_of check_stack is room well ∙ stands,
      )
