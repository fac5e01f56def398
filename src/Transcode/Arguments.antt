-- ===== src/Transcode/Arguments.antt =====
-- `l2dbus_transcodeLuaArgsToDbusBySignature` and `l2dbus_transcodeLuaArgsToDbus` of
-- src/l2dbus_transcode.c: the arguments of a Lua call become those of a message. The result is what is
-- appended to the message, which is absent where the pointer is NULL.
pub mod Count
pub mod Ends
use l2dbus.Base.{
  ℕ, Bool, true, false, Option, none, some, List, [], ◌∷◌, Result, ok, lua_error, undefined, Error,
  Fault, ◌>>=◌, if◌then◌else◌,
}
use l2dbus.Lua.{Lua, Bytes}
use l2dbus.Transcode.Marshall.{Buffers, unwrapped, signature_of, marshall_as_type}
use l2dbus.Transcode.Message.{Sigs, followed, Item, Items, item, Library}
use l2dbus.Transcode.Signature.{StringBuffer}

module _ (L : Lua) (S : StringBuffer) (P : Buffers S) (B : Library) (fuel nesting : ℕ) where
  open L use {Value}
  open S use {Buffer, contents}
  open P use {new_buffer, clear_buffer}
  open B use {parse}

  -- A value by the type at a signature iterator, which may stand at the end.
  unfoldable pub marshall_at : Sigs → Value → Result Item
  marshall_at Sigs.end v = do _ ← unwrapped L S P B fuel v; lua_error Error.cannot_convert_signature
  marshall_at (followed s ss) v = marshall_as_type L S P B fuel nesting s v

  -- `dbus_signature_iter_next`, which stays on the last type.
  abbrev pub following : Sigs → Sigs
  following Sigs.end = Sigs.end
  following (followed s ss) = ss

  -- The loop goes on while there are types and arguments; arguments that are left are an error.
  unfoldable pub next_argument : Sigs → List Value → Result Items → Result Items
  next_argument Sigs.end (v ∷ vs) rest = lua_error Error.mismatch
  next_argument _ _ rest = rest

  unfoldable pub marshall_arguments : Sigs → List Value → Result Items
  marshall_arguments ss [] = ok Items.end
  marshall_arguments ss (v ∷ vs) = do
    i ← marshall_at ss v
    is ← next_argument (following ss) vs (marshall_arguments (following ss) vs)
    ok (item i is)

  unfoldable pub lua_args_to_dbus_by_signature :
      (message : Bool) → List Value → (signature : Option Bytes) → Result Items
  lua_args_to_dbus_by_signature false args signature = lua_error Error.no_message
  lua_args_to_dbus_by_signature true args none = lua_error Error.no_signature
  lua_args_to_dbus_by_signature true args (some s) = elim (parse s) [
    | none ↦ lua_error Error.invalid_signature
    | some ss ↦ marshall_arguments ss args
  ]

  -- The types of a computed signature, if it is valid.
  abbrev pub parsed : Bool × Buffer → Option Sigs
  parsed (true, b) = parse (contents b)
  parsed (false, b) = none

  -- Each argument by the signature that is computed for it.
  unfoldable pub marshall_computed : Buffer → List Value → Result Items
  marshall_computed b [] = ok Items.end
  marshall_computed b (v ∷ vs) = do
    (valid, b') ← signature_of L S P B fuel b v
    i ← elim (parsed (valid, b')) as (λ _. Result Item) [
      | none ↦ lua_error Error.cannot_convert_argument
      | some ss ↦ marshall_at ss v
    ]
    is ← marshall_computed (clear_buffer b') vs
    ok (item i is)

  -- The pointer to the new buffer is not tested.
  unfoldable pub lua_args_to_dbus : (message : Bool) → List Value → Result Items
  lua_args_to_dbus false args = lua_error Error.no_message
  lua_args_to_dbus true args = elim new_buffer [
    | none ↦ undefined Fault.null_pointer
    | some b ↦ marshall_computed b args
  ]
