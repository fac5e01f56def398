-- ===== src/PendingCall.antt =====
-- src/l2dbus_pendingcall.c: calls of methods whose reply is awaited, as userdata.
pub mod Notify
use l2dbus.Base.{
  ℕ, Bool, true, false, Option, none, some, List, Result, ok, lua_error, undefined, out_of_fuel,
  Error, if◌then◌else◌,
}
use l2dbus.Base.Actions.{Action, pure, lift, raise, gets, modify, ◌>>=◌, ◌>>◌}
use l2dbus.Base.Int.{ℤ}
use l2dbus.Boxed.{check_type}
use l2dbus.Callback.{CallbackCtx, callback_init, callback_ref, callback_unref}
use l2dbus.Lua.{Lua, LuaType}
use l2dbus.Lua.Refs.{Refs}
use l2dbus.Object.{object_registry_add, object_registry_get, object_registry_remove}
use l2dbus.Userdata.{
  State, set_object, store, load, check_module_initialized, handle, cdbus_set, registry_call,
  take_ref, release_ref, to_ref, optional_ref, check_object,
}

-- `l2dbus_PendingCall`
pub record PendingCallUd : Type 0 where
  pub pending_call : Option ℕ
  pub conn_ref : ℤ
  pub cb : CallbackCtx

-- The pending calls of libdbus. A message is a handle; a notification is for the userdata at an address.
pub record PendingCalls : Type 1 where
  pub World : Type 0
  pub set_notify : World → (pending user : ℕ) → World × Bool
  pub cancel : World → ℕ → World
  pub completed : World → ℕ → Bool
  pub steal_reply : World → ℕ → World × Option ℕ
  pub block : World → ℕ → World
  pub unref : World → ℕ → World

module _ (L : Lua) (R : Refs L.Value) (D : PendingCalls) where
  open L use {Value}
  open R use {Table, anchored}
  open D use {World, set_notify, cancel, completed, steal_reply, block, unref}

  abbrev pub Host : Type 0
  Host = State Table Value PendingCallUd World

  -- luaL_checkudata of the argument after the test of the module.
  abbrev pub check_pending : Value → Action Host (ℕ × PendingCallUd)
  check_pending v = check_module_initialized >> check_object L v "l2dbus.pending_call"

  abbrev pub unref_callback : CallbackCtx → Action Host (Unit {0})
  unref_callback ctx s = (record s { refs = callback_unref Value R s.refs ctx }, ok tt)

  abbrev pub take_callback : Value → Option Value → Action Host CallbackCtx
  take_callback func user s =
      let (t, ctx) = callback_ref Value R s.refs (some (to_ref L func)) (optional_ref L user) in
      (record s { refs = t }, ok ctx)

  -- `place` is the new block and its userdata.
  unfoldable pub new_pending_call :
      (pending : Option ℕ) (conn : Value) → (place : Option (ℕ × Value)) → Action Host Value
  new_pending_call pending conn place = check_module_initialized >> elim place [
    | none ↦ raise Error.no_memory
    | some (p, self) ↦ do
      r ← take_ref R (to_ref L conn)
      store p (record { pending_call = pending; conn_ref = r; cb = callback_init })
      registry_call (object_registry_add p self)
      pure self
  ]

  abbrev pub notify : (pending user : ℕ) → Action Host Bool
  notify h p s = (record s { world = (set_notify s.world h p).0 }, ok (set_notify s.world h p).1)

  -- The references to a callback whose registration fails are given back, but stay noted.
  unfoldable pub pending_call_set_notify :
      (self func : Value) → (user : Option Value) → Action Host Bool
  pending_call_set_notify self func user = do
    (p, ud) ← check_pending self
    lift (check_type L func LuaType.function)
    unref_callback ud.cb
    ctx ← take_callback func user
    store p (record ud { cb = ctx })
    h ← handle ud.pending_call
    done ← notify h p
    elim done [ true ↦ pure true | false ↦ unref_callback ctx >> pure false ]

  unfoldable pub pending_call_cancel : Value → Action Host (Unit {0})
  pending_call_cancel self = do
    (p, ud) ← check_pending self
    h ← handle ud.pending_call
    cdbus_set (λ w. cancel w h)
    unref_callback ud.cb

  unfoldable pub pending_call_is_completed : Value → Action Host Bool
  pending_call_is_completed self = do
    (p, ud) ← check_pending self
    h ← handle ud.pending_call
    gets (λ s. completed s.world h)

  -- The message that l2dbus_messageWrap is called with, `none` where nil is pushed.
  unfoldable pub pending_call_steal_reply : Value → Action Host (Option ℕ)
  pending_call_steal_reply self = do
    (p, ud) ← check_pending self
    h ← handle ud.pending_call
    stolen ← gets (λ s. (steal_reply s.world h).1)
    cdbus_set (λ w. (steal_reply w h).0)
    pure stolen

  unfoldable pub pending_call_block : Value → Action Host (Unit {0})
  pending_call_block self = do
    (p, ud) ← check_pending self
    h ← handle ud.pending_call
    cdbus_set (λ w. block w h)

  -- Whether the call is completed is asked before the pointer is tested for NULL.
  unfoldable pub pending_call_dispose : Value → Action Host (Unit {0})
  pending_call_dispose self = do
    (p, ud) ← check_object L self "l2dbus.pending_call"
    h ← handle ud.pending_call
    cdbus_set (λ w. unref (if completed w h then w else cancel w h) h)
    registry_call (object_registry_remove p)
    release_ref R ud.conn_ref
    unref_callback ud.cb

  abbrev pub Call : Type 0
  Call = Option Value × (Value × Option Value)

  unfoldable pub pending_called : ℕ → Action Host (Option Call)
  pending_called p s = elim (object_registry_get p s.registry) [
    | ok (some self) ↦
        (do
          ud ← load p
          gets (λ s. some (anchored s.refs ud.cb.func_ref, (self, anchored s.refs ud.cb.user_ref))))
          s
    | ok none ↦ (s, ok none)
    | _ ↦ (s, lua_error Error.not_initialized)
  ]

  -- `run` is lua_pcall of the handler with the userdata and the value of the user.
  unfoldable pub pending_call_handler : (run : Call → Host → Host) → ℕ → Action Host (Unit {0})
  pending_call_handler run p = do
    found ← pending_called p
    elim found [ none ↦ pure tt | some call ↦ modify (run call) ]
