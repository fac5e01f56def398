-- ===== src/Callback.antt =====
-- src/l2dbus_callback.c: the thread that callbacks run on, and the references to a handler and to the
-- value that its user gave.
pub mod Laws
use l2dbus.Base.{Option, none, some, Bool, true, false, if◌then◌else◌, not}
use l2dbus.Base.Int.{ℤ, eqb_ℤ}
use l2dbus.Lua.Refs.{Refs, no_ref}

-- `l2dbus_CallbackCtx`
pub record CallbackCtx : Type 0 where
  pub func_ref : ℤ
  pub user_ref : ℤ

unfoldable pub callback_init : CallbackCtx
callback_init = record { func_ref = no_ref; user_ref = no_ref }

module _ (V : Type 0) (R : Refs V) where
  open R use {Table, take, release}

  -- The statics `gCallbackThread` and `gCallbackRef`, and the registry. A thread is a Lua value.
  pub record Globals : Type 0 where
    pub refs : Table
    pub callback_thread : Option V
    pub callback_ref : ℤ

  -- `thread` is what lua_newthread pushes.
  unfoldable pub callback_configure : V → Globals → Globals
  callback_configure thread g = elim (g.callback_thread) [
    | some running ↦ g
    | none ↦
        let (t, r) = take g.refs (some thread) in
        record { refs = t; callback_thread = some thread; callback_ref = r }
  ]

  -- The thread itself is not forgotten.
  unfoldable pub callback_shutdown : Globals → Globals
  callback_shutdown g =
      if eqb_ℤ g.callback_ref no_ref
      then g
      else record g { refs = release g.refs g.callback_ref; callback_ref = no_ref }

  unfoldable pub callback_get_thread : Globals → Option V
  callback_get_thread g = g.callback_thread

  -- A slot: the reference to the value at an index, `none` for `L2DBUS_CALLBACK_NOREF_NEEDED`. The
  -- value may be nil.
  unfoldable pub slot : Table → Option (Option V) → Table × ℤ
  slot t none = (t, no_ref)
  slot t (some v) = take t v

  unfoldable pub callback_ref : Table → Option (Option V) → Option (Option V) → Table × CallbackCtx
  unfolding slot
  callback_ref t func user =
      let (t1, f) = slot t func in
      let (t2, u) = slot t1 user in (t2, record { func_ref = f; user_ref = u })

  -- The references in the context stay as they are.
  unfoldable pub callback_unref : Table → CallbackCtx → Table
  callback_unref t ctx = release (release t ctx.func_ref) ctx.user_ref
