-- ===== src/Source.antt =====
-- What src/l2dbus_timeout.c and src/l2dbus_watch.c have in common, function for function: userdata that
-- stands for an event source of libcdbus, with references to its dispatcher, its handler and the value
-- of its user, and while it is enabled to itself.
pub mod Anchors
pub mod Steps
use Prim.Native.String.{String}
use l2dbus.Base.{
  ℕ, Bool, true, false, not, Option, none, some, List, if◌then◌else◌, Result, ok, lua_error, Error,
}
use l2dbus.Base.Actions.{Action, pure, lift, gets, modify, ◌>>=◌, ◌>>◌}
use l2dbus.Base.Int.{ℤ}
use l2dbus.Boxed.{check_type, check_any}
use l2dbus.Callback.{CallbackCtx, callback_init, callback_ref, callback_unref}
use l2dbus.Lua.{Lua, LuaType}
use l2dbus.Lua.Refs.{Refs, no_ref}
use l2dbus.Object.{object_registry_add, object_registry_get, object_registry_remove}
use l2dbus.Userdata.{
  State, set_object, store, load, check_module_initialized, handle, cdbus_call, cdbus_set,
  registry_call, take_ref, release_ref, to_ref, optional_ref, check_object, top,
}

-- `l2dbus_Timeout` and `l2dbus_Watch`
pub record SourceUd : Type 0 where
  pub source : Option ℕ
  pub disp_ref : ℤ
  pub self_ref : ℤ
  pub cb : CallbackCtx

-- The functions of libcdbus by which both classes do the same: the Boolean says that a call did not
-- fail.
pub record Sources : Type 1 where
  pub World : Type 0
  pub is_enabled : World → ℕ → Bool
  pub enable : World → ℕ → Bool → World × Bool
  pub unref : World → ℕ → World

module _ (L : Lua) (R : Refs L.Value) (E : Sources) (name : String) where
  open L use {Value, to_boolean}
  open R use {Table, take, anchored}
  open E use {World, is_enabled, enable, unref}

  abbrev pub Host : Type 0
  Host = State Table Value SourceUd World

  -- The constructor after its checks: `p` is the block of the new userdata `self`, `user` is `none`
  -- where no value is given, and `new` is the call that creates the source. When that fails, the
  -- references stay noted in the block.
  unfoldable pub create :
      (World → World × Option ℕ)
      → ℕ
      → (self dispatcher func : Value) → Option Value
      → Action Host Value
  create new p self dispatcher func user s =
      let (t, ctx) = callback_ref Value R s.refs (some (to_ref L func)) (optional_ref L user) in
      let (w, made) = new s.world in
      let ud : SourceUd = record {
        source = made;
        disp_ref = no_ref;
        self_ref = no_ref;
        cb = ctx;
      } in
      elim made [
        | none ↦ (
          set_object p (some ud) (record s { refs = callback_unref Value R t ctx; world = w }),
          lua_error Error.no_memory,
        )
        | some h ↦
            let (t', d) = take t (to_ref L dispatcher) in
            let s' =
              set_object p (some (record ud { disp_ref = d }))
                (record s { refs = t'; world = w }) in
            (registry_call (object_registry_add p self) >> pure self) s'
      ]

  -- Whether the disabling succeeds is not asked.
  abbrev pub stop : Option ℕ → Action Host (Unit {0})
  stop none = pure tt
  stop (some h) = cdbus_set (λ w. unref (enable w h false).0 h)

  abbrev pub unref_callback : CallbackCtx → Action Host (Unit {0})
  unref_callback ctx s = (record s { refs = callback_unref Value R s.refs ctx }, ok tt)

  unfoldable pub dispose : Value → Action Host (Unit {0})
  dispose v = do
    (p, ud) ← check_object L v name
    stop ud.source
    registry_call (object_registry_remove p)
    release_ref R ud.disp_ref
    unref_callback ud.cb

  -- A method that only asks libcdbus.
  unfoldable pub query : {A : Type 0} → (World → ℕ → A) → Value → Action Host A
  query f v = do
    (p, ud) ← check_object L v name
    check_module_initialized
    h ← handle ud.source
    gets (λ s. f s.world h)

  -- The reference that is noted before an enabling is overwritten.
  abbrev pub anchor : (self : Value) → ℕ → SourceUd → Bool → Action Host (Unit {0})
  anchor self p ud true = do r ← take_ref R (to_ref L self); store p (record ud { self_ref = r })
  anchor self p ud false = do release_ref R ud.self_ref; store p (record ud { self_ref = no_ref })

  unfoldable pub set_enable : (self option : Value) → Action Host (Unit {0})
  set_enable self option = do
    (p, ud) ← check_object L self name
    lift (check_type L option LuaType.boolean)
    check_module_initialized
    h ← handle ud.source
    cdbus_call (λ w. enable w h (to_boolean option))
    anchor self p ud (to_boolean option)

  -- lua_rawgeti pushes nil where nothing is anchored.
  unfoldable pub data_of : Value → Action Host (Option Value)
  data_of v = do
    (p, ud) ← check_object L v name
    check_module_initialized
    gets (λ s. anchored s.refs ud.cb.user_ref)

  unfoldable pub set_data : (self value : Value) → (more : List Value) → Action Host (Unit {0})
  set_data self value more = do
    (p, ud) ← check_object L self name
    lift (check_any L value)
    check_module_initialized
    release_ref R ud.cb.user_ref
    r ← take_ref R (to_ref L (top L value more))
    store p (record ud { cb = record ud.cb { user_ref = r } })

  -- The userdata that a handler gets from the address that libcdbus keeps, with what it calls.
  abbrev pub Call : Type 0
  Call = Option Value × (Value × Option Value)

  unfoldable pub called : ℕ → Action Host (Option Call)
  called p s = elim (object_registry_get p s.registry) [
    | ok (some self) ↦
        (do
          ud ← load p
          gets (λ s. some (anchored s.refs ud.cb.func_ref, (self, anchored s.refs ud.cb.user_ref))))
          s
    | ok none ↦ (s, ok none)
    | _ ↦ (s, lua_error Error.not_initialized)
  ]
