-- ===== src/Timeout.antt =====
-- src/l2dbus_timeout.c: timers of libcdbus as userdata. While a timer is enabled the table of references
-- anchors its userdata, so that it is not collected.
pub mod Handler
pub mod Life
use l2dbus.Base.{
  ℕ, Bool, true, false, not, ◌&&◌, Option, none, some, List, [], ◌∷◌, Result, ok, lua_error, Error,
}
use l2dbus.Base.Actions.{Action, pure, lift, raise, gets, modify, ◌>>=◌, ◌>>◌}
use l2dbus.Base.Int.{ℤ}
use l2dbus.Boxed.{check_udata, check_int, check_type}
use l2dbus.Lua.{Lua, LuaType}
use l2dbus.Lua.Refs.{Refs, no_ref}
use l2dbus.Source.{
  SourceUd, Sources, Host, create, dispose, query, set_enable, data_of, set_data, called, Call,
}
use l2dbus.Userdata.{
  first, check_module_initialized, handle, cdbus_call, cdbus_set, check_object, load, release_ref,
  store,
}

-- The timers of libcdbus: `sources` has what they share with watches. A timer is created for the
-- dispatcher at an address, disabled.
pub record Timers : Type 1 where
  pub sources : Sources
  pub timer_new : sources.World → ℕ → ℤ → Bool → sources.World × Option ℕ
  pub interval : sources.World → ℕ → ℤ
  pub set_interval : sources.World → ℕ → ℤ → sources.World × Bool
  pub repeats : sources.World → ℕ → Bool
  pub set_repeats : sources.World → ℕ → Bool → sources.World

module _ (L : Lua) (R : Refs L.Value) (T : Timers) where
  open L use {Value, to_boolean}
  open T use {sources}

  abbrev pub Timeouts : Type 0
  Timeouts = Host L R T.sources "l2dbus.timeout"

  -- The arguments are those on the stack; `place` is the new block and its userdata.
  unfoldable pub new_timeout : List Value → (place : Option (ℕ × Value)) → Action Timeouts Value
  new_timeout args place = check_module_initialized >> elim args [
    | dispatcher ∷ interval ∷ repeats ∷ func ∷ user ↦ do
      d ← lift (check_udata L dispatcher "l2dbus.dispatcher")
      msec ← lift (check_int L interval)
      lift (check_type L repeats LuaType.boolean)
      lift (check_type L func LuaType.function)
      elim place [
        | none ↦ raise Error.no_memory
        | some (p, self) ↦
            create L R T.sources "l2dbus.timeout" (λ w. T.timer_new w d msec (to_boolean repeats)) p
              self dispatcher func (first user)
      ]
    | _ ↦ raise Error.too_few_arguments
  ]

  unfoldable pub timeout_dispose : Value → Action Timeouts (Unit {0})
  timeout_dispose = dispose L R T.sources "l2dbus.timeout"

  unfoldable pub timeout_is_enabled : Value → Action Timeouts Bool
  timeout_is_enabled = query L R T.sources "l2dbus.timeout" sources.is_enabled

  unfoldable pub timeout_set_enable : (self option : Value) → Action Timeouts (Unit {0})
  timeout_set_enable = set_enable L R T.sources "l2dbus.timeout"

  unfoldable pub timeout_interval : Value → Action Timeouts ℤ
  timeout_interval = query L R T.sources "l2dbus.timeout" T.interval

  unfoldable pub timeout_set_interval : (self interval : Value) → Action Timeouts (Unit {0})
  timeout_set_interval self interval = do
    (p, ud) ← check_object L self "l2dbus.timeout"
    msec ← lift (check_int L interval)
    check_module_initialized
    h ← handle ud.source
    cdbus_call (λ w. T.set_interval w h msec)

  unfoldable pub timeout_repeat : Value → Action Timeouts Bool
  timeout_repeat = query L R T.sources "l2dbus.timeout" T.repeats

  unfoldable pub timeout_set_repeat : (self option : Value) → Action Timeouts (Unit {0})
  timeout_set_repeat self option = do
    (p, ud) ← check_object L self "l2dbus.timeout"
    lift (check_type L option LuaType.boolean)
    check_module_initialized
    h ← handle ud.source
    cdbus_set (λ w. T.set_repeats w h (to_boolean option))

  unfoldable pub timeout_data : Value → Action Timeouts (Option Value)
  timeout_data = data_of L R T.sources "l2dbus.timeout"

  unfoldable pub timeout_set_data :
      (self value : Value) → (more : List Value) → Action Timeouts (Unit {0})
  timeout_set_data = set_data L R T.sources "l2dbus.timeout"

  -- A timer that stays enabled without repeating anchors its userdata no longer.
  unfoldable pub drop_one_shot : ℕ → Action Timeouts (Unit {0})
  drop_one_shot p = do
    ud ← load p
    h ← handle ud.source
    live ← gets (λ s. sources.is_enabled s.world h && not (T.repeats s.world h))
    elim live [
      | false ↦ pure tt
      | true ↦ release_ref R ud.self_ref >> store p (record ud { self_ref = no_ref })
    ]

  -- `run` is lua_pcall: the handler may do what it likes, and its errors are only traced. Only an
  -- error of the registry leaves the handler.
  unfoldable pub timeout_handler :
      (run : Call L R T.sources "l2dbus.timeout" → Timeouts → Timeouts)
      → ℕ
      → Action Timeouts (Unit {0})
  timeout_handler run p = do
    found ← called L R T.sources "l2dbus.timeout" p
    elim found [ none ↦ pure tt | some call ↦ modify (run call) >> drop_one_shot p ]
