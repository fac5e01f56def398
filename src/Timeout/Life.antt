-- ===== src/Timeout/Life.antt =====
-- A timer from `new` to its disposal (src/l2dbus_timeout.c).
use l2dbus.Base.{
  ℕ, Option, none, some, ◌≡◌, refl, List, ◌∷◌, ok, lua_error, Error, if◌then◌else◌, ◌||◌, true,
}
use l2dbus.Base.Int.{ℤ, eqb_ℤ}
use l2dbus.Boxed.{check_udata, check_int, check_type}
use l2dbus.Lua.{Lua, LuaType}
use l2dbus.Lua.Refs.{Refs, RefsLaws}
use l2dbus.Object.{object_registry_get}
use l2dbus.Source.{SourceUd, Call, create}
use l2dbus.Source.Steps.{Steps, InUse}
use l2dbus.Source.Steps.Keep.{Steps-InUse}
use l2dbus.Source.Steps.Life.{
  create-InUse, create-ok, called-InUse, data_of-InUse, dispose-anchored, dispose-found,
}
use l2dbus.Timeout.{
  Timers, Timeouts, new_timeout, timeout_handler, timeout_data, timeout_dispose, drop_one_shot,
}
use l2dbus.Userdata.{to_ref, first, check_module_initialized}

module _ (L : Lua) (R : Refs L.Value) (laws : RefsLaws L.Value R) (T : Timers) where
  open L use {Value, lua_type, to_boolean}

  -- Valid arguments of `new`, a new block `p` for the userdata `self`, a timer that libcdbus creates, and a
  -- registry that is set up.
  pub record Creates (s : Timeouts L R T) (dispatcher interval repeats func : Value) (p : ℕ)
      (self : Value) : Type 0 where
    pub address : ℕ
    pub msec : ℤ
    pub world : T.sources.World
    pub timer : ℕ
    pub entries : List (ℕ × Value)
    pub initialized : s.initialized ≡ true
    pub dispatcher_checked : check_udata L dispatcher "l2dbus.dispatcher" ≡ ok address
    pub dispatcher_type : lua_type dispatcher ≡ LuaType.userdata
    pub interval_checked : check_int L interval ≡ ok msec
    pub repeats_type : lua_type repeats ≡ LuaType.boolean
    pub func_type : lua_type func ≡ LuaType.function
    pub self_checked : check_udata L self "l2dbus.timeout" ≡ ok p
    pub self_type : lua_type self ≡ LuaType.userdata
    pub created : T.timer_new s.world address msec (to_boolean repeats) ≡ (world, some timer)
    pub registry : s.registry ≡ some entries
    pub sound : R.IsSound s.refs

  new_timeout-create :
      (s : Timeouts L R T) (dispatcher interval repeats func : Value) (user : List Value) (p : ℕ)
      (self : Value) (c : Creates s dispatcher interval repeats func p self)
      → new_timeout L R T (dispatcher ∷ interval ∷ repeats ∷ func ∷ user) (some (p, self)) s
        ≡ create L R T.sources "l2dbus.timeout"
            (λ w. T.timer_new w c.address c.msec (to_boolean repeats))
            p
            self
            dispatcher
            func
            (first user)
            s
  unfolding new_timeout check_module_initialized check_type
  new_timeout-create s dispatcher interval repeats func user p self c =
      rw (c.initialized, c.dispatcher_checked, c.interval_checked, c.repeats_type, c.func_type) refl

  module _ (s s' : Timeouts L R T) (dispatcher interval repeats func : Value) (user : List Value)
      (p : ℕ) (self : Value) (c : Creates s dispatcher interval repeats func p self)
      (steps : Steps L R T.sources "l2dbus.timeout" p self
        (new_timeout L R T (dispatcher ∷ interval ∷ repeats ∷ func ∷ user) (some (p, self)) s).0
        s') where
    in_use : InUse L R T.sources "l2dbus.timeout" p self func dispatcher s'
    in_use =
        Steps-InUse L R laws T.sources "l2dbus.timeout" p self c.self_checked
          (rw (to_ref, c.self_type) refl) func dispatcher steps
          (rw (new_timeout-create s dispatcher interval repeats func user p self c) (
            create-InUse L R laws T.sources "l2dbus.timeout" p self c.self_checked
              (λ w. T.timer_new w c.address c.msec (to_boolean repeats)) dispatcher func
              (first user) s c.sound (rw (to_ref, c.func_type) refl)
              (rw (to_ref, c.dispatcher_type) refl) c.created c.registry))

    -- Where no reference was given back that was not in use: a timer that `new` creates calls the handler
    -- that it was given, whatever its methods, its handler and libcdbus do in between, and other code that
    -- gives back references only that are in use and not the timer's, and keeps its entry in the
    -- registry: the handler gets the userdata and the value
    -- that `data` returns, and the timer's own work afterwards starts in the state that the handler left.
    pub timeout_handler-new :
        (run : Call L R T.sources "l2dbus.timeout" → Timeouts L R T → Timeouts L R T)
        → ((new_timeout L R T (dispatcher ∷ interval ∷ repeats ∷ func ∷ user) (some (p, self)) s).1
            ≡ ok self)
          × (u : Option Value) × (timeout_handler L R T run p s'
              ≡ drop_one_shot L R T p (run (some func, (self, u)) s'))
          × ((timeout_data L R T self s').1
              ≡ (if s'.initialized then ok u else lua_error Error.not_initialized))
    unfolding timeout_handler timeout_data
    timeout_handler-new run =
        let made : (new_timeout L R T (dispatcher ∷ interval ∷ repeats ∷ func ∷ user)
              (some (p, self)) s).1
            ≡ ok self =
          rw (new_timeout-create s dispatcher interval repeats func user p self c) (
            create-ok L R laws T.sources "l2dbus.timeout" p self c.self_checked
              (λ w. T.timer_new w c.address c.msec (to_boolean repeats)) dispatcher func
              (first user) s c.created c.registry) in
        (
          made,
          in_use.user,
          rw (called-InUse L R laws T.sources "l2dbus.timeout" p self c.self_checked s' _ _ in_use)
              refl,
          data_of-InUse L R laws T.sources "l2dbus.timeout" p self c.self_checked s' _ _ in_use,
        )

    -- Where no reference was given back that was not in use: disposing of a timer that `new` created, whatever
    -- its methods, its handler and libcdbus did in between, and other code that gives back references only
    -- that are in use and not the timer's, and keeps its entry in the registry, gives back its three references
    -- and no other, and the registry does not find it any more.
    pub timeout_dispose-new :
        (q : ℤ)
        → (ud : SourceUd) × (s'.objects p ≡ some ud)
          × (R.anchored s'.refs ud.cb.func_ref ≡ some func)
          × (R.anchored s'.refs ud.disp_ref ≡ some dispatcher)
          × (R.anchored (timeout_dispose L R T self s').0.refs q ≡ (
              if eqb_ℤ q ud.cb.user_ref || (eqb_ℤ q ud.cb.func_ref || eqb_ℤ q ud.disp_ref)
              then none
              else R.anchored s'.refs q))
          × (object_registry_get p (timeout_dispose L R T self s').0.registry ≡ ok none)
    unfolding timeout_dispose
    timeout_dispose-new q = (
      in_use.ud,
      in_use.stored,
      in_use.owned.func.holds,
      in_use.owned.disp.holds,
      dispose-anchored L R laws T.sources "l2dbus.timeout" p self c.self_checked s' _ _ in_use q,
      dispose-found L R laws T.sources "l2dbus.timeout" p self c.self_checked s' _ _ in_use,
    )
