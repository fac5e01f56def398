-- ===== src/Watch/Life.antt =====
-- A watch from `new` to its disposal (src/l2dbus_watch.c).
use l2dbus.Base.{
  ℕ, Option, none, some, ◌≡◌, refl, List, ◌∷◌, ok, lua_error, Error, if◌then◌else◌, ◌||◌, true,
}
use l2dbus.Base.Int.{ℤ, eqb_ℤ}
use l2dbus.Boxed.{check_udata, check_type}
use l2dbus.Lua.{Lua, LuaType}
use l2dbus.Lua.Refs.{Refs, RefsLaws}
use l2dbus.Object.{object_registry_get}
use l2dbus.Source.{SourceUd, Call, create}
use l2dbus.Source.Steps.{Steps, InUse}
use l2dbus.Source.Steps.Keep.{Steps-InUse}
use l2dbus.Source.Steps.Life.{
  create-InUse, create-ok, called-InUse, data_of-InUse, dispose-anchored, dispose-found,
}
use l2dbus.Watch.{
  Watches, Watching, new_watch, watch_handler, watch_data, watch_dispose, watch_descriptor,
  watch_parse_events, watch_make_ev_table, EventTable,
}
use l2dbus.Userdata.{to_ref, first, check_module_initialized}

module _ (L : Lua) (R : Refs L.Value) (laws : RefsLaws L.Value R) (W : Watches) where
  open L use {Value, lua_type}

  -- Valid arguments of `new`, a new block `p` for the userdata `self`, a watch that libcdbus creates, and a
  -- registry that is set up.
  pub record Creates (s : Watching L R W) (dispatcher file events func : Value) (p : ℕ)
      (self : Value) : Type 0 where
    pub address : ℕ
    pub fd : ℤ
    pub mask : ℕ
    pub world : W.sources.World
    pub watch : ℕ
    pub entries : List (ℕ × Value)
    pub initialized : s.initialized ≡ true
    pub dispatcher_checked : check_udata L dispatcher "l2dbus.dispatcher" ≡ ok address
    pub dispatcher_type : lua_type dispatcher ≡ LuaType.userdata
    pub file_checked : watch_descriptor L R W file ≡ ok fd
    pub events_parsed : watch_parse_events L events ≡ ok mask
    pub func_type : lua_type func ≡ LuaType.function
    pub self_checked : check_udata L self "l2dbus.watch" ≡ ok p
    pub self_type : lua_type self ≡ LuaType.userdata
    pub created : W.watch_new s.world address fd mask ≡ (world, some watch)
    pub registry : s.registry ≡ some entries
    pub sound : R.IsSound s.refs

  new_watch-create :
      (s : Watching L R W) (dispatcher file events func : Value) (user : List Value) (p : ℕ)
      (self : Value) (c : Creates s dispatcher file events func p self)
      → new_watch L R W (dispatcher ∷ file ∷ events ∷ func ∷ user) (some (p, self)) s
        ≡ create L R W.sources "l2dbus.watch"
            (λ w. W.watch_new w c.address c.fd c.mask)
            p
            self
            dispatcher
            func
            (first user)
            s
  unfolding new_watch check_module_initialized check_type
  new_watch-create s dispatcher file events func user p self c =
      rw (c.initialized, c.dispatcher_checked, c.file_checked, c.events_parsed, c.func_type) refl

  module _ (s s' : Watching L R W) (dispatcher file events func : Value) (user : List Value) (p : ℕ)
      (self : Value) (c : Creates s dispatcher file events func p self)
      (steps : Steps L R W.sources "l2dbus.watch" p self
        (new_watch L R W (dispatcher ∷ file ∷ events ∷ func ∷ user) (some (p, self)) s).0
        s') where
    in_use : InUse L R W.sources "l2dbus.watch" p self func dispatcher s'
    in_use =
        Steps-InUse L R laws W.sources "l2dbus.watch" p self c.self_checked
          (rw (to_ref, c.self_type) refl) func dispatcher steps
          (rw (new_watch-create s dispatcher file events func user p self c) (
            create-InUse L R laws W.sources "l2dbus.watch" p self c.self_checked
              (λ w. W.watch_new w c.address c.fd c.mask) dispatcher func (first user) s c.sound
              (rw (to_ref, c.func_type) refl) (rw (to_ref, c.dispatcher_type) refl) c.created
              c.registry))

    -- Where no reference was given back that was not in use: a watch that `new` creates calls the handler
    -- that it was given, whatever its methods, its handler and libcdbus do in between, and other code that
    -- gives back references only that are in use and not the watch's, and keeps its entry in the
    -- registry: the handler gets the userdata, the table of
    -- the events that were signalled, and the value that `data` returns.
    pub watch_handler-new :
        (run : Call L R W.sources "l2dbus.watch" → EventTable → Watching L R W → Watching L R W)
        (signalled : ℕ)
        → ((new_watch L R W (dispatcher ∷ file ∷ events ∷ func ∷ user) (some (p, self)) s).1
            ≡ ok self)
          × (u : Option Value) × (watch_handler L R W run signalled p s'
              ≡ (run (some func, (self, u)) (watch_make_ev_table signalled) s', ok tt))
          × ((watch_data L R W self s').1
              ≡ (if s'.initialized then ok u else lua_error Error.not_initialized))
    unfolding watch_handler watch_data
    watch_handler-new run signalled =
        let made : (new_watch L R W (dispatcher ∷ file ∷ events ∷ func ∷ user) (some (p, self)) s).1
            ≡ ok self =
          rw (new_watch-create s dispatcher file events func user p self c) (
            create-ok L R laws W.sources "l2dbus.watch" p self c.self_checked
              (λ w. W.watch_new w c.address c.fd c.mask) dispatcher func (first user) s c.created
              c.registry) in
        (
          made,
          in_use.user,
          rw (called-InUse L R laws W.sources "l2dbus.watch" p self c.self_checked s' _ _ in_use)
              refl,
          data_of-InUse L R laws W.sources "l2dbus.watch" p self c.self_checked s' _ _ in_use,
        )

    -- Where no reference was given back that was not in use: disposing of a watch that `new` created, whatever
    -- its methods, its handler and libcdbus did in between, and other code that gives back references only
    -- that are in use and not the watch's, and keeps its entry in the registry, gives back its three references
    -- and no other, and the registry does not find it any more.
    pub watch_dispose-new :
        (q : ℤ)
        → (ud : SourceUd) × (s'.objects p ≡ some ud)
          × (R.anchored s'.refs ud.cb.func_ref ≡ some func)
          × (R.anchored s'.refs ud.disp_ref ≡ some dispatcher)
          × (R.anchored (watch_dispose L R W self s').0.refs q ≡ (
              if eqb_ℤ q ud.cb.user_ref || (eqb_ℤ q ud.cb.func_ref || eqb_ℤ q ud.disp_ref)
              then none
              else R.anchored s'.refs q))
          × (object_registry_get p (watch_dispose L R W self s').0.registry ≡ ok none)
    unfolding watch_dispose
    watch_dispose-new q = (
      in_use.ud,
      in_use.stored,
      in_use.owned.func.holds,
      in_use.owned.disp.holds,
      dispose-anchored L R laws W.sources "l2dbus.watch" p self c.self_checked s' _ _ in_use q,
      dispose-found L R laws W.sources "l2dbus.watch" p self c.self_checked s' _ _ in_use,
    )
