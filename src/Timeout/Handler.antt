-- ===== src/Timeout/Handler.antt =====
-- What the handler of a timer does is made of the steps that a timer can take (src/l2dbus_timeout.c).
use l2dbus.Base.{
  ℕ, ◌≡◌, refl, Bool-cases, Option-cases, inl, inr, ◌⊎◌, false, Option, none, some, Result, ok,
  lua_error, undefined, out_of_fuel, not, ◌&&◌,
}
use l2dbus.Base.Actions.{◌>>=◌, ◌>>◌, after, modify, pure}
use l2dbus.Lua.{Lua}
use l2dbus.Lua.Refs.{Refs}
use l2dbus.Object.{object_registry_get}
use l2dbus.Source.{Call, SourceUd, anchor, called}
use l2dbus.Source.Steps.{Steps, nothing, step, dropping}
use l2dbus.Userdata.{load}
use l2dbus.Timeout.{Timers, Timeouts, timeout_handler, drop_one_shot}

module _ (L : Lua) (R : Refs L.Value) (T : Timers) (p : ℕ) (self : L.Value) where
  Steps-join :
      {s s' s'' : Timeouts L R T}
      → Steps L R T.sources "l2dbus.timeout" p self s s'
      → Steps L R T.sources "l2dbus.timeout" p self s' s''
      → Steps L R T.sources "l2dbus.timeout" p self s s''
  Steps-join before (nothing s) = before
  Steps-join before (step steps last) = step (Steps-join before steps) last

  -- The rest of the handler keeps the state, or anchors the userdata no longer.
  drop_one_shot-cases :
      (s : Timeouts L R T)
      → ((drop_one_shot L R T p s).0 ≡ s)
        ⊎ ((ud : SourceUd) × (s.objects p ≡ some ud)
            × ((drop_one_shot L R T p s).0
                ≡ (anchor L R T.sources "l2dbus.timeout" self p ud false s).0))
  unfolding drop_one_shot
  drop_one_shot-cases s = elim (Option-cases (s.objects p)) [
    | inl e ↦ inl (rw (drop_one_shot, ◌>>=◌, load, e) refl)
    | inr (ud, e) ↦ elim (Option-cases (ud.source)) [
      | inl e' ↦ inl (rw (drop_one_shot, ◌>>=◌, load, e, e') refl)
      | inr (h, e') ↦
          elim (Bool-cases (T.sources.is_enabled s.world h && not (T.repeats s.world h))) [
            | inl live ↦ inr (ud, e, simp (drop_one_shot, ◌>>=◌, load, e, e', live) refl)
            | inr idle ↦ inl (rw (drop_one_shot, ◌>>=◌, load, e, e', idle) refl)
          ]
    ]
  ]

  drop_one_shot-Steps :
      (s : Timeouts L R T)
      → Steps L R T.sources "l2dbus.timeout" p self s (drop_one_shot L R T p s).0
  drop_one_shot-Steps s = elim (drop_one_shot-cases s) [
    | inl e ↦ rw e (nothing s)
    | inr (ud, stored, e) ↦ rw e (step (nothing s) (dropping s ud stored))
  ]

  called-state : (s : Timeouts L R T) → (called L R T.sources "l2dbus.timeout" p s).0 ≡ s
  unfolding called
  called-state s = by_found (object_registry_get p s.registry) refl
    where
      by_found :
          (found : Result (Option L.Value))
          → object_registry_get p s.registry ≡ found
          → (called L R T.sources "l2dbus.timeout" p s).0 ≡ s
      by_found (ok none) e = rw (called, e) refl
      by_found (ok (some v)) e = elim (Option-cases (s.objects p)) [
        | inl e' ↦ rw (called, e, ◌>>=◌, load, e') refl
        | inr (ud, e') ↦ rw (called, e, ◌>>=◌, load, e') refl
      ]
      by_found (lua_error err) e = rw (called, e) refl
      by_found (undefined fault) e = rw (called, e) refl
      by_found out_of_fuel e = rw (called, e) refl

  -- Where the function of a handler only takes such steps, the handler does.
  pub timeout_handler-Steps :
      (run : Call L R T.sources "l2dbus.timeout" → Timeouts L R T → Timeouts L R T)
      (s : Timeouts L R T)
      → ((call : Call L R T.sources "l2dbus.timeout")
          → Steps L R T.sources "l2dbus.timeout" p self s (run call s))
      → Steps L R T.sources "l2dbus.timeout" p self s (timeout_handler L R T run p s).0
  unfolding timeout_handler
  timeout_handler-Steps run s h =
      by_result (called L R T.sources "l2dbus.timeout" p s).0
        (called L R T.sources "l2dbus.timeout" p s).1 (called-state s)
    where
      by_result :
          (s' : Timeouts L R T) (r : Result (Option (Call L R T.sources "l2dbus.timeout")))
          → s' ≡ s
          → Steps L R T.sources "l2dbus.timeout" p self s
              (after s' r (λ found. elim found [
                | none ↦ pure tt
                | some call ↦ modify (run call) >> drop_one_shot L R T p
              ])).0
      by_result s' (ok none) e = rw e (nothing s)
      by_result s' (ok (some call)) e =
          rw e (Steps-join (h call) (drop_one_shot-Steps (run call s)))
      by_result s' (lua_error err) e = rw e (nothing s)
      by_result s' (undefined fault) e = rw e (nothing s)
      by_result s' out_of_fuel e = rw e (nothing s)
