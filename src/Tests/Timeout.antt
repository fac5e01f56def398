-- ===== src/Tests/Timeout.antt =====
-- The theorems about src/l2dbus_timeout.c at a timer that is enabled and given another value.
use l2dbus.Base.{
  ◌≡◌, refl, Option, none, some, List, [], ◌∷◌, ok, lua_error, Error, if◌then◌else◌, true, false,
  ◌||◌,
}
use l2dbus.Base.Int.{pos, eqb_ℤ}
use l2dbus.Boxed.{check_udata, check_int}
use l2dbus.Util.{is_user_data}
use l2dbus.C.Words.{to_int32, to_uint32}
use l2dbus.Object.{object_registry_get}
use l2dbus.Source.{SourceUd, set_enable, set_data}
use l2dbus.Source.Steps.{Steps, nothing, step, enabling, giving_data}
use l2dbus.Tests.Events.{V, events_vm, places, places-RefsLaws, timers}
use l2dbus.Timeout.{
  Timeouts, new_timeout, timeout_handler, timeout_data, timeout_dispose, drop_one_shot,
}
use l2dbus.Timeout.Life.{Creates, timeout_handler-new, timeout_dispose-new}

abbrev Events : Type 0
Events = Timeouts events_vm places timers

abbrev fresh : Events
fresh = record {
  initialized = true;
  refs = [];
  registry = some [];
  objects = λ p. none;
  world = (0, λ h. false);
}

abbrev arguments : List V
arguments = V.dispatcher ∷ V.hundred ∷ V.no_value ∷ V.handler ∷ []

abbrev created : Events
created = (new_timeout events_vm places timers arguments (some (2, V.timer)) fresh).0

abbrev enabled : Events
enabled =
    (set_enable events_vm places timers.sources "l2dbus.timeout" V.timer V.yes_value created).0

abbrev used : Events
used = (set_data events_vm places timers.sources "l2dbus.timeout" V.timer V.token [] enabled).0

uses : Steps events_vm places timers.sources "l2dbus.timeout" 2 V.timer created used
uses = step (step (nothing created) (enabling created V.yes_value)) (giving_data enabled V.token [])

fresh-Creates :
    Creates events_vm places places-RefsLaws timers fresh V.dispatcher V.hundred V.no_value
      V.handler 2 V.timer
unfolding check_udata is_user_data check_int to_int32 to_uint32
fresh-Creates = record {
  address = 1;
  msec = pos 100;
  world = _;
  timer = 0;
  entries = [];
  initialized = refl;
  dispatcher_checked = refl;
  dispatcher_type = refl;
  interval_checked = refl;
  repeats_type = refl;
  func_type = refl;
  self_checked = refl;
  self_type = refl;
  created = refl;
  registry = refl;
  sound = tt;
}

timeout_handler-new_example :
    ((new_timeout events_vm places timers arguments (some (2, V.timer)) fresh).1 ≡ ok V.timer)
    × (u : Option V) × (timeout_handler events_vm places timers (λ call s. s) 2 used
        ≡ drop_one_shot events_vm places timers 2 used)
    × ((timeout_data events_vm places timers V.timer used).1
        ≡ (if used.initialized then ok u else lua_error Error.not_initialized))
timeout_handler-new_example =
    timeout_handler-new events_vm places places-RefsLaws timers fresh used V.dispatcher V.hundred
      V.no_value V.handler [] 2 V.timer fresh-Creates uses (λ call s. s)

timeout_dispose-new_example :
    (ud : SourceUd) × (used.objects 2 ≡ some ud)
    × (places.anchored used.refs ud.cb.func_ref ≡ some V.handler)
    × (places.anchored used.refs ud.disp_ref ≡ some V.dispatcher)
    × (places.anchored (timeout_dispose events_vm places timers V.timer used).0.refs (pos 0) ≡ (
        if eqb_ℤ (pos 0) ud.cb.user_ref
          || (eqb_ℤ (pos 0) ud.cb.func_ref || eqb_ℤ (pos 0) ud.disp_ref)
        then none
        else places.anchored used.refs (pos 0)))
    × (object_registry_get 2 (timeout_dispose events_vm places timers V.timer used).0.registry
        ≡ ok none)
timeout_dispose-new_example =
    timeout_dispose-new events_vm places places-RefsLaws timers fresh used V.dispatcher V.hundred
      V.no_value V.handler [] 2 V.timer fresh-Creates uses (pos 0)
