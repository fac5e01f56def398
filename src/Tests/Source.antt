-- ===== src/Tests/Source.antt =====
-- The theorems about the references that src/l2dbus_timeout.c and src/l2dbus_watch.c lose or give back
-- twice, at a watch.
use l2dbus.Base.{◌≡◌, refl, none, some, [], Result, ok, lua_error, Error, true, false}
use l2dbus.Base.Actions.{◌>>◌}
use l2dbus.Base.Int.{pos}
use l2dbus.Boxed.{check_udata}
use l2dbus.Util.{is_user_data}
use l2dbus.Lua.Refs.{no_ref}
use l2dbus.Callback.{callback_ref, callback_unref, slot}
use l2dbus.Source.{SourceUd, Host, set_enable, create, dispose}
use l2dbus.Source.Steps.Leaks.{Switchable, set_enable-twice, create-dispose_failed}
use l2dbus.Tests.Events.{V, events_vm, places, places-RefsLaws, event_sources}

abbrev Events : Type 0
Events = Host events_vm places event_sources "l2dbus.watch"

abbrev ud : SourceUd
ud = record {
  source = some 0;
  disp_ref = no_ref;
  self_ref = no_ref;
  cb = record { func_ref = no_ref; user_ref = no_ref };
}

abbrev idle : Events
idle = record {
  initialized = true;
  refs = [];
  registry = some [];
  objects = λ p. some ud;
  world = (1, λ h. false);
}

watch-Switchable :
    Switchable events_vm places places-RefsLaws event_sources "l2dbus.watch" 3 V.watch
unfolding check_udata is_user_data
watch-Switchable = record { checked = refl; self_type = refl; enables = λ w h b. refl }

abbrev enable_to : V → Events → Events × Result (Unit {0})
enable_to = set_enable events_vm places event_sources "l2dbus.watch" V.watch

abbrev switched : Events × Result (Unit {0})
switched = ((enable_to V.yes_value >> enable_to V.yes_value) >> enable_to V.no_value) idle

set_enable-twice_example :
    (switched.1 ≡ ok tt)
    × (switched.0.objects 3 ≡ some (record ud { self_ref = no_ref }))
    × (places.anchored switched.0.refs (pos 0) ≡ some V.watch)
set_enable-twice_example =
    set_enable-twice events_vm places places-RefsLaws event_sources "l2dbus.watch" 3 V.watch
      watch-Switchable V.yes_value V.no_value idle ud 0 tt refl refl refl refl refl refl refl

abbrev outcome : Events × Result V
outcome =
    create events_vm places event_sources "l2dbus.watch" (λ w. (w, none)) 3 V.watch V.dispatcher
      V.handler none idle

-- Other code gets the reference that was given back.
abbrev later : Events
later = record outcome.0 { refs = (places.take outcome.0.refs (some V.token)).0 }

create-dispose_failed_example :
    (outcome.1 ≡ lua_error Error.no_memory)
    × (places.anchored outcome.0.refs (pos 0) ≡ none)
    × ((dispose events_vm places event_sources "l2dbus.watch" V.watch later).1 ≡ ok tt)
    × (places.anchored
          (dispose events_vm places event_sources "l2dbus.watch" V.watch later).0.refs
          (pos 0)
        ≡ none)
unfolding create
create-dispose_failed_example =
    create-dispose_failed events_vm places places-RefsLaws event_sources "l2dbus.watch" 3 V.watch
      watch-Switchable (λ w. (w, none)) V.dispatcher V.handler none idle later idle.world [] refl
      refl refl

later-anchored : places.anchored later.refs (pos 0) ≡ some V.token
unfolding create callback_ref callback_unref slot
later-anchored = refl
