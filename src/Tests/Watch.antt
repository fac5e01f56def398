-- ===== src/Tests/Watch.antt =====
-- The theorems about src/l2dbus_watch.c at a watch that is enabled and given another value.
use l2dbus.Base.{◌≡◌, refl, none, some, List, [], ◌∷◌, ok, true, false}
use l2dbus.Base.Int.{pos}
use l2dbus.Boxed.{check_udata}
use l2dbus.Util.{is_user_data}
use l2dbus.C.Words.{to_int32, to_uint32}
use l2dbus.Source.{set_enable, set_data}
use l2dbus.Source.Steps.{Steps, nothing, step, enabling, giving_data}
use l2dbus.Tests.Events.{V, events_vm, places, places-RefsLaws, watches}
use l2dbus.Watch.{
  Watching, new_watch, watch_descriptor, watch_parse_events, watch_make_ev_table, scan_events,
}
use l2dbus.Watch.Events.{watch_parse_events-text, mask}
use l2dbus.Watch.Life.{Creates}

abbrev Events : Type 0
Events = Watching events_vm places watches

abbrev fresh : Events
fresh = record {
  initialized = true;
  refs = [];
  registry = some [];
  objects = λ p. none;
  world = (0, λ h. false);
}

abbrev arguments : List V
arguments = V.dispatcher ∷ V.hundred ∷ V.letters ∷ V.handler ∷ V.token ∷ []

abbrev created : Events
created = (new_watch events_vm places watches arguments (some (3, V.watch)) fresh).0

abbrev enabled : Events
enabled = (set_enable events_vm places watches.sources "l2dbus.watch" V.watch V.yes_value created).0

abbrev used : Events
used = (set_data events_vm places watches.sources "l2dbus.watch" V.watch V.hundred [] enabled).0

uses : Steps events_vm places watches.sources "l2dbus.watch" 3 V.watch created used
uses =
    step (step (nothing created) (enabling created V.yes_value)) (giving_data enabled V.hundred [])

fresh-Creates :
    Creates events_vm places places-RefsLaws watches fresh V.dispatcher V.hundred V.letters
      V.handler 3 V.watch
unfolding check_udata is_user_data watch_descriptor watch_parse_events scan_events to_int32
    to_uint32
fresh-Creates = record {
  address = 1;
  fd = pos 100;
  mask = 9;
  world = _;
  watch = 0;
  entries = [];
  initialized = refl;
  dispatcher_checked = refl;
  dispatcher_type = refl;
  file_checked = refl;
  events_parsed = refl;
  func_type = refl;
  self_checked = refl;
  self_type = refl;
  created = refl;
  registry = refl;
  sound = tt;
}

watch_parse_events-text_example :
    (watch_parse_events events_vm V.letters ≡ ok (mask true false false true))
    × (watch_make_ev_table (mask true false false true) ≡ record {
      ev_mask = 9;
      is_read = true;
      is_write = false;
      is_error = false;
      is_hangup = true;
    })
watch_parse_events-text_example = watch_parse_events-text events_vm V.letters refl
