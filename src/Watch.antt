-- ===== src/Watch.antt =====
-- src/l2dbus_watch.c: watches of file descriptors as userdata, which like timers are anchored while they
-- are enabled, and the events that a watch asks for.
pub mod Events
pub mod Life
use l2dbus.Base.{
  ℕ, Bool, true, false, not, ◌+◌, ◌%◌, ◌/◌, ◌==◌, leb, ◌&&◌, ◌||◌, undefined, out_of_fuel, Fault,
  Option, none, some, List, [], ◌∷◌, if◌then◌else◌, Result, ok, lua_error, Error, ◌^◌, ◌≤◌, suc,
}
use l2dbus.Base.Actions.{Action, pure, lift, raise, gets, modify, ◌>>=◌, ◌>>◌}
use l2dbus.Base.Int.{ℤ}
use l2dbus.Boxed.{check_udata, check_type}
use l2dbus.C.Words.{to_uint32, to_int32}
use l2dbus.Lua.{Lua, LuaType, Bytes}
use l2dbus.Lua.Refs.{Refs}
use l2dbus.Source.{
  SourceUd, Sources, Host, create, dispose, query, set_enable, data_of, set_data, called, Call,
}
use l2dbus.Userdata.{first, check_module_initialized, handle, cdbus_call, check_object}

-- DBUS_WATCH_READABLE, DBUS_WATCH_WRITABLE, DBUS_WATCH_ERROR and DBUS_WATCH_HANGUP, by the number of
-- their bit.
pub data WatchEvent : Type 0 where
  read write error hangup : WatchEvent

abbrev pub flag : WatchEvent → ℕ
flag WatchEvent.read = 1
flag WatchEvent.write = 2
flag WatchEvent.error = 4
flag WatchEvent.hangup = 8

-- `(events & flag) != 0` and `events |= flag`
abbrev pub has_flag : ℕ → WatchEvent → Bool
has_flag events e = (events / flag e) % 2 == 1

abbrev pub with_flag : ℕ → WatchEvent → ℕ
with_flag events e = if has_flag events e then events else events + flag e

-- The table that handlers and `events` get: `evMask`, `READ`, `WRITE`, `ERROR` and `HANGUP`.
pub record EventTable : Type 0 where
  pub ev_mask : ℕ
  pub is_read : Bool
  pub is_write : Bool
  pub is_error : Bool
  pub is_hangup : Bool

unfoldable pub watch_make_ev_table : ℕ → EventTable
watch_make_ev_table events = record {
  ev_mask = events;
  is_read = has_flag events WatchEvent.read;
  is_write = has_flag events WatchEvent.write;
  is_error = has_flag events WatchEvent.error;
  is_hangup = has_flag events WatchEvent.hangup;
}

abbrev pub to_lower : ℕ → ℕ
to_lower c = if leb b'A' c && leb c b'Z' then c + 32 else c

abbrev pub letter : ℕ → Option WatchEvent
letter c =
    if to_lower c == b'r'
    then some WatchEvent.read
    else if to_lower c == b'w'
    then some WatchEvent.write
    else if to_lower c == b'e'
    then some WatchEvent.error
    else if to_lower c == b'h'
    then some WatchEvent.hangup
    else none

-- A case of the switch.
abbrev pub note : Option WatchEvent → ℕ → ℕ
note none events = events
note (some e) events = with_flag events e

-- The loop over the letters, which starts at the last one. `tolower` is that of glibc, which also takes a
-- negative `char` and leaves it as it is.
unfoldable pub scan_events : Bytes → ℕ
scan_events [] = 0
scan_events (c ∷ cs) = let events = scan_events cs in note (letter c) events

abbrev pub has_any : ℕ → Bool
has_any events =
    has_flag events WatchEvent.read
    || has_flag events WatchEvent.write
    || has_flag events WatchEvent.error
    || has_flag events WatchEvent.hangup

-- The watches of libcdbus: `sources` has what they share with timers. `stream` is fileno of the `FILE`
-- in the userdata at an address, `none` where the pointer there is NULL, as it is for a closed file.
pub record Watches : Type 1 where
  pub sources : Sources
  pub stream : ℕ → Option ℤ
  pub watch_new : sources.World → ℕ → ℤ → ℕ → sources.World × Option ℕ
  pub descriptor : sources.World → ℕ → ℤ
  pub flags : sources.World → ℕ → ℕ
  pub set_flags : sources.World → ℕ → ℕ → sources.World × Bool

module _ (L : Lua) where
  open L use {Value, lua_type, to_integer, to_string}

  abbrev pub specified : ℕ → Result ℕ
  specified events = if has_any events then ok events else lua_error Error.no_events

  unfoldable pub watch_parse_events : Value → Result ℕ
  watch_parse_events v = elim (lua_type v) [
    | LuaType.number ↦ specified (to_uint32 (to_integer v))
    | LuaType.string ↦ specified (scan_events (to_string v))
    | _ ↦ lua_error Error.argument_type
  ]

module _ (L : Lua) (R : Refs L.Value) (W : Watches) where
  open L use {Value, lua_type, to_integer}
  open W use {sources, stream, watch_new, descriptor, flags, set_flags}

  abbrev pub Watching : Type 0
  Watching = Host L R W.sources "l2dbus.watch"

  -- The descriptor to watch, an `int`.
  unfoldable pub watch_descriptor : Value → Result ℤ
  watch_descriptor v = elim (lua_type v) [
    | LuaType.userdata ↦ elim (check_udata L v "FILE*") [
      | ok p ↦ elim (stream p) [ none ↦ undefined Fault.null_pointer | some fd ↦ ok fd ]
      | lua_error e ↦ lua_error e
      | undefined u ↦ undefined u
      | out_of_fuel ↦ out_of_fuel
    ]
    | LuaType.number ↦ ok (to_int32 (to_integer v))
    | _ ↦ lua_error Error.argument_type
  ]

  -- The arguments are those on the stack; `place` is the new block and its userdata.
  unfoldable pub new_watch : List Value → (place : Option (ℕ × Value)) → Action Watching Value
  new_watch args place = check_module_initialized >> elim args [
    | dispatcher ∷ file ∷ events ∷ func ∷ user ↦ do
      d ← lift (check_udata L dispatcher "l2dbus.dispatcher")
      fd ← lift (watch_descriptor file)
      mask ← lift (watch_parse_events L events)
      lift (check_type L func LuaType.function)
      elim place [
        | none ↦ raise Error.no_memory
        | some (p, self) ↦
            create L R W.sources "l2dbus.watch" (λ w. watch_new w d fd mask) p self dispatcher func
              (first user)
      ]
    | _ ↦ raise Error.too_few_arguments
  ]

  unfoldable pub watch_dispose : Value → Action Watching (Unit {0})
  watch_dispose = dispose L R W.sources "l2dbus.watch"

  unfoldable pub watch_get_descriptor : Value → Action Watching ℤ
  watch_get_descriptor = query L R W.sources "l2dbus.watch" descriptor

  unfoldable pub watch_events : Value → Action Watching EventTable
  watch_events = query L R W.sources "l2dbus.watch" (λ w h. watch_make_ev_table (flags w h))

  unfoldable pub watch_set_events : (self events : Value) → Action Watching (Unit {0})
  watch_set_events self events = do
    (p, ud) ← check_object L self "l2dbus.watch"
    check_module_initialized
    mask ← lift (watch_parse_events L events)
    h ← handle ud.source
    cdbus_call (λ w. set_flags w h mask)

  unfoldable pub watch_is_enabled : Value → Action Watching Bool
  watch_is_enabled = query L R W.sources "l2dbus.watch" sources.is_enabled

  unfoldable pub watch_set_enable : (self option : Value) → Action Watching (Unit {0})
  watch_set_enable = set_enable L R W.sources "l2dbus.watch"

  unfoldable pub watch_data : Value → Action Watching (Option Value)
  watch_data = data_of L R W.sources "l2dbus.watch"

  unfoldable pub watch_set_data :
      (self value : Value) → (more : List Value) → Action Watching (Unit {0})
  watch_set_data = set_data L R W.sources "l2dbus.watch"

  -- `run` is lua_pcall of the handler with the userdata, the table of events and the value of the
  -- user; its errors are only traced.
  unfoldable pub watch_handler :
      (run : Call L R W.sources "l2dbus.watch" → EventTable → Watching → Watching)
      → ℕ
      → ℕ
      → Action Watching (Unit {0})
  watch_handler run events p = do
    found ← called L R W.sources "l2dbus.watch" p
    elim found [ none ↦ pure tt | some call ↦ modify (run call (watch_make_ev_table events)) ]
