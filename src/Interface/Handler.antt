-- ===== src/Interface/Handler.antt =====
-- `l2dbus_interfaceHandler` of src/l2dbus_interface.c: a request is passed to the handler in Lua.
use l2dbus.Alloc.{Memory}
use l2dbus.Base.{ℕ, Option, none, some, ok, lua_error, undefined, out_of_fuel, if◌then◌else◌}
use l2dbus.Base.Actions.{Action, pure, ◌>>=◌}
use l2dbus.Base.Int.{ℤ, eqb_ℤ}
use l2dbus.Interface.{Interfaces, InterfaceUd, Host}
use l2dbus.Lua.{Lua}
use l2dbus.Lua.Refs.{Refs, no_ref}
use l2dbus.Object.{object_registry_get}
use l2dbus.Userdata.{load, not_yet_handled, handler_result}

module _ (L : Lua) (R : Refs L.Value) (M : Memory) (C : Interfaces) where
  open L use {Value, is_number, to_integer}
  open R use {anchored}

  -- The function, and the arguments in front of the message and behind it.
  abbrev pub Call : Type 0
  Call = Option Value × (Value × (Value × Option Value))

  -- `conn` is the address of the connection, by which its userdata is found.
  unfoldable pub interface_called : (p conn : ℕ) → Action (Host L R M C) (Option Call)
  interface_called p conn s = elim (object_registry_get p s.registry) [
    | ok (some self) ↦ (do ud ← load p; call_of self ud) s
    | ok none ↦ (s, ok none)
    | lua_error e ↦ (s, lua_error e)
    | undefined u ↦ (s, undefined u)
    | out_of_fuel ↦ (s, out_of_fuel)
  ]
    where
      call_of : Value → InterfaceUd → Action (Host L R M C) (Option Call)
      call_of self ud s = elim (object_registry_get conn s.registry) [
        | ok (some connection) ↦ if eqb_ℤ ud.cb.func_ref no_ref then (s, ok none) else (
          s,
          ok (
              some (
                anchored s.refs ud.cb.func_ref,
                (self, (connection, anchored s.refs ud.cb.user_ref)),
              )),
        )
        | _ ↦ (s, ok none)
      ]

  -- `answer` is what a call of the Lua function gives.
  unfoldable pub interface_handler :
      (answer : Call → Option Value) → (p conn : ℕ) → Action (Host L R M C) ℤ
  interface_handler answer p conn = do
    call ← interface_called p conn
    pure (elim call [ none ↦ not_yet_handled | some c ↦ handler_result L (answer c) ])
