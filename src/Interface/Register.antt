-- ===== src/Interface/Register.antt =====
-- The registration of methods, signals and properties in src/l2dbus_interface.c: the descriptions are
-- read, registered and freed.
use l2dbus.Alloc.{Memory}
use l2dbus.Base.{
  ℕ, true, false, Option, none, some, Result, ok, lua_error, undefined, out_of_fuel, Error,
}
use l2dbus.Base.Actions.{Action, pure, lift, raise, ◌>>=◌, ◌>>◌}
use l2dbus.Boxed.{check_type}
use l2dbus.Interface.{Interfaces, Outside, Host}
use l2dbus.Interface.Describe.{Refusal}
use l2dbus.Interface.Outcome.{Described, describe_items, describe_properties}
use l2dbus.Lua.{Lua, LuaType}
use l2dbus.Lua.Refs.{Refs}
use l2dbus.Userdata.{check_module_initialized, handle, check_object}

module _ (L : Lua) (R : Refs L.Value) (M : Memory) (C : Interfaces) where
  open L use {Value}

  abbrev pub outside :
      (Outside L R M C → Result (Described L R M C)) → Action (Host L R M C) (Option Refusal)
  outside f s = elim (f s.world) [
    | ok (o, why) ↦ (record s { world = o }, ok why)
    | lua_error e ↦ (s, lua_error e)
    | undefined u ↦ (s, undefined u)
    | out_of_fuel ↦ (s, out_of_fuel)
  ]

  -- An error is raised with the reason.
  abbrev pub refused : Option Refusal → Action (Host L R M C) (Unit {0})
  refused none = pure tt
  refused (some why) = raise Error.refused_description

  -- What the three methods do around their descriptions.
  unfoldable pub register :
      (ℕ → Value → Outside L R M C → Result (Described L R M C))
      → (self table : Value) → Action (Host L R M C) (Unit {0})
  register describe self table = do
    (p, ud) ← check_object L self "l2dbus.interface"
    lift (check_type L table LuaType.table)
    check_module_initialized
    h ← handle ud.intf
    why ← outside (describe h table)
    refused why

  unfoldable pub register_methods : (self table : Value) → Action (Host L R M C) (Unit {0})
  register_methods = register (describe_items L R M C true)

  unfoldable pub register_signals : (self table : Value) → Action (Host L R M C) (Unit {0})
  register_signals = register (describe_items L R M C false)

  unfoldable pub register_properties : (self table : Value) → Action (Host L R M C) (Unit {0})
  register_properties = register (describe_properties L R M C)
