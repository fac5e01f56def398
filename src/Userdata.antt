-- ===== src/Userdata.antt =====
-- What the classes whose instances are userdata share (src/l2dbus_timeout.c, src/l2dbus_watch.c and
-- others): the state that their methods work on, and the calls that the methods begin with.
use Prim.Native.String.{String}
use l2dbus.Base.{
  ℕ, Bool, Option, none, some, List, [], ◌∷◌, ◌==◌, ◌&&◌, ◌||◌, if◌then◌else◌, Result, ok,
  lua_error, undefined, out_of_fuel, Error, Fault,
}
use l2dbus.Base.Actions.{Action, pure, lift, require, ◌>>=◌}
use l2dbus.Base.Int.{ℤ, pos, eqb_ℤ}
use l2dbus.Boxed.{check_udata}
use l2dbus.C.Words.{to_int32}
use l2dbus.Lua.{Lua, LuaType}
use l2dbus.Lua.Refs.{Refs}
use l2dbus.Object.{Registry}

-- The table of references of Lua, the object registry, the structures in the userdata by address,
-- and the objects of libcdbus.
pub record State (Table Value Ud World : Type 0) : Type 0 where
  pub initialized : Bool
  pub refs : Table
  pub registry : Registry Value
  pub objects : ℕ → Option Ud
  pub world : World

module _ {Table Value Ud World : Type 0} where
  abbrev pub set_object : ℕ → Option Ud → State Table Value Ud World → State Table Value Ud World
  set_object p ud s = record s { objects = λ q. if q == p then ud else s.objects q }

  abbrev pub store : ℕ → Ud → Action (State Table Value Ud World) (Unit {0})
  store p ud s = (set_object p (some ud) s, ok tt)

  abbrev pub load : ℕ → Action (State Table Value Ud World) Ud
  load p s = elim (s.objects p) [
    | none ↦ (s, undefined Fault.out_of_bounds_read)
    | some ud ↦ (s, ok ud)
  ]

  -- `l2dbus_checkModuleInitialized`
  unfoldable pub check_module_initialized : Action (State Table Value Ud World) (Unit {0})
  check_module_initialized s = require s.initialized Error.not_initialized s

  -- A handle of libcdbus that the code uses without a test for NULL.
  abbrev pub handle : Option ℕ → Action (State Table Value Ud World) ℕ
  handle none s = (s, undefined Fault.null_pointer)
  handle (some h) s = (s, ok h)

  -- A call of libcdbus that changes its objects and may fail: l2dbus_cdbusError raises an error.
  abbrev pub cdbus_call : (World → World × Bool) → Action (State Table Value Ud World) (Unit {0})
  cdbus_call f s = require (f s.world).1 Error.cdbus_failure (record s { world = (f s.world).0 })

  abbrev pub cdbus_set : (World → World) → Action (State Table Value Ud World) (Unit {0})
  cdbus_set f s = (record s { world = f s.world }, ok tt)

  abbrev pub registry_call :
      (Registry Value → Result (Registry Value)) → Action (State Table Value Ud World) (Unit {0})
  registry_call f s = elim (f s.registry) [
    | ok reg ↦ (record s { registry = reg }, ok tt)
    | lua_error e ↦ (s, lua_error e)
    | undefined u ↦ (s, undefined u)
    | out_of_fuel ↦ (s, out_of_fuel)
  ]

module _ {Value Ud World : Type 0} (R : Refs Value) where
  abbrev pub take_ref : Option Value → Action (State R.Table Value Ud World) ℤ
  take_ref v s = (record s { refs = (R.take s.refs v).0 }, ok (R.take s.refs v).1)

  abbrev pub release_ref : ℤ → Action (State R.Table Value Ud World) (Unit {0})
  release_ref r s = (record s { refs = R.release s.refs r }, ok tt)

-- DBUS_HANDLER_RESULT_HANDLED is 0, ..._NOT_YET_HANDLED 1 and ..._NEED_MEMORY 2.
abbrev pub not_yet_handled : ℤ
not_yet_handled = pos 1

module _ (L : Lua) where
  open L use {is_number, to_integer}

  -- What the answer of a handler of requests counts as: `none` is an error in it.
  unfoldable pub handler_result : Option L.Value → ℤ
  handler_result none = not_yet_handled
  handler_result (some v) =
      let rc = to_int32 (to_integer v) in
      if is_number v && (eqb_ℤ rc (pos 0) || eqb_ℤ rc (pos 1) || eqb_ℤ rc (pos 2))
      then rc
      else not_yet_handled

  -- luaL_ref and lua_rawgeti do not tell nil from nothing.
  abbrev pub to_ref : L.Value → Option L.Value
  to_ref v = elim (L.lua_type v) [ LuaType.nil ↦ none | _ ↦ some v ]

  abbrev pub optional_ref : Option L.Value → Option (Option L.Value)
  optional_ref none = none
  optional_ref (some v) = some (to_ref v)

  abbrev pub function_slot : L.Value → Option (Option L.Value)
  function_slot v = elim (L.lua_type v) [ LuaType.function ↦ some (some v) | _ ↦ none ]

  -- The optional handler and the optional value of the user, by the arguments behind the name.
  unfoldable pub callback_slots : List L.Value → Option (Option L.Value) × Option (Option L.Value)
  callback_slots [] = (none, none)
  callback_slots (func ∷ []) = (function_slot func, none)
  callback_slots (func ∷ user ∷ more) = (function_slot func, some (to_ref user))

  -- luaL_checkudata of an argument, and the structure in its block.
  abbrev pub check_object :
      {Table Ud World : Type 0} → L.Value → String → Action (State Table L.Value Ud World) (ℕ × Ud)
  check_object v name = do p ← lift (check_udata L v name); ud ← load p; pure (p, ud)

  -- luaL_ref takes the value at the top of the stack, whichever argument it is.
  abbrev pub top : L.Value → List L.Value → L.Value
  top v [] = v
  top v (w ∷ ws) = top w ws

abbrev pub first : {A : Type 0} → List A → Option A
first [] = none
first (v ∷ vs) = some v
