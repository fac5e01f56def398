-- ===== src/Interface.antt =====
-- src/l2dbus_interface.c: the interfaces of libcdbus as userdata, with the handler of their requests.
pub mod Describe
pub mod Properties
pub mod Owns
pub mod Handler
pub mod Outcome
pub mod Register
pub mod Frees
pub mod Valid
use Prim.Native.String.{String}
use l2dbus.Alloc.{Memory}
use l2dbus.Base.{
  ℕ, Bool, true, false, Option, none, some, List, [], ◌∷◌, ◌&&◌, ◌||◌, Result, ok, lua_error,
  undefined, out_of_fuel, Error, Fault, if◌then◌else◌,
}
use l2dbus.Base.Actions.{Action, pure, lift, raise, require, gets, modify, ◌>>=◌, ◌>>◌}
use l2dbus.Base.Int.{ℤ, pos, eqb_ℤ}
use l2dbus.Boxed.{check_type, check_any, check_string}
use l2dbus.C.Words.{to_int32}
use l2dbus.Callback.{CallbackCtx, callback_ref, callback_unref}
use l2dbus.Interface.Describe.{Item, Property}
use l2dbus.Lua.{Lua, LuaType, Bytes}
use l2dbus.Lua.Refs.{Refs, no_ref}
use l2dbus.Object.{object_registry_add, object_registry_get, object_registry_remove}
use l2dbus.Userdata.{
  State, set_object, store, load, check_module_initialized, handle, cdbus_set, registry_call,
  take_ref, release_ref, to_ref, optional_ref, check_object, top, callback_slots,
}

-- `l2dbus_Interface`
pub record InterfaceUd : Type 0 where
  pub intf : Option ℕ
  pub cb : CallbackCtx

-- What an interface has that can be registered and cleared.
pub data Part : Type 0 where
  methods signals properties : Part

-- The interfaces of libcdbus, which copies the descriptions that it registers, and two tests of
-- libdbus. `introspect` is the XML text.
pub record Interfaces : Type 1 where
  pub World : Type 0
  pub interface_new : World → Bytes → (user : ℕ) → World × Option ℕ
  pub interface_unref : World → ℕ → World
  pub interface_name : World → ℕ → Option Bytes
  pub register_items : World → ℕ → (is_method : Bool) → List Item → World × Bool
  pub register_properties : World → ℕ → List Property → World × Bool
  pub clear : World → ℕ → Part → World × Bool
  pub introspect : World → ℕ → Bytes
  pub validate_interface : Bytes → Bool
  pub signature_validate : Bytes → Bool
  pub arg_size : ℕ
  pub item_size : ℕ
  pub property_size : ℕ

module _ (L : Lua) (R : Refs L.Value) (M : Memory) (C : Interfaces) where
  open L use {Value, lua_type, is_number, to_integer}
  open R use {Table, anchored}

  -- The memory and the objects of libcdbus.
  pub record Outside : Type 0 where
    pub heap : M.Heap
    pub bus : C.World

  abbrev pub Host : Type 0
  Host = State Table Value InterfaceUd Outside

  abbrev pub name : String
  name = "l2dbus.interface"

  abbrev pub on_bus : (C.World → C.World) → Action Host (Unit {0})
  on_bus f = cdbus_set (λ o. record o { bus = f o.bus })

  unfoldable pub make_interface : Bytes → ℕ → (self : Value) → List Value → Action Host Value
  make_interface text p self more s =
      let (func, user) = callback_slots L more in
      let (t, ctx) = callback_ref Value R s.refs func user in
      let (w, made) = C.interface_new s.world.bus text p in
      let ud : InterfaceUd = record { intf = made; cb = ctx } in
      let world = record s.world { bus = w } in
      elim made [
        | none ↦ (
          set_object p (some ud) (record s { refs = callback_unref Value R t ctx; world = world }),
          lua_error Error.no_memory,
        )
        | some h ↦
            (registry_call (object_registry_add p self) >> pure self)
              (set_object p (some ud) (record s { refs = t; world = world }))
      ]

  -- The arguments are those on the stack; `place` is the new block and its userdata.
  unfoldable pub new_interface : List Value → (place : Option (ℕ × Value)) → Action Host Value
  new_interface args place = check_module_initialized >> elim args [
    | [] ↦ raise Error.argument_type
    | v ∷ more ↦ do
      text ← lift (check_string L v)
      require (C.validate_interface text) Error.invalid_name
      elim place [ none ↦ raise Error.no_memory | some (p, self) ↦ make_interface text p self more ]
  ]

  abbrev pub unref_interface : Option ℕ → Action Host (Unit {0})
  unref_interface none = pure tt
  unref_interface (some h) = on_bus (λ w. C.interface_unref w h)

  abbrev pub unref_callback : CallbackCtx → Action Host (Unit {0})
  unref_callback ctx s = (record s { refs = callback_unref Value R s.refs ctx }, ok tt)

  unfoldable pub interface_dispose : Value → Action Host (Unit {0})
  interface_dispose v = do
    (p, ud) ← check_object L v name
    unref_interface ud.intf
    registry_call (object_registry_remove p)
    unref_callback ud.cb

  unfoldable pub interface_get_name : Value → Action Host (Option Bytes)
  interface_get_name v = do
    (p, ud) ← check_object L v name
    check_module_initialized
    h ← handle ud.intf
    gets (λ s. C.interface_name s.world.bus h)

  -- The value at the top of the stack, which is the interface where no value is given.
  unfoldable pub interface_set_data : (self : Value) → (more : List Value) → Action Host (Unit {0})
  interface_set_data self more = do
    (p, ud) ← check_object L self name
    check_module_initialized
    lift (check_any L (top L self more))
    release_ref R ud.cb.user_ref
    r ← take_ref R (to_ref L (top L self more))
    store p (record ud { cb = record ud.cb { user_ref = r } })

  unfoldable pub interface_get_data : Value → Action Host (Option Value)
  interface_get_data v = do
    (p, ud) ← check_object L v name
    check_module_initialized
    gets (λ s. anchored s.refs ud.cb.user_ref)

  -- clearMethods, clearSignals and clearProperties
  unfoldable pub interface_clear : Part → Value → Action Host Bool
  interface_clear part v = do
    (p, ud) ← check_object L v name
    check_module_initialized
    h ← handle ud.intf
    clear_part h
    where
      clear_part : ℕ → Action Host Bool
      clear_part h s =
          let (w, cleared) = C.clear s.world.bus h part in
          (record s { world = record s.world { bus = w } }, ok cleared)

  -- nil is pushed for an empty text.
  unfoldable pub interface_introspect : Value → Action Host (Option Bytes)
  interface_introspect v = do
    (p, ud) ← check_object L v name
    check_module_initialized
    h ← handle ud.intf
    gets (λ s. text_or_nil (C.introspect s.world.bus h))
    where
      text_or_nil : Bytes → Option Bytes
      text_or_nil [] = none
      text_or_nil (c ∷ text) = some (c ∷ text)
