-- ===== src/ServiceObject.antt =====
-- src/l2dbus_serviceobject.c: the objects of libcdbus as userdata, with the handler of their requests
-- and the interfaces that they hold.
pub mod Members
pub mod Held
pub mod RoundTrip
pub mod Handler
use Prim.Native.String.{String}
use l2dbus.Base.{
  ℕ, Bool, true, false, Option, none, some, List, [], ◌∷◌, Result, ok, lua_error, undefined,
  out_of_fuel, Error, Fault,
}
use l2dbus.Base.Actions.{Action, pure, lift, raise, require, gets, modify, ◌>>=◌, ◌>>◌}
use l2dbus.Base.Int.{ℤ}
use l2dbus.Boxed.{check_any, check_string, check_udata}
use l2dbus.Callback.{CallbackCtx, callback_ref, callback_unref}
use l2dbus.Lua.{Lua, LuaType, Bytes}
use l2dbus.Lua.Refs.{Refs}
use l2dbus.Object.{object_registry_add, object_registry_remove}
use l2dbus.RefList.{Queue, RefList, ref_list_init, ref_list_free}
use l2dbus.Userdata.{
  State, set_object, store, check_module_initialized, handle, registry_call, take_ref, release_ref,
  to_ref, check_object, top, callback_slots,
}

-- The objects of libcdbus, and a test of libdbus. `introspect` is the XML text for a connection and a
-- path; the last two functions are the handles in the userdata of interfaces and connections.
pub record Objects : Type 1 where
  pub World : Type 0
  pub object_new : World → Bytes → (user : ℕ) → World × Option ℕ
  pub object_unref : World → ℕ → World
  pub object_path : World → ℕ → Option Bytes
  pub add_interface : World → (obj intf : ℕ) → World × Bool
  pub remove_interface : World → (obj : ℕ) → (name : Option Bytes) → World × Bool
  pub interface_name : World → ℕ → Option Bytes
  pub introspect : World → (obj conn : ℕ) → Bytes → Bytes
  pub validate_path : Bytes → Bool
  pub interface_of : ℕ → Option ℕ
  pub connection_of : ℕ → Option ℕ

-- `l2dbus_ServiceObject`
pub record ServiceObjectUd (Q : Queue) : Type 0 where
  pub obj : Option ℕ
  pub cb : CallbackCtx
  pub interfaces : RefList Q

module _ (L : Lua) (R : Refs L.Value) (Q : Queue) (C : Objects) where
  open L use {Value, touserdata}
  open R use {Table, anchored}

  abbrev pub Host : Type 0
  Host = State Table Value (ServiceObjectUd Q) C.World

  abbrev pub name : String
  name = "l2dbus.service_object"

  abbrev pub on_bus : {A : Type 0} → (C.World → C.World × A) → Action Host A
  on_bus f s = (record s { world = (f s.world).0 }, ok (f s.world).1)

  -- The userdata that a reference anchors.
  abbrev pub registry_of : Table → ℤ → Option ℕ
  registry_of t r = elim (anchored t r) [ none ↦ none | some v ↦ touserdata v ]

  abbrev pub no_interfaces : RefList Q
  no_interfaces =
      ref_list_init Q true
        (record { links = Q.list_init; items = λ a. none; released = []; called = [] })

  -- The references of the callback are taken before libcdbus is asked for an object.
  unfoldable pub make_service_object :
      Bytes → (p : ℕ) → (self : Value) → List Value → Action Host Value
  make_service_object path p self more s =
      let (func, user) = callback_slots L more in
      let (t, ctx) = callback_ref Value R s.refs func user in
      let (w, made) = C.object_new s.world path p in
      let ud : ServiceObjectUd Q = record { obj = made; cb = ctx; interfaces = no_interfaces } in
      elim made [
        | none ↦ (
          set_object p (some ud) (record s { refs = callback_unref Value R t ctx; world = w }),
          lua_error Error.no_memory,
        )
        | some h ↦
            (registry_call (object_registry_add h self) >> pure self)
              (set_object p (some ud) (record s { refs = t; world = w }))
      ]

  -- The arguments are those on the stack; `place` is the new block and its userdata.
  unfoldable pub new_service_object : List Value → (place : Option (ℕ × Value)) → Action Host Value
  new_service_object args place = check_module_initialized >> elim args [
    | [] ↦ raise Error.argument_type
    | v ∷ more ↦ do
      path ← lift (check_string L v)
      require (C.validate_path path) Error.invalid_path
      elim place [
        | none ↦ raise Error.no_memory
        | some (p, self) ↦ make_service_object path p self more
      ]
  ]

  -- The handle of an interface whose userdata is at an address.
  abbrev pub interface_at : Option ℕ → Action Host ℕ
  interface_at none s = (s, undefined Fault.null_pointer)
  interface_at (some q) s = handle (C.interface_of q) s

  abbrev pub take_out : (obj intf : ℕ) → Action Host Bool
  take_out h i = on_bus (λ w. C.remove_interface w h (C.interface_name w i))

  -- l2dbus_serviceObjectFreeObject for the userdata in a list, of which the last comes first.
  unfoldable pub free_objects : Option ℕ → List (Option ℕ) → Action Host (Unit {0})
  free_objects obj [] = pure tt
  free_objects obj (q ∷ qs) = do
    free_objects obj qs
    h ← handle obj
    i ← interface_at q
    take_out h i
    pure tt

  -- The references that a call gave back, of which the last comes first.
  unfoldable pub release_all : Table → List ℤ → Table
  release_all t [] = t
  release_all t (r ∷ rs) = R.release (release_all t rs) r

  -- A call on the list of interfaces: what it gives back goes to the table of references.
  abbrev pub settle : ℕ → ServiceObjectUd Q → RefList Q → Action Host (Unit {0})
  settle p ud list s = (
    set_object p (some (record ud { interfaces = list }))
        (record s { refs = release_all s.refs list.released }),
    ok tt,
  )

  -- A list of which nothing has been given back yet.
  abbrev pub unsettled : RefList Q → RefList Q
  unsettled list = record list { released = []; called = [] }

  unfoldable pub unref_object : Option ℕ → Action Host (Unit {0})
  unref_object none = pure tt
  unref_object (some h) = do
    registry_call (object_registry_remove h)
    on_bus (λ w. (C.object_unref w h, tt))

  unfoldable pub service_object_dispose : (fuel : ℕ) → Value → Action Host (Unit {0})
  service_object_dispose fuel v = do
    (p, ud) ← check_object L v name
    table ← gets (λ s. s.refs)
    list ← lift (ref_list_free Q (registry_of table) fuel true true (unsettled ud.interfaces))
    free_objects ud.obj list.called
    settle p ud list
    unref_object ud.obj
    modify (λ s. record s { refs = callback_unref Value R s.refs ud.cb })

  unfoldable pub service_object_get_path : Value → Action Host (Option Bytes)
  service_object_get_path v = do
    (p, ud) ← check_object L v name
    check_module_initialized
    h ← handle ud.obj
    gets (λ s. C.object_path s.world h)

  -- The value at the top of the stack, which is the object where no value is given.
  unfoldable pub service_object_set_data :
      (self : Value) → (more : List Value) → Action Host (Unit {0})
  service_object_set_data self more = do
    (p, ud) ← check_object L self name
    check_module_initialized
    lift (check_any L (top L self more))
    release_ref R ud.cb.user_ref
    r ← take_ref R (to_ref L (top L self more))
    store p (record ud { cb = record ud.cb { user_ref = r } })

  unfoldable pub service_object_get_data : Value → Action Host (Option Value)
  service_object_get_data v = do
    (p, ud) ← check_object L v name
    check_module_initialized
    gets (λ s. anchored s.refs ud.cb.user_ref)

  -- nil is pushed for an empty text.
  abbrev pub text_or_nil : Bytes → Option Bytes
  text_or_nil [] = none
  text_or_nil (c ∷ text) = some (c ∷ text)

  unfoldable pub service_object_introspect :
      (self connection path : Value) → Action Host (Option Bytes)
  service_object_introspect self connection path = do
    (p, ud) ← check_object L self name
    q ← lift (check_udata L connection "l2dbus.connection")
    check_module_initialized
    text ← lift (check_string L path)
    h ← handle ud.obj
    conn ← handle (C.connection_of q)
    gets (λ s. text_or_nil (C.introspect s.world h conn text))
