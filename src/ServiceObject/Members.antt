-- ===== src/ServiceObject/Members.antt =====
-- `addInterface` and `removeInterface` of src/l2dbus_serviceobject.c: an object holds a reference to each
-- of its interfaces, which keeps their userdata alive.
use l2dbus.Base.{ℕ, Bool, true, false, Option, none, some, if◌then◌else◌}
use l2dbus.Base.Actions.{Action, pure, lift, gets, ◌>>=◌, ◌>>◌}
use l2dbus.Base.Int.{ℤ, eqb_ℤ}
use l2dbus.Boxed.{check_udata}
use l2dbus.Lua.{Lua}
use l2dbus.Lua.Refs.{Refs, no_ref}
use l2dbus.RefList.{Queue, RefList, ref_list_ref}
use l2dbus.RefList.Iter.{RefListIter, ref_list_find_item, ref_list_iter_erase}
use l2dbus.ServiceObject.{
  Objects, ServiceObjectUd, Host, name, on_bus, registry_of, take_out, settle, unsettled,
}
use l2dbus.Userdata.{check_module_initialized, handle, take_ref, to_ref, check_object}

module _ (L : Lua) (R : Refs L.Value) (Q : Queue) (C : Objects) where
  open L use {Value}

  -- luaL_ref, which is only called where malloc returns an item.
  abbrev reference : Option ℕ → Value → Action (Host L R Q C) ℤ
  reference none v = pure no_ref
  reference (some a) v = take_ref R (to_ref L v)

  -- The interface is taken out again where it cannot be referred to.
  unfoldable pub hold :
      (p : ℕ)
      → ServiceObjectUd Q
      → (obj intf : ℕ) → Value
      → (item : Option ℕ) → Action (Host L R Q C) Bool
  hold p ud h i v item = do
    r ← reference item v
    let (list, ref) = ref_list_ref Q true item r (unsettled L R Q C ud.interfaces) in
        (do
          settle L R Q C p ud list
          if eqb_ℤ ref no_ref then take_out L R Q C h i >> pure false else pure true)

  -- `item` is what malloc returns.
  unfoldable pub add_interface :
      (self interface : Value) → (item : Option ℕ) → Action (Host L R Q C) Bool
  add_interface self interface item = do
    (p, ud) ← check_object L self (name L R Q C)
    q ← lift (check_udata L interface "l2dbus.interface")
    check_module_initialized
    h ← handle ud.obj
    i ← handle (C.interface_of q)
    added ← on_bus L R Q C (λ w. C.add_interface w h i)
    if added then hold p ud h i interface item else pure false

  -- The iterator on the stack, which is not set.
  abbrev no_iter : RefListIter
  no_iter = record { cur = none; next = none }

  abbrev erase : Bool → RefList Q → RefListIter → Action (Host L R Q C) (RefList Q)
  erase false list iter = pure list
  erase true list iter = do erased ← lift (ref_list_iter_erase Q true list iter); pure erased.0

  -- The reference to the interface at `q`, if there is one, is given back.
  unfoldable pub let_go :
      (fuel p : ℕ) → ServiceObjectUd Q → (q : ℕ) → Action (Host L R Q C) (Unit {0})
  let_go fuel p ud q = do
    table ← gets (λ s. s.refs)
    let list = unsettled L R Q C ud.interfaces in
        (do
          (iter, found) ←
              lift (ref_list_find_item Q (registry_of L R Q C table) fuel true q list no_iter)
          list' ← erase found list iter
          settle L R Q C p ud list')

  unfoldable pub remove_interface :
      (fuel : ℕ) → (self interface : Value) → Action (Host L R Q C) Bool
  remove_interface fuel self interface = do
    (p, ud) ← check_object L self (name L R Q C)
    q ← lift (check_udata L interface "l2dbus.interface")
    check_module_initialized
    h ← handle ud.obj
    i ← handle (C.interface_of q)
    removed ← take_out L R Q C h i
    if removed then let_go fuel p ud q >> pure true else pure false
