-- ===== src/ServiceObject/Held.antt =====
-- What `addInterface` and `removeInterface` of src/l2dbus_serviceobject.c do to the references.
use l2dbus.Base.{ℕ, suc, true, ◌≡◌, refl, arith, Option, none, some, ok, inl, inr, ◌==◌, Bool-cases}
use l2dbus.Base.Actions.{pure, ◌>>◌}
use l2dbus.Base.Int.{ℤ, eqb_ℤ}
use l2dbus.Boxed.{check_udata}
use l2dbus.Lua.{Lua}
use l2dbus.Lua.Refs.{Refs, RefsLaws, no_ref}
use l2dbus.RefList.{Queue, RefList, ref_list_ref, drop_item}
use l2dbus.RefList.Iter.{
  RefListIter, ref_idx, find_loop, ref_list_find_item, ref_list_iter_erase, ref_list_iter_next,
}
use l2dbus.ServiceObject.{Objects, ServiceObjectUd, Host, name, registry_of, unsettled, release_all}
use l2dbus.ServiceObject.Members.{hold, let_go, add_interface, remove_interface}
use l2dbus.Userdata.{check_module_initialized, to_ref, set_object}

module _ (Q : Queue) where
  -- The search stops at the first item if that anchors the userdata.
  find_head :
      (registry : ℤ → Option ℕ) (fuel q a : ℕ) (r : ℤ) (list : RefList Q) (iter : RefListIter)
      → Q.list_first list.links ≡ some a
      → list.items a ≡ some r
      → registry r ≡ some q
      → ref_list_find_item Q registry (suc fuel) true q list iter
        ≡ ok (record { cur = some a; next = Q.list_next list.links a }, true)
  unfolding ref_list_find_item find_loop
  find_head registry fuel q a r list iter front held anchors =
      rw (front, ref_list_find_item) (simp (find_loop, ref_idx, held, anchors, same q) refl)
    where
      same : (n : ℕ) → (n == n) ≡ true
      same n = grind arith

  erase_at :
      (list : RefList Q) (a : ℕ) (r : ℤ) (next : Option ℕ)
      → list.items a ≡ some r
      → ref_list_iter_erase Q true list (record { cur = some a; next = next })
        ≡ ok (
          drop_item Q list a r,
          (ref_list_iter_next Q true
              (drop_item Q list a r)
              (record { cur = some a; next = next })).0,
        )
  unfolding ref_list_iter_erase
  erase_at list a r next held = simp (ref_list_iter_erase, ref_idx, held) refl

module _ (L : Lua) (R : Refs L.Value) (Q : Queue) (C : Objects) where
  open L use {Value, touserdata}
  open R use {Table, anchored}

  -- The userdata with the reference `r` in the item `a`, and without it.
  abbrev pub holding : ServiceObjectUd Q → ℕ → ℤ → ServiceObjectUd Q
  holding ud a r = record ud {
    interfaces = (ref_list_ref Q true (some a) r (unsettled L R Q C ud.interfaces)).0;
  }

  abbrev pub letting_go : ServiceObjectUd Q → ℕ → ℤ → ServiceObjectUd Q
  letting_go ud a r = record ud { interfaces = drop_item Q (unsettled L R Q C ud.interfaces) a r }

  pub hold-ok :
      RefsLaws Value R
      → (s : Host L R Q C) (p : ℕ) (ud : ServiceObjectUd Q) (h i a : ℕ) (v : Value)
      → R.IsSound s.refs
      → let (t, r) = R.take s.refs (to_ref L v) in
        hold L R Q C p ud h i v (some a) s
        ≡ (set_object p (some (holding ud a r)) (record s { refs = t }), ok true)
  unfolding hold ref_list_ref release_all
  hold-ok laws s p ud h i a v sound =
      elim (Bool-cases (eqb_ℤ (R.take s.refs (to_ref L v)).1 no_ref)) [
        | inl same ↦ absurd (laws.take-ne_no_ref s.refs (to_ref L v) sound (grind arith))
        | inr other ↦ rw (other, hold) refl
      ]

  pub let_go-ok :
      (fuel p q a : ℕ) (r : ℤ) (ud : ServiceObjectUd Q) (s : Host L R Q C)
      → Q.list_first ud.interfaces.links ≡ some a
      → ud.interfaces.items a ≡ some r
      → registry_of L R Q C s.refs r ≡ some q
      → let_go L R Q C (suc fuel) p ud q s
        ≡ (set_object p (some (letting_go ud a r)) (record s { refs = R.release s.refs r }), ok tt)
  unfolding let_go release_all
  let_go-ok fuel p q a r ud s front held anchors =
      rw
        (
          find_head Q (registry_of L R Q C s.refs) fuel q a r (unsettled L R Q C ud.interfaces)
              (record { cur = none; next = none }) front held anchors,
          let_go,
        )
        (rw (erase_at Q (unsettled L R Q C ud.interfaces) a r _ held) refl)

  -- The arguments of a call are the userdata at `p`, of an object of libcdbus, and the one at `q`, of an
  -- interface.
  pub record Accepted (s : Host L R Q C) (self interface : Value) (p q h i : ℕ)
      (ud : ServiceObjectUd Q) : Type 0 where
    pub is_object : check_udata L self (name L R Q C) ≡ ok p
    pub is_interface : check_udata L interface "l2dbus.interface" ≡ ok q
    pub initialized : s.initialized ≡ true
    pub stored : s.objects p ≡ some ud
    pub has_object : ud.obj ≡ some h
    pub has_interface : C.interface_of q ≡ some i

  pub add_interface-hold :
      (s : Host L R Q C) (self v : Value) (p q h i : ℕ) (ud : ServiceObjectUd Q) (item : Option ℕ)
      → Accepted s self v p q h i ud
      → (C.add_interface s.world h i).1 ≡ true
      → add_interface L R Q C self v item s
        ≡ hold L R Q C p ud h i v item (record s { world = (C.add_interface s.world h i).0 })
  unfolding add_interface check_module_initialized
  add_interface-hold s self v p q h i ud item accepted added =
      simp
        (
          add_interface, accepted.is_object, accepted.is_interface, accepted.initialized,
          accepted.stored, accepted.has_object, accepted.has_interface, added,
        )
        refl

  pub remove_interface-let_go :
      (fuel : ℕ) (s : Host L R Q C) (self v : Value) (p q h i : ℕ) (ud : ServiceObjectUd Q)
      → Accepted s self v p q h i ud
      → (C.remove_interface s.world h (C.interface_name s.world i)).1 ≡ true
      → remove_interface L R Q C fuel self v s
        ≡ (let_go L R Q C fuel p ud q >> pure true)
            (record s { world = (C.remove_interface s.world h (C.interface_name s.world i)).0 })
  unfolding remove_interface check_module_initialized
  remove_interface-let_go fuel s self v p q h i ud accepted removed =
      simp
        (
          remove_interface, accepted.is_object, accepted.is_interface, accepted.initialized,
          accepted.stored, accepted.has_object, accepted.has_interface, removed,
        )
        refl
