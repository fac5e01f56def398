-- ===== src/ServiceObject/RoundTrip.antt =====
-- An interface that is added to an object and removed again (src/l2dbus_serviceobject.c).
use l2dbus.Base.{
  ℕ, suc, true, ◌≡◌, ◌≢◌, refl, arith, Option, some, List, [], ◌∷◌, All, ok, inl, inr, Bool-cases,
  ◌∙◌,
}
use l2dbus.Base.Actions.{◌>>=◌}
use l2dbus.Base.Int.{ℤ, eqb_ℤ}
use l2dbus.Boxed.{check_udata}
use l2dbus.Lua.{Lua, LuaType}
use l2dbus.Lua.Refs.{Refs, RefsLaws}
use l2dbus.RefList.{Queue, ref_list_ref}
use l2dbus.RefList.Laws.{Documented, Holds}
use l2dbus.RefList.Unref.{ref_list_ref-Holds, dropped, head_of}
use l2dbus.ServiceObject.{Objects, ServiceObjectUd, Host, registry_of, unsettled}
use l2dbus.ServiceObject.Held.{
  holding, letting_go, hold-ok, let_go-ok, Accepted, add_interface-hold, remove_interface-let_go,
}
use l2dbus.ServiceObject.Members.{add_interface, remove_interface}
use l2dbus.Userdata.{to_ref, set_object}
use l2dbus.Util.{is_user_data}
use Prim.Native.String.{String}

module _ (L : Lua) (R : Refs L.Value) (Q : Queue) (D : Documented Q) (C : Objects) where
  open L use {Value, lua_type, touserdata}
  open R use {Table, anchored}

  check_udata-touserdata :
      (v : Value) (n : String) (q : ℕ) → check_udata L v n ≡ ok q → touserdata v ≡ some q
  unfolding check_udata is_user_data
  check_udata-touserdata v n q e = ground arith

  unsettled-Holds :
      (ud : ServiceObjectUd Q) (ps : List (ℕ × ℤ))
      → Holds Q D ud.interfaces ps
      → Holds Q D (unsettled L R Q C ud.interfaces) ps
  unsettled-Holds ud ps holds = record {
    in_order = holds.in_order;
    allocated = holds.allocated;
    distinct = holds.distinct;
  }

  set_object-stored :
      (s : Host L R Q C) (p : ℕ) (ud : ServiceObjectUd Q)
      → (set_object p (some ud) s).objects p ≡ some ud
  set_object-stored s p ud = ground arith

  -- What is left is the list as it was.
  letting_go-Holds :
      (ud : ServiceObjectUd Q) (ps : List (ℕ × ℤ)) (a : ℕ) (r : ℤ)
      → Holds Q D ud.interfaces ps
      → All (λ (y : ℕ × ℤ). y.0 ≢ a) ps
      → Holds Q D (letting_go L R Q C (holding L R Q C ud a r) a r).interfaces ps
  unfolding ref_list_ref
  letting_go-Holds ud ps a r holds fresh =
      let list = unsettled L R Q C ud.interfaces in
      let (_, held) = ref_list_ref-Holds Q D list ps a r (unsettled-Holds ud ps holds) fresh in
      dropped Q D (unsettled L R Q C (holding L R Q C ud a r).interfaces) [] a r ps
        (unsettled-Holds (holding L R Q C ud a r) ((a, r) ∷ ps) held)

  -- A reference that is taken and given back leaves the table as it was.
  anchored-release_taken :
      RefsLaws Value R
      → (t : Table) (v : Option Value) (r : ℤ) → R.IsSound t
      → anchored (R.release (R.take t v).0 (R.take t v).1) r ≡ anchored t r
  anchored-release_taken laws t v r sound = elim (Bool-cases (eqb_ℤ r (R.take t v).1)) [
    | inl same ↦
        let e : r ≡ (R.take t v).1 = grind arith in
        rw e (
          rw (laws.anchored-release (R.take t v).0 (R.take t v).1)
            (rw (laws.take_fresh t v sound) refl))
    | inr other ↦
        let different : r ≢ (R.take t v).1 = λ e. grind arith in
        laws.anchored-release_other (R.take t v).0 (R.take t v).1 r different
        ∙ laws.anchored-take_other t v r different
  ]

  -- The state behind the two calls: `r` is the reference that was taken.
  abbrev finally : Host L R Q C → (h i : ℕ) → Value → C.World
  finally s h i v =
      let w = (C.add_interface s.world h i).0 in (C.remove_interface w h (C.interface_name w i)).0

  both-ok :
      RefsLaws Value R
      → (fuel : ℕ) (s : Host L R Q C) (self v : Value) (p q h i a : ℕ) (ud : ServiceObjectUd Q)
        (ps : List (ℕ × ℤ))
      → R.IsSound s.refs
      → Accepted L R Q C s self v p q h i ud
      → lua_type v ≡ LuaType.userdata
      → Holds Q D ud.interfaces ps
      → All (λ (y : ℕ × ℤ). y.0 ≢ a) ps
      → (C.add_interface s.world h i).1 ≡ true
      → (let w = (C.add_interface s.world h i).0 in
          (C.remove_interface w h (C.interface_name w i)).1 ≡ true)
      → let (t, r) = R.take s.refs (some v) in
        (add_interface L R Q C self v (some a) >>= λ added.
        remove_interface L R Q C (suc fuel) self v)
          s
        ≡ (
          set_object p (some (letting_go L R Q C (holding L R Q C ud a r) a r)) (
              set_object p
                (some (holding L R Q C ud a r))
                (record s { refs = R.release t r; world = finally s h i v })),
          ok true,
        )
  both-ok laws fuel s self v p q h i a ud ps sound accepted is holds fresh added removed =
      let w = (C.add_interface s.world h i).0 in
      let (t, r) = R.take s.refs (some v) in
      let s' : Host L R Q C =
        set_object p (some (holding L R Q C ud a r)) (record s { refs = t; world = w }) in
      let named : to_ref L v ≡ some v = rw (is, to_ref) refl in
      let first : add_interface L R Q C self v (some a) s ≡ (s', ok true) =
        add_interface-hold L R Q C s self v p q h i ud (some a) accepted added
        ∙ rw (← named) (hold-ok L R Q C laws (record s { world = w }) p ud h i a v sound) in
      let held =
        (ref_list_ref-Holds Q D (unsettled L R Q C ud.interfaces) ps a r
          (unsettled-Holds ud ps holds) fresh).1 in
      let accepted' : Accepted L R Q C s' self v p q h i (holding L R Q C ud a r) = record {
        is_object = accepted.is_object;
        is_interface = accepted.is_interface;
        initialized = accepted.initialized;
        stored = set_object-stored s p (holding L R Q C ud a r);
        has_object = accepted.has_object;
        has_interface = accepted.has_interface;
      } in
      let second =
        let_go-ok L R Q C fuel p q a r (holding L R Q C ud a r)
          (record s' { world = finally s h i v })
          (head_of Q D ((a, r) ∷ ps) (holding L R Q C ud a r).interfaces held) held.allocated.0
          (rw (laws.anchored-take s.refs (some v), registry_of)
            (check_udata-touserdata v "l2dbus.interface" q accepted.is_interface)) in
      rw first (
        remove_interface-let_go L R Q C (suc fuel) s' self v p q h i (holding L R Q C ud a r)
          accepted' removed
        ∙ rw second refl)

  -- Where no reference was given back that was not in use, the references of Lua and the lists of queue.h behave as documented, libcdbus adds the interface
  -- and removes it again, the object holds distinct items that are allocated and malloc returns an item
  -- that is none of them: an interface that is added and removed again, with at least one round of fuel,
  -- leaves the object with the references that it had, and the table of references anchors what it did
  -- before.
  pub remove_interface-add_interface :
      RefsLaws Value R
      → (fuel : ℕ) (s : Host L R Q C) (self v : Value) (p q h i a : ℕ) (ud : ServiceObjectUd Q)
        (ps : List (ℕ × ℤ))
      → R.IsSound s.refs
      → Accepted L R Q C s self v p q h i ud
      → lua_type v ≡ LuaType.userdata
      → Holds Q D ud.interfaces ps
      → All (λ (y : ℕ × ℤ). y.0 ≢ a) ps
      → (C.add_interface s.world h i).1 ≡ true
      → (let w = (C.add_interface s.world h i).0 in
          (C.remove_interface w h (C.interface_name w i)).1 ≡ true)
      → let (s', result) =
          (add_interface L R Q C self v (some a) >>= λ added.
          remove_interface L R Q C (suc fuel) self v)
            s in
        (result ≡ ok true)
        × ((ud' : ServiceObjectUd Q) × (s'.objects p ≡ some ud') × Holds Q D ud'.interfaces ps)
        × ((r : ℤ) → anchored s'.refs r ≡ anchored s.refs r)
  remove_interface-add_interface laws fuel s self v p q h i a ud ps sound accepted is holds fresh
        added removed =
      let r = (R.take s.refs (some v)).1 in
      let ud' = letting_go L R Q C (holding L R Q C ud a r) a r in
      rw (both-ok laws fuel s self v p q h i a ud ps sound accepted is holds fresh added removed) (
        refl,
        (ud', ground arith, letting_go-Holds ud ps a r holds fresh),
        λ r'. anchored-release_taken laws s.refs (some v) r' sound,
      )
