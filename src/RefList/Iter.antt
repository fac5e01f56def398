-- ===== src/RefList/Iter.antt =====
-- The iterators of src/l2dbus_reflist.c.
use l2dbus.Base.{
  ℕ, zero, suc, Bool, true, false, Option, none, some, ◌==◌, if◌then◌else◌, Result, ok, undefined,
  Fault, out_of_fuel, ◌>>=◌,
}
use l2dbus.Base.Int.{ℤ}
use l2dbus.RefList.{Queue, RefList, no_ref, drop_item}

-- `l2dbus_RefListIter`
pub record RefListIter : Type 0 where
  pub cur : Option ℕ
  pub next : Option ℕ

module _ (Q : Queue) where
  open Q use {list_first, list_next}

  -- `refIdx` of an item.
  abbrev pub ref_idx : RefList Q → ℕ → Result ℤ
  ref_idx s a = elim (s.items a) [ none ↦ undefined Fault.dangling_pointer | some r ↦ ok r ]

  -- The link of the first item is read without a test for an empty list. The arguments `present` say that
  -- no pointer argument is NULL.
  unfoldable pub ref_list_iter_init :
      (present : Bool) → RefList Q → RefListIter → Result RefListIter
  ref_list_iter_init false s iter = ok iter
  ref_list_iter_init true s iter = elim (list_first s.links) [
    | none ↦ undefined Fault.null_pointer
    | some a ↦ ok (record { cur = some a; next = list_next s.links a })
  ]

  unfoldable pub ref_list_iter_current : (present : Bool) → RefList Q → RefListIter → Result ℤ
  ref_list_iter_current false s iter = ok no_ref
  ref_list_iter_current true s iter = elim (iter.cur) [ none ↦ ok no_ref | some a ↦ ref_idx s a ]

  unfoldable pub ref_list_iter_next :
      (present : Bool) → RefList Q → RefListIter → RefListIter × Bool
  ref_list_iter_next false s iter = (iter, false)
  ref_list_iter_next true s iter = elim (iter.next) [
    | none ↦ (record iter { cur = none }, false)
    | some a ↦ (record { cur = some a; next = list_next s.links a }, true)
  ]

  unfoldable pub ref_list_iter_erase :
      (present : Bool) → RefList Q → RefListIter → Result (RefList Q × RefListIter)
  unfolding ref_list_iter_next
  ref_list_iter_erase false s iter = ok (s, iter)
  ref_list_iter_erase true s iter = elim (iter.cur) [
    | none ↦ ok (s, iter)
    | some a ↦ do
      r ← ref_idx s a
      let s' = drop_item Q s a r in ok (s', (ref_list_iter_next true s' iter).0)
  ]

  -- `registry` is lua_rawgeti of the registry with lua_touserdata, `none` for what is no userdata.
  unfoldable pub ref_list_iter_ref_item :
      (registry : ℤ → Option ℕ) → (present : Bool) → RefList Q → RefListIter → Result (Option ℕ)
  ref_list_iter_ref_item registry false s iter = ok none
  ref_list_iter_ref_item registry true s iter = elim (iter.cur) [
    | none ↦ ok none
    | some a ↦ do r ← ref_idx s a; ok (registry r)
  ]

  -- The reference anchors the userdata `item`.
  abbrev is_item : Option ℕ → ℕ → Bool
  is_item none item = false
  is_item (some u) item = u == item

  unfoldable pub find_loop :
      (registry : ℤ → Option ℕ)
      → (fuel item : ℕ) → Option ℕ
      → RefList Q
      → RefListIter
      → Result (RefListIter × Bool)
  find_loop registry zero item cur s iter = out_of_fuel
  find_loop registry (suc fuel) item none s iter = ok (iter, false)
  find_loop registry (suc fuel) item (some a) s iter = do
    r ← ref_idx s a
    let rest = find_loop registry fuel item (list_next s.links a) s iter in
        if is_item (registry r) item
        then ok (record { cur = some a; next = list_next s.links a }, true)
        else rest

  unfoldable pub ref_list_find_item :
      (registry : ℤ → Option ℕ)
      → (fuel : ℕ) → (present : Bool) → (item : ℕ) → RefList Q
      → RefListIter
      → Result (RefListIter × Bool)
  ref_list_find_item registry fuel false item s iter = ok (iter, false)
  ref_list_find_item registry fuel true item s iter =
      find_loop registry fuel item (list_first s.links) s iter
