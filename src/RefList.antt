-- ===== src/RefList.antt =====
-- src/l2dbus_reflist.h and src/l2dbus_reflist.c: a list of references into the Lua registry. The lists
-- of queue.h, a header of BSD, are a parameter, the record `Queue`.
pub mod Laws
pub mod Lists
pub mod Unref
pub mod Free
pub mod Iter
use l2dbus.Base.{
  ℕ, zero, suc, Bool, true, false, Option, none, some, List, [], ◌∷◌, ◌==◌, if◌then◌else◌, Result,
  ok, undefined, Fault, out_of_fuel, ◌>>=◌,
}
use l2dbus.Base.Int.{ℤ, negsuc, eqb_ℤ}

-- The heads and link fields of a list: `LIST_INIT`, `LIST_FIRST`, `LIST_NEXT`, `LIST_INSERT_HEAD` and
-- `LIST_REMOVE`. A node is an address.
pub record Queue : Type 1 where
  pub Links : Type 0
  pub list_init : Links
  pub list_first : Links → Option ℕ
  pub list_next : Links → ℕ → Option ℕ
  pub insert_head : Links → ℕ → Links
  pub list_remove : Links → ℕ → Links

-- `LUA_NOREF`
abbrev pub no_ref : ℤ
no_ref = negsuc 1

-- A memory in which one item is replaced.
abbrev pub store : (ℕ → Option ℤ) → ℕ → Option ℤ → ℕ → Option ℤ
store items a r b = if b == a then r else items b

module _ (Q : Queue) where
  open Q use {Links, list_init, list_first, list_next, insert_head, list_remove}

  -- The list, the `refIdx` of the items that are allocated, the references given back with
  -- luaL_unref, the last one first, and the userdata that a function of the caller was called with.
  pub record RefList : Type 0 where
    pub links : Links
    pub items : ℕ → Option ℤ
    pub released : List ℤ
    pub called : List (Option ℕ)

  -- The arguments `present` say that no pointer argument is NULL.
  unfoldable pub ref_list_init : Bool → RefList → RefList
  ref_list_init present s = if present then record s { links = list_init } else s

  -- `item` is what malloc returns and `ref` what luaL_ref does.
  unfoldable pub ref_list_ref : Bool → Option ℕ → ℤ → RefList → RefList × ℤ
  ref_list_ref false item ref s = (s, no_ref)
  ref_list_ref true none ref s = (s, no_ref)
  ref_list_ref true (some a) ref s =
      (record s { links = insert_head s.links a; items = store s.items a (some ref) }, ref)

  -- luaL_unref, LIST_REMOVE and free of the item.
  abbrev pub drop_item : RefList → ℕ → ℤ → RefList
  drop_item s a r = record s {
    links = list_remove s.links a;
    items = store s.items a none;
    released = r ∷ s.released;
  }

  unfoldable pub unref_loop : ℕ → ℤ → Option ℕ → RefList → Result RefList
  unref_loop zero ref item s = out_of_fuel
  unref_loop (suc fuel) ref none s = ok s
  unref_loop (suc fuel) ref (some a) s = elim (s.items a) [
    | none ↦ undefined Fault.dangling_pointer
    | some r ↦
        let rest = unref_loop fuel ref (list_next s.links a) s in
        if eqb_ℤ ref r then ok (drop_item s a r) else rest
  ]

  -- The status is never set to true.
  unfoldable pub ref_list_unref : ℕ → Bool → ℤ → RefList → Result (RefList × Bool)
  ref_list_unref fuel false ref s = ok (s, false)
  ref_list_unref fuel true ref s = do
    s' ← unref_loop fuel ref (list_first s.links) s
    ok (s', false)

  -- `registry` is lua_rawgeti of the registry with lua_touserdata. The next item is read before the
  -- item is freed; the head of the list is left as it is. The function of the caller is one that does
  -- not change the list.
  unfoldable pub free_loop : (ℤ → Option ℕ) → ℕ → Bool → Option ℕ → RefList → Result RefList
  free_loop registry zero func item s = out_of_fuel
  free_loop registry (suc fuel) func none s = ok s
  free_loop registry (suc fuel) func (some a) s = elim (s.items a) [
    | none ↦ undefined Fault.dangling_pointer
    | some r ↦ free_loop registry fuel func (list_next s.links a) (record s {
      items = store s.items a none;
      released = r ∷ s.released;
      called = if func then registry r ∷ s.called else s.called;
    })
  ]

  -- `func` says whether a function is given.
  unfoldable pub ref_list_free : (ℤ → Option ℕ) → ℕ → Bool → Bool → RefList → Result RefList
  ref_list_free registry fuel false func s = ok s
  ref_list_free registry fuel true func s = free_loop registry fuel func (list_first s.links) s
