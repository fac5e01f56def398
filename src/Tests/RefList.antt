-- ===== src/Tests/RefList.antt =====
-- The theorems about src/l2dbus_reflist.c at concrete values.
use l2dbus.Base.{
  ℕ, ◌≡◌, ◌≢◌, refl, ap, arith, true, false, Option, none, some, List, [], ◌∷◌, ◌++◌, All, ◌==◌,
  if◌then◌else◌, ok,
}
use l2dbus.Base.Int.{ℤ, pos}
use l2dbus.RefList.{Queue, RefList, ref_list_unref, ref_list_free}
use l2dbus.RefList.Laws.{head, Documented, addresses, references, Holds}
use l2dbus.RefList.Unref.{ref_list_unref-erase_first, erase_first, given_back}
use l2dbus.RefList.Free.{ref_list_free-Frees, reverse_onto, called_for}

-- The nodes themselves as the list.
abbrev pub behind : List ℕ → ℕ → Option ℕ
behind [] a = none
behind (b ∷ bs) a = if b == a then head bs else behind bs a

abbrev pub without : List ℕ → ℕ → List ℕ
without [] a = []
without (b ∷ bs) a = if b == a then bs else b ∷ without bs a

abbrev pub node_list : Queue
node_list = record {
  Links = List ℕ;
  list_init = [];
  list_first = head;
  list_next = behind;
  insert_head = λ l a. a ∷ l;
  list_remove = without;
}

pub behind_lem :
    (before : List ℕ) (a : ℕ) (after : List ℕ)
    → All (λ b. b ≢ a) before
    → behind (before ++ a ∷ after) a ≡ head after
behind_lem [] a after h = ground arith
behind_lem (b ∷ before) a after h =
    let other : (b == a) ≡ false = ground (arith, h.0) in rw other (behind_lem before a after h.1)

pub without_lem :
    (before : List ℕ) (a : ℕ) (after : List ℕ)
    → All (λ b. b ≢ a) before
    → without (before ++ a ∷ after) a ≡ before ++ after
without_lem [] a after h = ground arith
without_lem (b ∷ before) a after h =
    let other : (b == a) ≡ false = ground (arith, h.0) in
    rw other (ap (◌∷◌ b) (without_lem before a after h.1))

abbrev pub node_list-Documented : Documented node_list
node_list-Documented = record {
  nodes = λ l. l;
  nodes-list_init = refl;
  list_first-nodes = λ l. refl;
  list_next-nodes = λ l before a after e h. rw e (behind_lem before a after h);
  nodes-insert_head = λ l a h. refl;
  nodes-list_remove = λ l before a after e h. rw e (without_lem before a after h);
}

-- Two items, at the addresses 1 and 2, with the references 10 and 20.
abbrev pub two_items : ℕ → Option ℤ
two_items a = if a == 1 then some (pos 10) else if a == 2 then some (pos 20) else none

abbrev pub two : RefList node_list
two = record { links = 1 ∷ 2 ∷ []; items = two_items; released = []; called = [] }

abbrev pub two_pairs : List (ℕ × ℤ)
two_pairs = (1, pos 10) ∷ (2, pos 20) ∷ []

pub two-Holds : Holds node_list node_list-Documented two two_pairs
two-Holds = record {
  in_order = refl;
  allocated = (refl, (refl, tt));
  distinct = (((λ e. omega (arith, e)), tt), (tt, tt));
}

ref_list_unref-erase_first_example :
    (s' : RefList node_list) × (ps' : List (ℕ × ℤ)) × (ref_list_unref node_list 3 true (pos 20) two
      ≡ ok (s', false))
    × Holds node_list node_list-Documented s' ps'
    × (references ps' ≡ erase_first (pos 20) (references two_pairs))
    × (s'.released ≡ given_back (pos 20) (references two_pairs) [])
ref_list_unref-erase_first_example =
    ref_list_unref-erase_first node_list node_list-Documented 3 (pos 20) two two_pairs two-Holds
      (omega arith)

ref_list_free-Frees_example :
    (s' : RefList node_list) × (ref_list_free node_list (λ r. none) 3 true true two ≡ ok s')
    × (s'.released ≡ reverse_onto (references two_pairs) [])
    × (s'.called ≡ called_for true (λ r. none) (references two_pairs) [])
    × All (λ (p : ℕ × ℤ). s'.items (p.0) ≡ none) two_pairs
    × (head s'.links ≡ head (addresses two_pairs))
ref_list_free-Frees_example =
    ref_list_free-Frees node_list node_list-Documented (λ r. none) true 3 two two_pairs two-Holds
      (omega arith)
