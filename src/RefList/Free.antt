-- ===== src/RefList/Free.antt =====
-- `l2dbus_refListFree` of src/l2dbus_reflist.c.
use l2dbus.Base.{
  ℕ, zero, suc, ◌<◌, ◌≡◌, ◌≢◌, ap, ◌∙◌, refl, arith, Bool, true, false, Option, none, some, List,
  [], ◌∷◌, ◌++◌, append_assoc, All, if◌then◌else◌, length, map, Result, ok,
}
use l2dbus.Base.Int.{ℤ}
use l2dbus.RefList.{Queue, RefList, store, free_loop, ref_list_free}
use l2dbus.RefList.Laws.{head, Documented, Distinct, addresses, references, Holds}
use l2dbus.RefList.Lists.{All-append, around, store_same, still_stored}
use l2dbus.RefList.Unref.{next_behind, head_of}

-- The elements of the first list, the last one in front of the second.
abbrev pub reverse_onto {ℓ} : {A : Type ℓ} → List A → List A → List A
reverse_onto [] out = out
reverse_onto (x ∷ xs) out = reverse_onto xs (x ∷ out)

abbrev pub called_for : Bool → (ℤ → Option ℕ) → List ℤ → List (Option ℕ) → List (Option ℕ)
called_for true registry rs out = reverse_onto (map registry rs) out
called_for false registry rs out = out

called_none :
    (func : Bool) (registry : ℤ → Option ℕ) (out : List (Option ℕ))
    → out ≡ called_for func registry [] out
called_none true registry out = refl
called_none false registry out = refl

called_step :
    (func : Bool) (registry : ℤ → Option ℕ) (r : ℤ) (rs : List ℤ) (out : List (Option ℕ))
    → called_for func registry rs (if func then registry r ∷ out else out)
      ≡ called_for func registry (r ∷ rs) out
called_step true registry r rs out = refl
called_step false registry r rs out = refl

store_other : (items : ℕ → Option ℤ) (a b : ℕ) (r : Option ℤ) → a ≢ b → store items a r b ≡ items b
store_other items a b r h = ground (arith, h)

module _ (Q : Queue) (D : Documented Q) (registry : ℤ → Option ℕ) (func : Bool) where
  -- What freeing the items of `after` does.
  abbrev Frees : RefList Q → List (ℕ × ℤ) → Result (RefList Q) → Type 0
  Frees s after result =
      (s' : RefList Q) × (result ≡ ok s')
      × (s'.links ≡ s.links)
      × (s'.released ≡ reverse_onto (references after) s.released)
      × (s'.called ≡ called_for func registry (references after) s.called)
      × All (λ (p : ℕ × ℤ). s'.items (p.0) ≡ none) after
      × ((b : ℕ) → All (λ (p : ℕ × ℤ). p.0 ≢ b) after → s'.items b ≡ s.items b)

  free_loop-Frees :
      (fuel : ℕ) (s : RefList Q) (before after : List (ℕ × ℤ))
      → length after < fuel
      → D.nodes s.links ≡ addresses (before ++ after)
      → Distinct (before ++ after)
      → All (λ (p : ℕ × ℤ). s.items (p.0) ≡ some (p.1)) after
      → Frees s after (free_loop Q registry fuel func (head (addresses after)) s)
  unfolding free_loop
  free_loop-Frees zero s before after small in_order distinct held = absurd (omega arith)
  free_loop-Frees (suc fuel) s before [] small in_order distinct held =
      (s, refl, refl, refl, called_none func registry s.called, tt, λ b h. refl)
  free_loop-Frees (suc fuel) s before ((a, r) ∷ after) small in_order distinct held =
      let step = append_assoc before ((a, r) ∷ []) after in
      let (others, _) = around before (a, r) after distinct in
      let (_, behind) = All-append _ before after others in
      let s1 : RefList Q = record s {
        items = store s.items a none;
        released = r ∷ s.released;
        called = if func then registry r ∷ s.called else s.called;
      } in
      let (s', e, links, released, called, freed, kept) =
        free_loop-Frees fuel s1 (before ++ (a, r) ∷ []) after (omega (arith, small))
          (rw step in_order) (rw step distinct) (still_stored s.items a none after behind held.1) in
      (
        s',
        rw (held.0, free_loop) (rw (next_behind Q D s.links before a r after in_order distinct) e),
        links,
        released,
        called ∙ called_step func registry r (references after) s.called,
        (kept a behind ∙ store_same s.items a none, freed),
        λ b h. kept b h.1 ∙ store_other s.items a b none h.0,
      )

  -- Where the list holds distinct items that are allocated: with more rounds than items the call
  -- returns, every reference is given back with luaL_unref, in the order of the list, the function,
  -- where one is given, is called with the userdata of each in that order, every item is freed, and
  -- the head of the list still points to the first of them.
  pub ref_list_free-Frees :
      (fuel : ℕ) (s : RefList Q) (ps : List (ℕ × ℤ))
      → Holds Q D s ps
      → length ps < fuel
      → (s' : RefList Q) × (ref_list_free Q registry fuel true func s ≡ ok s')
        × (s'.released ≡ reverse_onto (references ps) s.released)
        × (s'.called ≡ called_for func registry (references ps) s.called)
        × All (λ (p : ℕ × ℤ). s'.items (p.0) ≡ none) ps
        × (Q.list_first s'.links ≡ head (addresses ps))
  unfolding ref_list_free
  ref_list_free-Frees fuel s ps h small =
      let (s', e, links, released, called, freed, _) =
        free_loop-Frees fuel s [] ps small h.in_order h.distinct h.allocated in
      (
        s',
        rw (head_of Q D ps s h) e,
        released,
        called,
        freed,
        ap Q.list_first links ∙ head_of Q D ps s h,
      )
