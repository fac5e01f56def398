-- ===== src/RefList/Unref.antt =====
-- `l2dbus_refListRef` and `l2dbus_refListUnref` of src/l2dbus_reflist.c on the list that is stored.
use l2dbus.Base.{
  ℕ, zero, suc, ◌<◌, ◌≡◌, ◌≢◌, sym, ap, ◌∙◌, refl, inl, inr, arith, true, false, Bool-cases, none,
  some, List, [], ◌∷◌, ◌++◌, append_assoc, All, if◌then◌else◌, length, Result, ok,
}
use l2dbus.Base.Int.{ℤ, eqb_ℤ}
use l2dbus.RefList.{Queue, RefList, ref_list_ref, drop_item, unref_loop, ref_list_unref}
use l2dbus.RefList.Laws.{head, Documented, Distinct, addresses, references, Holds}
use l2dbus.RefList.Lists.{
  All-append, append-All, around, addresses-append, addresses-All, store_same, still_stored,
}

-- The first occurrence of a reference is taken out.
abbrev pub erase_first : ℤ → List ℤ → List ℤ
erase_first ref [] = []
erase_first ref (r ∷ rs) = if eqb_ℤ ref r then rs else r ∷ erase_first ref rs

-- What is given back with luaL_unref, in front of `out`.
abbrev pub given_back : ℤ → List ℤ → List ℤ → List ℤ
given_back ref [] out = out
given_back ref (r ∷ rs) out = if eqb_ℤ ref r then r ∷ out else given_back ref rs out

module _ (Q : Queue) (D : Documented Q) where
  -- A reference that is taken goes to the front of the list; the address of its item is one that
  -- malloc returns, so none of the list.
  pub ref_list_ref-Holds :
      (s : RefList Q) (ps : List (ℕ × ℤ)) (a : ℕ) (ref : ℤ)
      → Holds Q D s ps
      → All (λ (y : ℕ × ℤ). y.0 ≢ a) ps
      → (ref_list_ref Q true (some a) ref s).1 ≡ ref
        × Holds Q D (ref_list_ref Q true (some a) ref s).0 ((a, ref) ∷ ps)
  unfolding ref_list_ref
  ref_list_ref-Holds s ps a ref h fresh = (
    refl,
    record {
      in_order =
          D.nodes-insert_head s.links a (rw h.in_order (addresses-All a ps fresh))
          ∙ ap (◌∷◌ a) h.in_order;
      allocated =
          (store_same s.items a (some ref), still_stored s.items a (some ref) ps fresh h.allocated);
      distinct = (fresh, h.distinct);
    },
  )

  -- The middle item is dropped.
  pub dropped :
      (s : RefList Q) (before : List (ℕ × ℤ)) (a : ℕ) (r : ℤ) (after : List (ℕ × ℤ))
      → Holds Q D s (before ++ (a, r) ∷ after)
      → Holds Q D (drop_item Q s a r) (before ++ after)
  dropped s before a r after h =
      let (others, distinct) = around before (a, r) after h.distinct in
      let (l, _) = All-append _ before after others in
      let (kept, kept') = All-append _ before ((a, r) ∷ after) h.allocated in
      record {
        in_order =
            D.nodes-list_remove s.links (addresses before) a (addresses after)
              (h.in_order ∙ addresses-append before ((a, r) ∷ after)) (addresses-All a before l)
            ∙ sym (addresses-append before after);
        allocated =
            still_stored s.items a none (before ++ after) others
              (append-All _ before after kept kept'.1);
        distinct = distinct;
      }

  -- The next item is the one behind.
  pub next_behind :
      (l : Q.Links) (before : List (ℕ × ℤ)) (a : ℕ) (r : ℤ) (after : List (ℕ × ℤ))
      → D.nodes l ≡ addresses (before ++ (a, r) ∷ after)
      → Distinct (before ++ (a, r) ∷ after)
      → Q.list_next l a ≡ head (addresses after)
  next_behind l before a r after in_order distinct =
      let (others, _) = around before (a, r) after distinct in
      let (front, _) = All-append _ before after others in
      D.list_next-nodes l (addresses before) a (addresses after)
        (in_order ∙ addresses-append before ((a, r) ∷ after)) (addresses-All a before front)

  -- What the search leaves behind.
  abbrev Leaves : ℤ → RefList Q → List ℤ → List ℤ → Result (RefList Q) → Type 0
  Leaves ref s rs out result =
      (s' : RefList Q) × (ps' : List (ℕ × ℤ)) × (result ≡ ok s')
      × Holds Q D s' ps'
      × (references ps' ≡ rs)
      × (s'.released ≡ out)

  references-append :
      (xs ys : List (ℕ × ℤ)) → references (xs ++ ys) ≡ references xs ++ references ys
  references-append [] ys = refl
  references-append (x ∷ xs) ys = ap (◌∷◌ (x.1)) (references-append xs ys)

  unref_loop-Leaves :
      (fuel : ℕ) (ref : ℤ) (s : RefList Q) (before after : List (ℕ × ℤ))
      → length after < fuel
      → Holds Q D s (before ++ after)
      → Leaves ref s
          (references before ++ erase_first ref (references after))
          (given_back ref (references after) s.released)
          (unref_loop Q fuel ref (head (addresses after)) s)
  unfolding unref_loop
  unref_loop-Leaves zero ref s before after small h = absurd (omega arith)
  unref_loop-Leaves (suc fuel) ref s before [] small h =
      (s, before ++ [], refl, h, references-append before [], refl)
  unref_loop-Leaves (suc fuel) ref s before ((a, r) ∷ after) small h =
      let (_, held) = All-append _ before ((a, r) ∷ after) h.allocated in
      elim (Bool-cases (eqb_ℤ ref r)) [
        | inl same ↦ (
          drop_item Q s a r,
          before ++ after,
          rw (held.0, unref_loop) (rw same refl),
          dropped s before a r after h,
          rw same (references-append before after),
          rw same refl,
        )
        | inr different ↦
            let step = append_assoc before ((a, r) ∷ []) after in
            let (s', ps', found, holds, left, out) =
              unref_loop-Leaves fuel ref s (before ++ (a, r) ∷ []) after (omega (arith, small))
                (rw step h) in
            (
              s',
              ps',
              rw (held.0, unref_loop)
                  (rw (different, next_behind s.links before a r after h.in_order h.distinct)
                    found),
              holds,
              rw different (
                  left
                  ∙ ap (λ rs. rs ++ erase_first ref (references after))
                      (references-append before ((a, r) ∷ []))
                  ∙ append_assoc (references before) (r ∷ []) (erase_first ref (references after))),
              rw different out,
            )
      ]

  pub head_of :
      (ps : List (ℕ × ℤ)) (s : RefList Q)
      → Holds Q D s ps
      → Q.list_first s.links ≡ head (addresses ps)
  head_of ps s h = D.list_first-nodes s.links ∙ ap head h.in_order

  -- Where the list holds distinct items that are allocated: with more rounds than items the call
  -- returns, the list that is left is the old one without the first occurrence of the reference, that
  -- occurrence alone is given back with luaL_unref, and the status is false, whether the reference was
  -- found or not.
  pub ref_list_unref-erase_first :
      (fuel : ℕ) (ref : ℤ) (s : RefList Q) (ps : List (ℕ × ℤ))
      → Holds Q D s ps
      → length ps < fuel
      → (s' : RefList Q) × (ps' : List (ℕ × ℤ)) × (ref_list_unref Q fuel true ref s
          ≡ ok (s', false))
        × Holds Q D s' ps'
        × (references ps' ≡ erase_first ref (references ps))
        × (s'.released ≡ given_back ref (references ps) s.released)
  unfolding ref_list_unref
  ref_list_unref-erase_first fuel ref s ps h small =
      let (s', ps', found, holds, left, out) = unref_loop-Leaves fuel ref s [] ps small h in
      (s', ps', rw (head_of ps s h, found) refl, holds, left, out)
