-- ===== src/Transcode/Unmarshall/Sequence.antt =====
-- The tables that hold a list: what the functions on tables of src/l2dbus_transcode.c do to them.
use l2dbus.Base.{
  ℕ, zero, suc, ◌+◌, ◌<◌, ◌≡◌, ap, ◌∙◌, refl, arith, true, false, List, [], ◌∷◌, ◌++◌, append-nil,
  append_assoc, length, length-append, All,
}
use l2dbus.Transcode.Unmarshall.{
  Term, Fields, same_key, raw_set, raw_get, index, Array, empty_array, push, is_nil, fields_count,
  border, elements_from,
}

-- The elements from `i` on.
unfoldable pub sequence : ℕ → List Term → Fields
sequence i [] = Fields.empty
sequence i (t ∷ ts) = Fields.field (index i) t (sequence (i + 1) ts)

unfoldable pub push_all : List Term → Array → Array
push_all [] a = a
push_all (t ∷ ts) a = push_all ts (push t a)

later_index : (i j : ℕ) → i < j → same_key (index i) (index j) ≡ false
later_index i j h = ground arith

own_index : (i : ℕ) → same_key (index i) (index i) ≡ true
own_index i = ground arith

raw_set-sequence :
    (i j : ℕ) (ts : List Term) (v : Term)
    → j ≡ i + length ts
    → raw_set (sequence i ts) (index j) v ≡ sequence i (ts ++ v ∷ [])
unfolding raw_set sequence
raw_set-sequence i j [] v h = let same : j ≡ i = omega (arith, h) in rw same refl
raw_set-sequence i j (t ∷ ts) v h =
    rw (later_index i j (omega (arith, h)), raw_set-sequence (i + 1) j ts v (omega (arith, h))) refl

push-sequence :
    (us : List Term) (t : Term)
    → push t (sequence 1 us, 1 + length us) ≡ (sequence 1 (us ++ t ∷ []), 1 + length (us ++ t ∷ []))
unfolding push
push-sequence us t =
    let more : 1 + length us + 1 ≡ 1 + length (us ++ t ∷ []) =
      omega (arith, length-append us (t ∷ [])) in
    ap (λ fs. (fs, 1 + length us + 1)) (raw_set-sequence 1 (1 + length us) us t refl)
    ∙ ap (λ i. (sequence 1 (us ++ t ∷ []), i)) more

push_all-append :
    (us ts : List Term) → (push_all ts (sequence 1 us, 1 + length us)).0 ≡ sequence 1 (us ++ ts)
unfolding push_all
push_all-append us [] = rw (append-nil us) refl
push_all-append us (t ∷ ts) =
    ap (λ a. (push_all ts a).0) (push-sequence us t)
    ∙ push_all-append (us ++ t ∷ []) ts
    ∙ ap (sequence 1) (append_assoc us (t ∷ []) ts)

pub push_all-sequence : (ts : List Term) → (push_all ts empty_array).0 ≡ sequence 1 ts
unfolding sequence
push_all-sequence ts = push_all-append [] ts

module _ (i : ℕ) (t : Term) (fs : Fields) where
  raw_get-later :
      (j : ℕ) → i < j → raw_get (Fields.field (index i) t fs) (index j) ≡ raw_get fs (index j)
  unfolding raw_get
  raw_get-later j h = rw (later_index i j h) refl

  elements_from-later :
      (count j : ℕ)
      → i < j
      → elements_from count (Fields.field (index i) t fs) j ≡ elements_from count fs j
  unfolding elements_from
  elements_from-later zero j h = refl
  elements_from-later (suc count) j h =
      rw (raw_get-later j h, elements_from-later count (j + 1) (omega (arith, h))) refl

  border-later :
      (bound j : ℕ) → i < j → border bound (Fields.field (index i) t fs) j ≡ border bound fs j
  unfolding border
  border-later zero j h = refl
  border-later (suc bound) j h =
      rw (raw_get-later j h, border-later bound (j + 1) (omega (arith, h))) refl

  raw_get-own : raw_get (Fields.field (index i) t fs) (index i) ≡ t
  unfolding raw_get
  raw_get-own = rw (own_index i) refl

pub elements_from-sequence :
    (i : ℕ) (ts : List Term) → elements_from (length ts) (sequence i ts) i ≡ ts
unfolding elements_from sequence
elements_from-sequence i [] = refl
elements_from-sequence i (t ∷ ts) =
    rw
      (
        raw_get-own i t (sequence (i + 1) ts),
        elements_from-later i t (sequence (i + 1) ts) (length ts) (i + 1) (omega arith),
        elements_from-sequence (i + 1) ts,
      )
      refl

pub fields_count-sequence : (i : ℕ) (ts : List Term) → fields_count (sequence i ts) ≡ length ts
unfolding sequence
fields_count-sequence i [] = refl
fields_count-sequence i (t ∷ ts) = rw (fields_count-sequence (i + 1) ts) refl

pub border-sequence :
    (i : ℕ) (ts : List Term)
    → All (λ t. is_nil t ≡ false) ts
    → border (length ts) (sequence i ts) i ≡ length ts
unfolding border sequence
border-sequence i [] h = refl
border-sequence i (t ∷ ts) (some_t, h) =
    rw
      (
        raw_get-own i t (sequence (i + 1) ts),
        some_t,
        border-later i t (sequence (i + 1) ts) (length ts) (i + 1) (omega arith),
        border-sequence (i + 1) ts h,
      )
      (omega arith)
