-- ===== src/Match/Filters.antt =====
-- The filters of a rule (src/l2dbus_match.c): what the loop that reads them leaves, and that the loop that
-- frees them finds its mark.
use l2dbus.Alloc.{Memory, MemoryLaws, one_of, address_of, dbus_free}
use l2dbus.Alloc.Owns.{Owns, Owns-str_dup, Owns-free}
use l2dbus.Base.{
  ℕ, zero, suc, ◌+◌, ◌≡◌, ◌∙◌, ap, refl, ◌>>=◌, true, false, Option, some, List, [], ◌∷◌, ◌⊎◌, inl,
  inr, Result, ok, Option-cases, arith, if◌then◌else◌,
}
use l2dbus.Base.Int.{ℤ, pos, leb_ℤ}
use l2dbus.Lua.{Lua}
use l2dbus.Match.Rule.{
  FilterArg, FilterArgType, Reason, max_arg_number, is_mark, filter_type, filter_item, add_item,
  filter_items, free_values,
}

-- A filter for one of the arguments 0 to 63.
abbrev pub IsFilter : FilterArg → Type 0
IsFilter item =
    (is_mark item.arg_type ≡ false)
    × (leb_ℤ (pos 0) item.arg_n ≡ true)
    × (leb_ℤ item.arg_n (pos max_arg_number) ≡ true)

-- At most `left` filters and a mark.
abbrev pub Marked : ℕ → List FilterArg → Type 0
Marked left [] = ⊥
Marked zero (item ∷ items) = is_mark item.arg_type ≡ true
Marked (suc left) (item ∷ items) =
    (is_mark item.arg_type ≡ true) ⊎ (IsFilter item × Marked left items)

-- The values before the mark.
abbrev pub of_values : List FilterArg → ℕ → ℕ
of_values [] a = 0
of_values (item ∷ items) a =
    let rest = of_values items a in
    if is_mark item.arg_type then 0 else one_of (address_of item.value) a + rest

abbrev of_outcome : Reason ⊎ FilterArg → ℕ → ℕ
of_outcome (inl reason) a = 0
of_outcome (inr item) a = one_of (address_of item.value) a

abbrev IsOutcome : Reason ⊎ FilterArg → Type 0
IsOutcome (inl reason) = Unit {0}
IsOutcome (inr item) = IsFilter item

module _ (L : Lua) (M : Memory) (laws : MemoryLaws M) (h₀ : M.Heap) where
  open L use {Value}
  open M use {Heap}

  filter_type-valid :
      (item : Value) (t : FilterArgType) → filter_type L M item ≡ some t → is_mark t ≡ false
  unfolding filter_type
  filter_type-valid item t e = ground arith

  filter_item-Owns :
      (to_arg_n : ℤ → ℤ) (item : Value) (h : Heap) (g : ℕ → ℕ)
      → Owns M h₀ h g
      → Owns M h₀
          (filter_item L M to_arg_n item h).0
          (λ a. of_outcome (filter_item L M to_arg_n item h).1 a + g a)
  unfolding filter_item
  filter_item-Owns to_arg_n item h g o a =
      ground (arith, o a, Owns-str_dup M laws h₀ (L.to_string (L.get_field item "value")) h g o a)

  filter_item-IsOutcome :
      (to_arg_n : ℤ → ℤ) (item : Value) (h : Heap) → IsOutcome (filter_item L M to_arg_n item h).1
  unfolding filter_item
  filter_item-IsOutcome to_arg_n item h = elim (Option-cases (filter_type L M item)) [
    | inl e ↦ ground (arith, e)
    | inr (t, e) ↦ ground (arith, e, filter_type-valid item t e)
  ]

  add_item-Owns :
      (r : Reason ⊎ FilterArg) (h : Heap) (rest : Heap × (List FilterArg × Option Reason))
      (g : ℕ → ℕ)
      → IsOutcome r
      → Owns M h₀ h (λ a. of_outcome r a + g a)
      → Owns M h₀ rest.0 (λ a. of_values rest.1.0 a + (of_outcome r a + g a))
      → Owns M h₀ (add_item L M r h rest).0 (λ a. of_values (add_item L M r h rest).1.0 a + g a)
  add_item-Owns (inl reason) h rest g i o o' a = o a
  add_item-Owns (inr item) h rest g i o o' a = rw i.0 (omega (arith, o' a))

  add_item-Marked :
      (r : Reason ⊎ FilterArg) (h : Heap) (left : ℕ)
      (rest : Heap × (List FilterArg × Option Reason))
      → IsOutcome r
      → Marked left rest.1.0
      → Marked (suc left) (add_item L M r h rest).1.0
  add_item-Marked (inl reason) h left rest i m = inl refl
  add_item-Marked (inr item) h left rest i m = inr (i, m)

  -- The items that the loop leaves own what it has allocated.
  pub filter_items-Owns :
      (to_arg_n : ℤ → ℤ) (left idx : ℕ) (array : Value) (h : Heap) (g : ℕ → ℕ)
      → Owns M h₀ h g
      → Owns M h₀
          (filter_items L M to_arg_n left idx array h).0
          (λ a. of_values (filter_items L M to_arg_n left idx array h).1.0 a + g a)
  unfolding filter_items
  filter_items-Owns to_arg_n zero idx array h g o a = ground (arith, o a)
  filter_items-Owns to_arg_n (suc left) idx array h g o a =
      let item = L.raw_get_i array (idx + 1) in
      let (h', r) = filter_item L M to_arg_n item h in
      let o' = filter_item-Owns to_arg_n item h g o in
      add_item-Owns r h' (filter_items L M to_arg_n left (suc idx) array h') g
        (filter_item-IsOutcome to_arg_n item h) o'
        (filter_items-Owns to_arg_n left (suc idx) array h' (λ b. of_outcome r b + g b) o') a

  pub filter_items-Marked :
      (to_arg_n : ℤ → ℤ) (left idx : ℕ) (array : Value) (h : Heap)
      → Marked left (filter_items L M to_arg_n left idx array h).1.0
  unfolding filter_items
  filter_items-Marked to_arg_n zero idx array h = refl
  filter_items-Marked to_arg_n (suc left) idx array h =
      let item = L.raw_get_i array (idx + 1) in
      let (h', r) = filter_item L M to_arg_n item h in
      add_item-Marked r h' left (filter_items L M to_arg_n left (suc idx) array h')
        (filter_item-IsOutcome to_arg_n item h)
        (filter_items-Marked to_arg_n left (suc idx) array h')

  -- A marked list of filters can be freed, whatever stands behind the mark.
  pub free_values-Owns :
      (left : ℕ) (items : List FilterArg) (h : Heap) (g : ℕ → ℕ)
      → Marked left items
      → Owns M h₀ h (λ a. of_values items a + g a)
      → (h' : Heap) × (free_values M left items h ≡ ok h') × Owns M h₀ h' g
  unfolding free_values
  free_values-Owns zero [] h g m o = elim m [ ]
  free_values-Owns (suc left) [] h g m o = elim m [ ]
  free_values-Owns zero (item ∷ items) h g m o = (h, refl, λ a. ground (arith, m, o a))
  free_values-Owns (suc left) (item ∷ items) h g (inl m) o = (h, rw m, λ a. ground (arith, m, o a))
  free_values-Owns (suc left) (item ∷ items) h g (inr (i, m)) o =
      let o' : Owns M h₀ h (λ a. one_of (address_of item.value) a + (of_values items a + g a)) =
        λ a. ground (arith, i.0, o a) in
      let (h1, e1, o1) =
        Owns-free M laws h₀ (address_of item.value) h (λ a. of_values items a + g a) o' in
      let (h2, e2, o2) = free_values-Owns left items h1 g m o1 in
      let next : Result Heap = dbus_free M (address_of item.value) h >>= free_values M left items in
      (
        h2,
        ap (λ b. if b then ok h else next) i.0 ∙ ap (λ r. r >>= free_values M left items) e1 ∙ e2,
        o2,
      )
