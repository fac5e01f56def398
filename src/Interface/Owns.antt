-- ===== src/Interface/Owns.antt =====
-- The memory that the descriptions of src/l2dbus_interface.c take, and that it is given back.
use l2dbus.Alloc.{Memory, MemoryLaws, one_of, address_of, dbus_calloc}
use l2dbus.Alloc.Owns.{Owns, Owns-alloc, Owns-str_dup, Owns-free}
use l2dbus.Base.{
  ℕ, zero, suc, ◌+◌, ◌*◌, ◌^◌, ◌%◌, ◌≡◌, refl, Bool, Option, none, some, List, [], ◌∷◌, ok, arith,
}
use l2dbus.Interface.Describe.{
  Arg, Item, zero_arg, zero_item, replicate, parse_arg, parse_args, args_count, parse_item,
  parse_each, parse_items, destroy_arg, destroy_args, destroy_item, destroy_each, destroy_items,
}
use l2dbus.Lua.{Lua, Bytes}
use l2dbus.Match.Owns.{string_field-Owns}

-- The blocks of a description.
abbrev pub of_arg : Arg → ℕ → ℕ
of_arg x a = one_of (address_of x.name) a + one_of (address_of x.signature) a

abbrev pub of_args : List Arg → ℕ → ℕ
of_args [] a = 0
of_args (x ∷ xs) a = of_arg x a + of_args xs a

abbrev pub of_item : Item → ℕ → ℕ
of_item i a = one_of (address_of i.name) a + (of_args i.arg_list a + one_of i.args a)

abbrev pub of_each : List Item → ℕ → ℕ
of_each [] a = 0
of_each (i ∷ is) a = of_item i a + of_each is a

abbrev pub of_items : Option (ℕ × List Item) → ℕ → ℕ
of_items none a = 0
of_items (some (p, items)) a = of_each items a + one_of (some p) a

of_args-zeros : (n a : ℕ) → of_args (replicate n zero_arg) a ≡ 0
of_args-zeros zero a = refl
of_args-zeros (suc n) a = omega (arith, of_args-zeros n a)

of_each-zeros : (n a : ℕ) → of_each (replicate n zero_item) a ≡ 0
of_each-zeros zero a = refl
of_each-zeros (suc n) a = omega (arith, of_each-zeros n a)

module _ (L : Lua) (M : Memory) (laws : MemoryLaws M) (h₀ : M.Heap) (validate : Bytes → Bool)
    (arg_size item_size : ℕ) where
  open L use {Value, raw_get_i, raw_len, get_field, to_string}
  open M use {Heap}

  parse_arg-Owns :
      (methods : Bool) (v : Value) (h : Heap) (g : ℕ → ℕ)
      → Owns M h₀ h g
      → Owns M h₀
          (parse_arg L M validate arg_size item_size methods v h).0
          (λ a. of_arg (parse_arg L M validate arg_size item_size methods v h).1.0 a + g a)
  unfolding parse_arg
  parse_arg-Owns methods v h g o a =
      let o1 = string_field-Owns L M laws h₀ v "name" h g o in
      let o2 = Owns-str_dup M laws h₀ (to_string (get_field v "sig")) _ _ o1 in
      ground (arith, o a, o1 a, o2 a)

  parse_args-Owns :
      (methods : Bool) (left idx : ℕ) (v : Value) (h : Heap) (g : ℕ → ℕ)
      → Owns M h₀ h g
      → Owns M h₀ (parse_args L M validate arg_size item_size methods left idx v h).0 (λ a.
        of_args (parse_args L M validate arg_size item_size methods left idx v h).1.0 a + g a)
  unfolding parse_args
  parse_args-Owns methods zero idx v h g o a = omega (arith, o a)
  parse_args-Owns methods (suc left) idx v h g o a =
      let o1 = parse_arg-Owns methods (raw_get_i v (idx + 1)) h g o in
      let o2 = parse_args-Owns methods left (suc idx) v _ _ o1 in
      ground (arith, o1 a, o2 a, of_args-zeros left a)

  parse_item-Owns :
      (methods : Bool) (v : Value) (h : Heap) (g : ℕ → ℕ)
      → Owns M h₀ h g
      → Owns M h₀
          (parse_item L M validate arg_size item_size methods v h).0
          (λ a. of_item (parse_item L M validate arg_size item_size methods v h).1.0 a + g a)
  unfolding parse_item dbus_calloc
  parse_item-Owns methods v h g o a =
      let n = args_count L M validate arg_size item_size (get_field v "args") in
      let o1 = Owns-str_dup M laws h₀ (to_string (get_field v "name")) h g o in
      let o2 = Owns-alloc M laws h₀ (n * arg_size % 2 ^ 64) _ _ o1 in
      let o3 = parse_args-Owns methods n 0 (get_field v "args") _ _ o2 in
      ground (arith, o a, o1 a, o2 a, o3 a)

  parse_each-Owns :
      (methods : Bool) (left idx : ℕ) (v : Value) (h : Heap) (g : ℕ → ℕ)
      → Owns M h₀ h g
      → Owns M h₀ (parse_each L M validate arg_size item_size methods left idx v h).0 (λ a.
        of_each (parse_each L M validate arg_size item_size methods left idx v h).1.0 a + g a)
  unfolding parse_each
  parse_each-Owns methods zero idx v h g o a = omega (arith, o a)
  parse_each-Owns methods (suc left) idx v h g o a =
      let o1 = parse_item-Owns methods (raw_get_i v (idx + 1)) h g o in
      let o2 = parse_each-Owns methods left (suc idx) v _ _ o1 in
      ground (arith, o1 a, o2 a, of_each-zeros left a)

  pub parse_items-Owns :
      (methods : Bool) (v : Value) (h : Heap) (g : ℕ → ℕ)
      → Owns M h₀ h g
      → Owns M h₀
          (parse_items L M validate arg_size item_size methods v h).0
          (λ a. of_items (parse_items L M validate arg_size item_size methods v h).1.0 a + g a)
  unfolding parse_items dbus_calloc
  parse_items-Owns methods v h g o a =
      let n = raw_len v in
      let o1 = Owns-alloc M laws h₀ (n * item_size % 2 ^ 64) h g o in
      let o2 = parse_each-Owns methods n 0 v _ _ o1 in ground (arith, o a, o1 a, o2 a)

module _ (M : Memory) (laws : MemoryLaws M) (h₀ : M.Heap) where
  open M use {Heap}

  destroy_arg-Owns :
      (x : Arg) (h : Heap) (g : ℕ → ℕ)
      → Owns M h₀ h (λ a. of_arg x a + g a)
      → (h' : Heap) × (destroy_arg M x h ≡ ok h') × Owns M h₀ h' g
  unfolding destroy_arg
  destroy_arg-Owns x h g o =
      let g1 : ℕ → ℕ = λ a. one_of (address_of x.signature) a + g a in
      let (h1, e1, o1) = Owns-free M laws h₀ (address_of x.name) h g1 (λ a. omega (arith, o a)) in
      let (h2, e2, o2) = Owns-free M laws h₀ (address_of x.signature) h1 g o1 in (h2, rw e1 e2, o2)

  destroy_args-Owns :
      (xs : List Arg) (h : Heap) (g : ℕ → ℕ)
      → Owns M h₀ h (λ a. of_args xs a + g a)
      → (h' : Heap) × (destroy_args M xs h ≡ ok h') × Owns M h₀ h' g
  unfolding destroy_args
  destroy_args-Owns [] h g o = (h, refl, λ a. omega (arith, o a))
  destroy_args-Owns (x ∷ xs) h g o =
      let (h1, e1, o1) = destroy_arg-Owns x h (λ a. of_args xs a + g a) (λ a. omega (arith, o a)) in
      let (h2, e2, o2) = destroy_args-Owns xs h1 g o1 in (h2, rw e1 e2, o2)

  destroy_item-Owns :
      (i : Item) (h : Heap) (g : ℕ → ℕ)
      → Owns M h₀ h (λ a. of_item i a + g a)
      → (h' : Heap) × (destroy_item M i h ≡ ok h') × Owns M h₀ h' g
  unfolding destroy_item
  destroy_item-Owns i h g o =
      let g2 : ℕ → ℕ = λ a. one_of i.args a + g a in
      let g1 : ℕ → ℕ = λ a. of_args i.arg_list a + g2 a in
      let (h1, e1, o1) = Owns-free M laws h₀ (address_of i.name) h g1 (λ a. omega (arith, o a)) in
      let (h2, e2, o2) = destroy_args-Owns i.arg_list h1 g2 o1 in
      let (h3, e3, o3) = Owns-free M laws h₀ i.args h2 g o2 in (h3, rw (e1, e2) e3, o3)

  destroy_each-Owns :
      (is : List Item) (h : Heap) (g : ℕ → ℕ)
      → Owns M h₀ h (λ a. of_each is a + g a)
      → (h' : Heap) × (destroy_each M is h ≡ ok h') × Owns M h₀ h' g
  unfolding destroy_each
  destroy_each-Owns [] h g o = (h, refl, λ a. omega (arith, o a))
  destroy_each-Owns (i ∷ is) h g o =
      let (h1, e1, o1) =
        destroy_item-Owns i h (λ a. of_each is a + g a) (λ a. omega (arith, o a)) in
      let (h2, e2, o2) = destroy_each-Owns is h1 g o1 in (h2, rw e1 e2, o2)

  pub destroy_items-Owns :
      (items : Option (ℕ × List Item)) (h : Heap) (g : ℕ → ℕ)
      → Owns M h₀ h (λ a. of_items items a + g a)
      → (h' : Heap) × (destroy_items M items h ≡ ok h') × Owns M h₀ h' g
  unfolding destroy_items
  destroy_items-Owns none h g o = (h, refl, λ a. omega (arith, o a))
  destroy_items-Owns (some (p, is)) h g o =
      let (h1, e1, o1) =
        destroy_each-Owns is h (λ a. one_of (some p) a + g a) (λ a. omega (arith, o a)) in
      let (h2, e2, o2) = Owns-free M laws h₀ (some p) h1 g o1 in (h2, rw e1 e2, o2)
