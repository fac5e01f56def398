-- ===== src/Match/Owns.antt =====
-- The memory that a match takes (src/l2dbus_match.c, src/l2dbus_alloc.c).
use Prim.Native.String.{String}
use l2dbus.Alloc.{Memory, MemoryLaws, one, one_of, address_of, dbus_calloc}
use l2dbus.Alloc.Owns.{Owns, Owns-alloc, Owns-str_dup, Owns-free}
use l2dbus.Base.{
  ℕ, zero, suc, [], ◌∷◌, ◌≤◌, ◌+◌, ◌*◌, ◌^◌, ◌%◌, ◌≡◌, refl, inl, inr, Option, none, some, List, ok,
  arith,
}
use l2dbus.Base.Int.{ℤ, pos}
use l2dbus.C.Words.{to_int32}
use l2dbus.Lua.{Lua}
use l2dbus.Match.Filters.{
  Marked, of_values, filter_items-Owns, filter_items-Marked, free_values-Owns,
}
use l2dbus.Match.Rule.{
  FilterArg, MatchRule, max_arg_number, filter_count, filter_items, string_field, filter_args_field,
  parse_rule, free_filter_args, match_free_rule,
}

-- The blocks of a rule.
abbrev pub of_filters : Option (ℕ × List FilterArg) → ℕ → ℕ
of_filters none a = 0
of_filters (some (p, items)) a = of_values items a + one p a

abbrev pub of_rule : MatchRule → ℕ → ℕ
of_rule rule a =
    one_of (address_of rule.member) a
    + (one_of (address_of rule.obj_interface) a
        + (one_of (address_of rule.sender) a
            + (one_of (address_of rule.path) a
                + (one_of (address_of rule.arg0_namespace) a + of_filters rule.filter_args a))))

abbrev pub IsFreeable : Option (ℕ × List FilterArg) → Type 0
IsFreeable none = Unit {0}
IsFreeable (some (p, items)) = Marked (max_arg_number + 1) items

Marked-le : (m n : ℕ) (items : List FilterArg) → m ≤ n → Marked m items → Marked n items
Marked-le m n [] le h = h
Marked-le zero zero (item ∷ items) le h = h
Marked-le zero (suc n) (item ∷ items) le h = inl h
Marked-le (suc m) zero (item ∷ items) le h = absurd (omega arith)
Marked-le (suc m) (suc n) (item ∷ items) le (inl h) = inl h
Marked-le (suc m) (suc n) (item ∷ items) le (inr (i, h)) =
    inr (i, Marked-le m n items (omega arith) h)

module _ (L : Lua) (M : Memory) (laws : MemoryLaws M) (h₀ : M.Heap) where
  open L use {Value}
  open M use {Heap}

  pub string_field-Owns :
      (table : Value) (name : String) (h : Heap) (g : ℕ → ℕ)
      → Owns M h₀ h g
      → Owns M h₀
          (string_field L M table name h).0
          (λ a. one_of (address_of (string_field L M table name h).1) a + g a)
  unfolding string_field
  string_field-Owns table name h g o a =
      ground (arith, o a, Owns-str_dup M laws h₀ (L.to_string (L.get_field table name)) h g o a)

  filter_args_field-Owns :
      (to_arg_n : ℤ → ℤ) (size : ℕ) (array : Value) (h : Heap) (g : ℕ → ℕ)
      → Owns M h₀ h g
      → Owns M h₀
          (filter_args_field L M to_arg_n size array h).0
          (λ a. of_filters (filter_args_field L M to_arg_n size array h).1.0 a + g a)
  unfolding filter_args_field dbus_calloc
  filter_args_field-Owns to_arg_n size array h g o a =
      let n = filter_count (to_int32 (pos (L.raw_len array))) in
      let h' = (dbus_calloc M (n + 1) size h).0 in
      let g' : ℕ → ℕ = λ b. one_of (dbus_calloc M (n + 1) size h).1 b + g b in
      let o' : Owns M h₀ h' g' = Owns-alloc M laws h₀ ((n + 1) * size % 2 ^ 64) h g o in
      ground (arith, o a, o' a, filter_items-Owns L M laws h₀ to_arg_n n 0 array h' g' o' a)

  filter_args_field-IsFreeable :
      (to_arg_n : ℤ → ℤ) (size : ℕ) (array : Value) (h : Heap)
      → IsFreeable (filter_args_field L M to_arg_n size array h).1.0
  unfolding filter_args_field
  filter_args_field-IsFreeable to_arg_n size array h =
      let n = filter_count (to_int32 (pos (L.raw_len array))) in
      let h' = (dbus_calloc M (n + 1) size h).0 in
      let marked : Marked (max_arg_number + 1) (filter_items L M to_arg_n n 0 array h').1.0 =
        Marked-le n (max_arg_number + 1) _ (count_le (to_int32 (pos (L.raw_len array))))
          (filter_items-Marked L M laws h₀ to_arg_n n 0 array h') in
      ground (arith, marked)
    where
      count_le : (z : ℤ) → filter_count z ≤ max_arg_number + 1
      count_le z = ground arith

  pub parse_rule-Owns :
      (to_arg_n : ℤ → ℤ) (size : ℕ) (table : Value) (h : Heap)
      → Owns M h₀ h (λ a. 0)
      → Owns M h₀
          (parse_rule L M to_arg_n size table h).0
          (of_rule (parse_rule L M to_arg_n size table h).1.0)
  unfolding parse_rule
  parse_rule-Owns to_arg_n size table h o a =
      let o1 = string_field-Owns table "member" h (λ b. 0) o in
      let o2 = string_field-Owns table "interface" _ _ o1 in
      let o3 = string_field-Owns table "sender" _ _ o2 in
      let o4 = string_field-Owns table "path" _ _ o3 in
      let o5 = string_field-Owns table "arg0Namespace" _ _ o4 in
      let o6 = filter_args_field-Owns to_arg_n size (L.get_field table "filterArgs") _ _ o5 in
      omega (arith, o6 a)

  -- A rule that is read, also one whose reading fails, has no array of filters, or one of at most 64 filters,
  -- each for an argument from 0 to 63, and then the mark that the freeing of the rule looks for.
  pub parse_rule-IsFreeable :
      (to_arg_n : ℤ → ℤ) (size : ℕ) (table : Value) (h : Heap)
      → IsFreeable (parse_rule L M to_arg_n size table h).1.0.filter_args
  unfolding parse_rule
  parse_rule-IsFreeable to_arg_n size table h =
      filter_args_field-IsFreeable to_arg_n size (L.get_field table "filterArgs") _

module _ (L : Lua) (M : Memory) (laws : MemoryLaws M) (h₀ : M.Heap) where
  open M use {Heap}

  free_filter_args-Owns :
      (filters : Option (ℕ × List FilterArg)) (h : Heap) (g : ℕ → ℕ)
      → IsFreeable filters
      → Owns M h₀ h (λ a. of_filters filters a + g a)
      → (h' : Heap) × (free_filter_args M filters h ≡ ok h') × Owns M h₀ h' g
  unfolding free_filter_args
  free_filter_args-Owns none h g i o = (h, refl, λ a. omega (arith, o a))
  free_filter_args-Owns (some (p, items)) h g i o =
      let (h1, e1, o1) =
        free_values-Owns L M laws h₀ (max_arg_number + 1) items h (λ a. one_of (some p) a + g a) i
          (λ a. omega (arith, o a)) in
      let (h2, e2, o2) = Owns-free M laws h₀ (some p) h1 g o1 in (h2, rw e1 e2, o2)

  -- A rule that is read can be freed, and all its memory with it.
  pub match_free_rule-Owns :
      (rule : MatchRule) (h : Heap) (g : ℕ → ℕ)
      → IsFreeable rule.filter_args
      → Owns M h₀ h (λ a. of_rule rule a + g a)
      → (h' : Heap) × (match_free_rule M rule h ≡ ok h') × Owns M h₀ h' g
  unfolding match_free_rule
  match_free_rule-Owns rule h g i o =
      let member = address_of rule.member in
      let interface = address_of rule.obj_interface in
      let sender = address_of rule.sender in
      let path = address_of rule.path in
      let namespace = address_of rule.arg0_namespace in
      let g5 : ℕ → ℕ = λ a. of_filters rule.filter_args a + g a in
      let g4 : ℕ → ℕ = λ a. one_of namespace a + g5 a in
      let g3 : ℕ → ℕ = λ a. one_of path a + g4 a in
      let g2 : ℕ → ℕ = λ a. one_of sender a + g3 a in
      let g1 : ℕ → ℕ = λ a. one_of interface a + g2 a in
      let (h1, e1, o1) = Owns-free M laws h₀ member h g1 (λ a. omega (arith, o a)) in
      let (h2, e2, o2) = Owns-free M laws h₀ interface h1 g2 o1 in
      let (h3, e3, o3) = Owns-free M laws h₀ sender h2 g3 o2 in
      let (h4, e4, o4) = Owns-free M laws h₀ path h3 g4 o3 in
      let (h5, e5, o5) = Owns-free M laws h₀ namespace h4 g5 o4 in
      let (h6, e6, o6) = free_filter_args-Owns rule.filter_args h5 g i o5 in
      (h6, rw (e1, e2, e3, e4, e5) e6, o6)
