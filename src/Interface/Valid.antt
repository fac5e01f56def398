-- ===== src/Interface/Valid.antt =====
-- The descriptions that src/l2dbus_interface.c does not refuse.
use l2dbus.Alloc.{Memory, Pointer, str_dup, text_at, dbus_alloc, dbus_calloc}
use l2dbus.Base.{
  ℕ, zero, suc, ◌+◌, ◌≡◌, ◌≢◌, refl, arith, Bool, true, false, Bool-cases, inl, inr, Option, none,
  some, All, length, ◌==◌, ◌&&◌, Option-cases,
}
use l2dbus.Interface.Describe.{
  Arg, Item, Direction, parse_arg, parse_args, args_count, parse_item, parse_each, parse_items,
  direction, is_table,
}
use l2dbus.Interface.Outcome.{list_of}
use l2dbus.Lua.{Lua, Bytes}
use l2dbus.Match.Rule.{is_text_type}

module _ (L : Lua) (M : Memory) (validate : Bytes → Bool) (arg_size item_size : ℕ) where
  open L use {Value, lua_type, raw_get_i, raw_len, get_field, raises, to_string}
  open M use {Heap}

  -- A copy of the signature, where memory was there for it, is valid; the argument has a direction,
  -- which is out for a signal.
  abbrev pub IsSigned : Option Pointer → Type 0
  IsSigned none = Unit
  IsSigned (some p) = validate p.text ≡ true

  abbrev pub IsValidArg : (methods : Bool) → Arg → Type 0
  IsValidArg methods x =
      IsSigned x.signature
      × (x.xfer_dir ≢ Direction.unset)
      × (methods ≡ false → x.xfer_dir ≡ Direction.out_arg)

  abbrev pub IsValidItem : (methods : Bool) → Item → Type 0
  IsValidItem methods i = All (IsValidArg methods) i.arg_list

  str_dup-IsSigned : (s : Bytes) (h : Heap) → validate s ≡ true → IsSigned (str_dup M s h).1
  unfolding str_dup
  str_dup-IsSigned s h valid = by_place (dbus_alloc M (length s + 1) h).1
    where
      by_place : (p : Option ℕ) → IsSigned (text_at s p)
      by_place none = tt
      by_place (some p) = valid

  direction-set :
      (methods : Bool) (v : Value) (d : Direction)
      → direction L M validate arg_size item_size methods v ≡ some d
      → (d ≢ Direction.unset) × (methods ≡ false → d ≡ Direction.out_arg)
  unfolding direction
  direction-set false v d h =
      let same : Direction.out_arg ≡ d = cc in rw (← same) (λ e. cc, λ _. refl)
  direction-set true v d h = (λ e. ground arith, λ e. absurd (cc))

  -- No field of an argument that is not refused raises an error.
  arg-quiet :
      (methods : Bool) (v : Value) (h : Heap)
      → (parse_arg L M validate arg_size item_size methods v h).1.1 ≡ none
      → (raises v "name" ≡ false) × (raises v "sig" ≡ false) × ((methods && raises v "dir") ≡ false)
  unfolding parse_arg
  arg-quiet methods v h e = (ground arith, ground arith, ground arith)

  item-quiet :
      (methods : Bool) (v : Value) (h : Heap)
      → (parse_item L M validate arg_size item_size methods v h).1.1 ≡ none
      → (raises v "name" ≡ false) × (raises v "args" ≡ false)
  unfolding parse_item
  item-quiet methods v h e = (ground arith, ground arith)

  parse_arg-IsValidArg :
      (methods : Bool) (v : Value) (h : Heap)
      → (parse_arg L M validate arg_size item_size methods v h).1.1 ≡ none
      → IsValidArg methods (parse_arg L M validate arg_size item_size methods v h).1.0
  unfolding parse_arg
  parse_arg-IsValidArg methods v h e =
      let sig = get_field v "sig" in
      let (a, b, c) = arg-quiet methods v h e in
      elim (Bool-cases (is_table L v)) [
        | inr no_table ↦ absurd (cc (rw (no_table, parse_arg) at e))
        | inl table ↦ elim (Bool-cases (is_text_type (lua_type sig))) [
          | inr no_text ↦ absurd (cc (rw (table, a, b, no_text, parse_arg) at e))
          | inl text ↦ elim (Bool-cases (validate (to_string sig))) [
            | inr bad ↦ absurd (cc (rw (table, a, b, text, bad, parse_arg) at e))
            | inl good ↦ elim (Option-cases (direction L M validate arg_size item_size methods v)) [
              | inl bad ↦ absurd (cc (rw (table, a, b, text, good, c, bad, parse_arg) at e))
              | inr (d, set) ↦
                  let (is_set, is_out) = direction-set methods v d set in
                  rw (table, a, b, text, good, c, set)
                    (str_dup-IsSigned (to_string sig) _ good, is_set, is_out)
            ]
          ]
        ]
      ]

  parse_args-All :
      (methods : Bool) (left idx : ℕ) (v : Value) (h : Heap)
      → (parse_args L M validate arg_size item_size methods left idx v h).1.1 ≡ none
      → All
          (IsValidArg methods)
          (parse_args L M validate arg_size item_size methods left idx v h).1.0
  unfolding parse_args
  parse_args-All methods zero idx v h e = tt
  parse_args-All methods (suc left) idx v h e =
      let r = parse_arg L M validate arg_size item_size methods (raw_get_i v (idx + 1)) h in
      elim (Option-cases (r.1.1)) [
        | inr (why, failed) ↦ absurd (cc (rw (failed) at e))
        | inl fine ↦ rw (fine) (
          parse_arg-IsValidArg methods (raw_get_i v (idx + 1)) h fine,
          parse_args-All methods left (suc idx) v r.0 (rw (fine) at e),
        )
      ]

  parse_item-IsValidItem :
      (methods : Bool) (v : Value) (h : Heap)
      → (parse_item L M validate arg_size item_size methods v h).1.1 ≡ none
      → IsValidItem methods (parse_item L M validate arg_size item_size methods v h).1.0
  unfolding parse_item
  parse_item-IsValidItem methods v h e =
      let table = get_field v "args" in
      let n = args_count L M validate arg_size item_size table in
      let named = str_dup M (to_string (get_field v "name")) h in
      let place = dbus_calloc M n arg_size named.0 in
      let (a, b) = item-quiet methods v h e in
      elim (Bool-cases (is_table L v)) [
        | inr no_table ↦ absurd (cc (rw (no_table, parse_item) at e))
        | inl is ↦ elim (Bool-cases (is_text_type (lua_type (get_field v "name")))) [
          | inr no_name ↦ absurd (cc (rw (is, no_name, parse_item) at e))
          | inl text ↦ elim (Bool-cases (n == 0)) [
            | inl empty ↦ rw (is, a, text, b, empty) tt
            | inr filled ↦ elim (Option-cases place.1) [
              | inl no_place ↦ absurd (cc (rw (is, a, text, b, filled, no_place, parse_item) at e))
              | inr (p, there) ↦
                  rw (is, a, text, b, filled, there)
                    (parse_args-All methods n 0 table place.0
                      (rw (is, a, text, b, filled, there, parse_item) at e))
            ]
          ]
        ]
      ]

  -- The items that the loop reads are as many as it is to read.
  parse_each-All :
      (methods : Bool) (left idx : ℕ) (v : Value) (h : Heap)
      → (parse_each L M validate arg_size item_size methods left idx v h).1.1 ≡ none
      → (length (parse_each L M validate arg_size item_size methods left idx v h).1.0 ≡ left)
        × All
            (IsValidItem methods)
            (parse_each L M validate arg_size item_size methods left idx v h).1.0
  unfolding parse_each
  parse_each-All methods zero idx v h e = (refl, tt)
  parse_each-All methods (suc left) idx v h e =
      let r = parse_item L M validate arg_size item_size methods (raw_get_i v (idx + 1)) h in
      elim (Option-cases (r.1.1)) [
        | inr (why, failed) ↦ absurd (cc (rw failed at e))
        | inl fine ↦
            let (count, all) = parse_each-All methods left (suc idx) v r.0 (rw fine at e) in
            rw fine (
              omega (arith, count),
              (parse_item-IsValidItem methods (raw_get_i v (idx + 1)) h fine, all),
            )
      ]

  -- A list of methods or signals that is not refused: it is a table; the descriptions that are read are
  -- as many as the table is long; every argument in them has a direction, which is out for a signal,
  -- and a signature that libdbus finds valid, where there was memory for its copy.
  pub parse_items-IsValidItem :
      (methods : Bool) (v : Value) (h : Heap)
      → (parse_items L M validate arg_size item_size methods v h).1.1 ≡ none
      → (is_table L v ≡ true)
        × (length (list_of (parse_items L M validate arg_size item_size methods v h).1.0)
            ≡ raw_len v)
        × All
            (IsValidItem methods)
            (list_of (parse_items L M validate arg_size item_size methods v h).1.0)
  unfolding parse_items
  parse_items-IsValidItem methods v h e =
      let n = raw_len v in
      let place = dbus_calloc M n item_size h in
      elim (Bool-cases (is_table L v)) [
        | inr no_table ↦ absurd (cc (rw (no_table, parse_items) at e))
        | inl is ↦ elim (Bool-cases (n == 0)) [
          | inl empty ↦ rw (is, empty) (refl, ground (arith, empty), tt)
          | inr filled ↦ elim (Option-cases place.1) [
            | inl no_place ↦ absurd (cc (rw (is, filled, no_place, parse_items) at e))
            | inr (p, there) ↦
                let (count, all) =
                  parse_each-All methods n 0 v place.0 (rw (is, filled, there, parse_items) at e) in
                rw (is, filled, there) (refl, count, all)
          ]
        ]
      ]
