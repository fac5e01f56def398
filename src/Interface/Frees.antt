-- ===== src/Interface/Frees.antt =====
-- The registrations of src/l2dbus_interface.c give back all the memory that they take.
use l2dbus.Alloc.{Memory, MemoryLaws, count_live}
use l2dbus.Base.{ℕ, ◌≡◌, refl, arith, Bool, false, Option, none, some, ok}
use l2dbus.Interface.{Interfaces, Outside}
use l2dbus.Interface.Describe.{parse_items, was_raised}
use l2dbus.Interface.Outcome.{Described, settled, list_of, describe_items}
use l2dbus.Interface.Owns.{parse_items-Owns, destroy_items-Owns}
use l2dbus.Lua.{Lua}
use l2dbus.Lua.Refs.{Refs}

module _ (L : Lua) (R : Refs L.Value) (M : Memory) (laws : MemoryLaws M) (C : Interfaces) where
  open L use {Value}

  -- The same blocks are allocated.
  abbrev pub SameBlocks : (h h' : M.Heap) → Type 0
  SameBlocks h h' = (a : ℕ) → count_live (M.live h' a) ≡ count_live (M.live h a)

  settled-heap :
      (failed : Option _) (registered : Bool) (heap : M.Heap) (before after : C.World)
      → (settled L R M C failed registered heap before after).0.heap ≡ heap
  settled-heap (some why) registered heap before after = refl
  settled-heap none Bool.true heap before after = refl
  settled-heap none Bool.false heap before after = refl

  -- Where memory behaves as documented and no metamethod raises an error while the descriptions are read,
  -- whatever else they are, wherever their reading stops and whether libcdbus registers them: the registration of methods or of signals ends without undefined
  -- behaviour, and leaves allocated what was allocated before, and nothing else.
  pub describe_items-SameBlocks :
      (is_method : Bool) (h : ℕ) (v : Value) (o : Outside L R M C)
      → was_raised
          (parse_items L M C.signature_validate C.arg_size C.item_size is_method v o.heap).1.1
        ≡ false
      → (d : Described L R M C) × (describe_items L R M C is_method h v o ≡ ok d)
        × SameBlocks o.heap d.0.heap
  unfolding describe_items
  describe_items-SameBlocks is_method h v o quiet =
      let parsed = parse_items L M C.signature_validate C.arg_size C.item_size is_method v o.heap in
      let owned =
        parse_items-Owns L M laws o.heap C.signature_validate C.arg_size C.item_size is_method v
          o.heap (λ a. 0) (λ a. omega arith) in
      let (heap, freed, left) =
        destroy_items-Owns M laws o.heap parsed.1.0 parsed.0 (λ a. 0) owned in
      let registered = C.register_items o.bus h is_method (list_of parsed.1.0) in
      (
        settled L R M C parsed.1.1 registered.1 heap o.bus registered.0,
        rw (quiet, describe_items) (rw freed refl),
        λ a.
            rw (settled-heap parsed.1.1 registered.1 heap o.bus registered.0)
              (omega (arith, left a)),
      )
