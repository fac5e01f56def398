-- ===== src/Interface/Outcome.antt =====
-- What the registrations of src/l2dbus_interface.c do to memory and to libcdbus: the descriptions are read,
-- registered where they are valid, and freed.
use l2dbus.Alloc.{Memory}
use l2dbus.Base.{
  ℕ, Bool, true, false, Option, none, some, List, [], ◌==◌, Result, ok, ◌>>=◌, if◌then◌else◌,
}
use l2dbus.Interface.{Interfaces, Outside}
use l2dbus.Interface.Describe.{Refusal, was_raised, parse_items, destroy_items}
use l2dbus.Interface.Properties.{parse_properties, destroy_properties}
use l2dbus.Lua.{Lua}
use l2dbus.Lua.Refs.{Refs}

abbrev pub list_of {ℓ} : {A : Type ℓ} → Option (ℕ × List A) → List A
list_of none = []
list_of (some (p, xs)) = xs

module _ (L : Lua) (R : Refs L.Value) (M : Memory) (C : Interfaces) where
  open L use {Value, raw_len}

  abbrev pub Described : Type 0
  Described = Outside L R M C × Option Refusal

  -- Descriptions that are refused are not registered. What stays, once they are freed.
  abbrev pub settled : Option Refusal → Bool → M.Heap → (before after : C.World) → Described
  settled (some why) registered heap before after = (record { heap = heap; bus = before }, some why)
  settled none true heap before after = (record { heap = heap; bus = after }, none)
  settled none false heap before after =
      (record { heap = heap; bus = after }, some Refusal.not_registered)

  -- An error that a metamethod raises leaves the function at once, and what was allocated stays.
  unfoldable pub describe_items :
      (is_method : Bool) → (h : ℕ) → Value → Outside L R M C → Result Described
  describe_items is_method h v o = do
    let (heap, (items, failed)) =
        parse_items L M C.signature_validate C.arg_size C.item_size is_method v o.heap
    let (w, registered) = C.register_items o.bus h is_method (list_of items)
    if was_raised failed
        then ok (record { heap = heap; bus = o.bus }, failed)
        else (do heap' ← destroy_items M items heap; ok (settled failed registered heap' o.bus w))

  -- No properties at all are not registered either, and no error is raised.
  unfoldable pub describe_properties : ℕ → Value → Outside L R M C → Result Described
  describe_properties h v o = if raw_len v == 0 then ok (o, none) else (do
    (heap, (ps, failed)) ← parse_properties L M C.signature_validate C.property_size v o.heap
    let (w, registered) = C.register_properties o.bus h (list_of ps)
    if was_raised failed then ok (record { heap = heap; bus = o.bus }, failed) else (do
      heap' ← destroy_properties M ps heap
      ok (settled failed registered heap' o.bus w)))
