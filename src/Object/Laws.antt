-- ===== src/Object/Laws.antt =====
-- What the registry of src/l2dbus_object.c finds.
use l2dbus.Base.{ℕ, ◌≡◌, refl, arith, none, some, List, [], ◌∷◌, ◌==◌, if◌then◌else◌, ok}
use l2dbus.Object.{
  Registry, find, drop, object_registry_add, object_registry_get, object_registry_remove,
}

module _ {V : Type 0} where
  pub find-drop :
      (k key : ℕ) (es : List (ℕ × V))
      → find k (drop key es) ≡ (if key == k then none else find k es)
  find-drop k key [] = ground arith
  find-drop k key ((j, v) ∷ es) = ground (arith, find-drop k key es)

  -- A registry that is set up finds a userdata under its address from the time it is added until it is
  -- removed, and neither call changes what other addresses find.
  pub object_registry_get-add-remove :
      (es : List (ℕ × V)) (key k : ℕ) (v : V)
      → (reg : Registry V) × (reg' : Registry V) × (object_registry_add key v (some es) ≡ ok reg)
        × (object_registry_get k reg
            ≡ (if key == k then ok (some v) else object_registry_get k (some es)))
        × (object_registry_remove key reg ≡ ok reg')
        × (object_registry_get k reg'
            ≡ (if key == k then ok none else object_registry_get k (some es)))
  unfolding object_registry_add object_registry_get object_registry_remove
  object_registry_get-add-remove es key k v = (
    some ((key, v) ∷ drop key es),
    some (drop key ((key, v) ∷ drop key es)),
    refl,
    ground (arith, find-drop k key es),
    refl,
    ground (arith, find-drop k key ((key, v) ∷ drop key es), find-drop k key es),
  )
