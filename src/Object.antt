-- ===== src/Object.antt =====
-- src/l2dbus_object.c: the registry of userdata by address, a table with weak values, and the creation of
-- userdata.
pub mod Laws
use Prim.Native.String.{String}
use l2dbus.Base.{
  ℕ, Option, none, some, Bool, List, [], ◌∷◌, ◌==◌, if◌then◌else◌, ◌+◌, suc, zero, Result, ok,
  lua_error, undefined, Error, Fault, length,
}
use l2dbus.Types.{TypeId, get_name_by_type_id}

-- The table, `none` before it is created. A value that is collected loses its entry.
abbrev pub Registry : Type 0 → Type 0
Registry V = Option (List (ℕ × V))

module _ {V : Type 0} where
  abbrev pub find : ℕ → List (ℕ × V) → Option V
  find key [] = none
  find key ((k, v) ∷ es) = if k == key then some v else find key es

  abbrev pub drop : ℕ → List (ℕ × V) → List (ℕ × V)
  drop key [] = []
  drop key ((k, v) ∷ es) = let rest = drop key es in if k == key then rest else (k, v) ∷ rest

  -- A new table replaces one that is there.
  unfoldable pub object_registry_new : Registry V → Registry V
  object_registry_new reg = some []

  unfoldable pub object_registry_count : Registry V → Result ℕ
  object_registry_count none = lua_error Error.not_initialized
  object_registry_count (some es) = ok (length es)

  unfoldable pub object_registry_add : ℕ → V → Registry V → Result (Registry V)
  object_registry_add key v none = lua_error Error.not_initialized
  object_registry_add key v (some es) = ok (some ((key, v) ∷ drop key es))

  -- The userdata of an address, if it has not been collected.
  unfoldable pub object_registry_get : ℕ → Registry V → Result (Option V)
  object_registry_get key none = lua_error Error.not_initialized
  object_registry_get key (some es) = ok (find key es)

  unfoldable pub object_registry_remove : ℕ → Registry V → Result (Registry V)
  object_registry_remove key none = lua_error Error.not_initialized
  object_registry_remove key (some es) = ok (some (drop key es))

-- The name of the metatable that new userdata of a type gets. The memory is cleared.
unfoldable pub object_new : TypeId → Result String
object_new type_id = elim (get_name_by_type_id type_id) [
  | none ↦ undefined Fault.null_pointer
  | some name ↦ ok name
]
