-- ===== src/Dbus.antt =====
-- The D-Bus type codes, as the D-Bus specification numbers them, and their signature letters.
use l2dbus.Base.{ℕ, Bool, Option, none, some, List, [], ◌∷◌, ◌==◌, if◌then◌else◌, ◌≡◌, refl}
use l2dbus.Base.Int.{ℤ, pos, negsuc}

-- `DBUS_TYPE_*`.
pub data DbusType : Type 0 where
  invalid byte boolean int16 uint16 int32 uint32 int64 uint64 double : DbusType
  string object_path signature array struct variant dict_entry unix_fd : DbusType

abbrev pub code : DbusType → ℕ
code DbusType.invalid = 0
code DbusType.byte = b'y'
code DbusType.boolean = b'b'
code DbusType.int16 = b'n'
code DbusType.uint16 = b'q'
code DbusType.int32 = b'i'
code DbusType.uint32 = b'u'
code DbusType.int64 = b'x'
code DbusType.uint64 = b't'
code DbusType.double = b'd'
code DbusType.string = b's'
code DbusType.object_path = b'o'
code DbusType.signature = b'g'
code DbusType.array = b'a'
code DbusType.struct = b'r'
code DbusType.variant = b'v'
code DbusType.dict_entry = b'e'
code DbusType.unix_fd = b'h'

abbrev pub dbus_types : List DbusType
dbus_types =
    DbusType.invalid ∷ DbusType.byte ∷ DbusType.boolean ∷ DbusType.int16 ∷ DbusType.uint16
    ∷ DbusType.int32 ∷ DbusType.uint32 ∷ DbusType.int64 ∷ DbusType.uint64 ∷ DbusType.double
    ∷ DbusType.string ∷ DbusType.object_path ∷ DbusType.signature ∷ DbusType.array ∷ DbusType.struct
    ∷ DbusType.variant ∷ DbusType.dict_entry ∷ DbusType.unix_fd ∷ []

find_code : ℕ → List DbusType → Option DbusType
find_code n [] = none
find_code n (t ∷ ts) = if code t == n then some t else find_code n ts

-- The type that an integer is the code of.
unfoldable pub of_code : ℤ → Option DbusType
unfolding find_code
of_code (pos n) = find_code n dbus_types
of_code (negsuc n) = none

of_code-code : (t : DbusType) → of_code (pos (code t)) ≡ some t
unfolding of_code
of_code-code = elim [
  | DbusType.invalid ↦ refl
  | DbusType.byte ↦ refl
  | DbusType.boolean ↦ refl
  | DbusType.int16 ↦ refl
  | DbusType.uint16 ↦ refl
  | DbusType.int32 ↦ refl
  | DbusType.uint32 ↦ refl
  | DbusType.int64 ↦ refl
  | DbusType.uint64 ↦ refl
  | DbusType.double ↦ refl
  | DbusType.string ↦ refl
  | DbusType.object_path ↦ refl
  | DbusType.signature ↦ refl
  | DbusType.array ↦ refl
  | DbusType.struct ↦ refl
  | DbusType.variant ↦ refl
  | DbusType.dict_entry ↦ refl
  | DbusType.unix_fd ↦ refl
]

-- `dbus_type_is_basic`: every type but the containers and `invalid`.
abbrev pub is_basic : DbusType → Bool
is_basic DbusType.invalid = Bool.false
is_basic DbusType.array = Bool.false
is_basic DbusType.struct = Bool.false
is_basic DbusType.variant = Bool.false
is_basic DbusType.dict_entry = Bool.false
is_basic _ = Bool.true
