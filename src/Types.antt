-- ===== src/Types.antt =====
-- src/l2dbus_types.h and src/l2dbus_types.c: the type identifiers and the metatable names.
use Prim.Native.String.{String}
use l2dbus.Base.{ℕ, ◌-◌, List, [], ◌∷◌, Option, none, ltb, if◌then◌else◌, ◌&&◌, get_elem?}

-- The enumeration `l2dbus_TypeId`, with the values that the compiler gives.
abbrev pub TypeId : Type 0
TypeId = ℕ

abbrev pub start_type_id : TypeId
start_type_id = 0

abbrev pub invalid_type_id : TypeId
invalid_type_id = start_type_id

abbrev pub int64_type_id : TypeId
int64_type_id = 11

abbrev pub uint64_type_id : TypeId
uint64_type_id = 12

abbrev pub start_dbus_type_id : TypeId
start_dbus_type_id = 13

abbrev pub dbus_invalid_type_id : TypeId
dbus_invalid_type_id = 14

abbrev pub dbus_byte_type_id : TypeId
dbus_byte_type_id = 15

abbrev pub dbus_boolean_type_id : TypeId
dbus_boolean_type_id = 16

abbrev pub dbus_int16_type_id : TypeId
dbus_int16_type_id = 17

abbrev pub dbus_uint16_type_id : TypeId
dbus_uint16_type_id = 18

abbrev pub dbus_int32_type_id : TypeId
dbus_int32_type_id = 19

abbrev pub dbus_uint32_type_id : TypeId
dbus_uint32_type_id = 20

abbrev pub dbus_int64_type_id : TypeId
dbus_int64_type_id = 21

abbrev pub dbus_uint64_type_id : TypeId
dbus_uint64_type_id = 22

abbrev pub dbus_double_type_id : TypeId
dbus_double_type_id = 23

abbrev pub dbus_string_type_id : TypeId
dbus_string_type_id = 24

abbrev pub dbus_object_path_type_id : TypeId
dbus_object_path_type_id = 25

abbrev pub dbus_signature_type_id : TypeId
dbus_signature_type_id = 26

abbrev pub dbus_array_type_id : TypeId
dbus_array_type_id = 27

abbrev pub dbus_struct_type_id : TypeId
dbus_struct_type_id = 28

abbrev pub dbus_variant_type_id : TypeId
dbus_variant_type_id = 29

abbrev pub dbus_dict_entry_type_id : TypeId
dbus_dict_entry_type_id = 30

abbrev pub dbus_unix_fd_type_id : TypeId
dbus_unix_fd_type_id = 31

abbrev pub end_dbus_type_id : TypeId
end_dbus_type_id = 32

abbrev pub end_type_id : TypeId
end_type_id = 33

-- `l2dbus_gMetaName`, in the order of the enumeration.
abbrev pub meta_name : List String
meta_name =
    "l2dbus.module_finalizer" ∷ "l2dbus.watch" ∷ "l2dbus.timeout" ∷ "l2dbus.connection"
    ∷ "l2dbus.main_loop" ∷ "l2dbus.dispatcher" ∷ "l2dbus.message" ∷ "l2dbus.pending_call"
    ∷ "l2dbus.service_object" ∷ "l2dbus.interface" ∷ "l2dbus.int64" ∷ "l2dbus.uint64" ∷ ""
    ∷ "l2dbus.dbus.invalid" ∷ "l2dbus.dbus.byte" ∷ "l2dbus.dbus.boolean" ∷ "l2dbus.dbus.int16"
    ∷ "l2dbus.dbus.uint16" ∷ "l2dbus.dbus.int32" ∷ "l2dbus.dbus.uint32" ∷ "l2dbus.dbus.int64"
    ∷ "l2dbus.dbus.uint64" ∷ "l2dbus.dbus.double" ∷ "l2dbus.dbus.string" ∷ "l2dbus.dbus.object_path"
    ∷ "l2dbus.dbus.signature" ∷ "l2dbus.dbus.array" ∷ "l2dbus.dbus.structure"
    ∷ "l2dbus.dbus.variant" ∷ "l2dbus.dbus.dictionary" ∷ "l2dbus.dbus.unix_fd" ∷ "" ∷ []

-- `NULL` outside the enumeration.
unfoldable pub get_name_by_type_id : TypeId → Option String
get_name_by_type_id type_id =
    if ltb start_type_id type_id && ltb type_id end_type_id
    then get_elem? meta_name (type_id - 1)
    else none
