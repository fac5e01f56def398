-- ===== src/Tests/Transcode.antt =====
-- The theorems about src/l2dbus_transcode.c at concrete values.
use l2dbus.Base.{
  ◌≡◌, ◌≢◌, ◌↔◌, refl, arith, true, none, some, List, [], ◌∷◌, ◌++◌, length, ok, out_of_fuel,
}
use l2dbus.Base.Int.{ℤ}
use l2dbus.C.Words.{double_to_int64}
use l2dbus.Dbus.{of_code, is_basic, DbusType, code}
use l2dbus.Lua.{Bytes, LuaType, finite}
use l2dbus.Tests.Vm.{
  V, vm_type, vm_entries, vm, plain_vm, cyclic_vm, vm_depth, vm-HasDepth, vm_depth_below,
  vm-NumberLike, vm-NoForgery,
}
use l2dbus.Transcode.NumType.{calc_dbus_num_type}
use l2dbus.Transcode.NumType.Exact.{Stands, ChosenFor, calc_dbus_num_type-exact}
use l2dbus.Transcode.Signature.{
  StringBuffer, compute_signature, append_all, by_type, container, dictionary, first_entry,
}
use l2dbus.Transcode.Signature.Grammar.{Single, WellWrapped, AppendExact}
use l2dbus.Transcode.Signature.Complete.{compute_signature-Single}
use l2dbus.Transcode.Signature.Levels.{compute_signature-Ends}
use l2dbus.Transcode.Signature.Variant.{compute_signature-variant}
use l2dbus.Transcode.Tables.{
  is_table_dictionary, is_table_structure, is_table_array, map_lua_to_dbus_type, dict_entries, item,
  dict_key, struct_entries, array_entries, array_item,
}
use l2dbus.Transcode.Tables.Fuel.{is_table_dictionary-cyclic}
use l2dbus.Transcode.Tables.Spec.{Dictionary, is_table_dictionary_iff, map_lua_to_dbus_type-table}
use l2dbus.Transcode.Wrapper.{get_value, get_cached_signature, query_dbus_type_id}
use l2dbus.Types.{get_name_by_type_id}
use l2dbus.Util.{is_user_data, get_meta_type_id, get_type_name}

-- A buffer without a bound.
abbrev bytes_buffer : StringBuffer
bytes_buffer = record {
  Buffer = Bytes;
  buffer_length = length;
  contents = λ b. b;
  append = λ b s. (b ++ s, length s);
}

bytes_buffer-AppendExact : AppendExact bytes_buffer
bytes_buffer-AppendExact b s h = refl

map_lua_to_dbus_type-table_example :
    (d : DbusType) × (map_lua_to_dbus_type vm 3 V.dict ≡ some d)
    × ((d ≡ DbusType.invalid) ↔ (¬ Dictionary vm V.dict))
map_lua_to_dbus_type-table_example =
    map_lua_to_dbus_type-table vm vm_depth vm-HasDepth vm-NumberLike vm-NoForgery 3 V.dict refl
      (vm_depth_below V.dict)

is_table_dictionary_iff_example :
    (is_table_dictionary vm 3 V.dict ≡ some true) ↔ Dictionary vm V.dict
is_table_dictionary_iff_example =
    is_table_dictionary_iff vm vm_depth vm-HasDepth 3 V.dict (vm_depth_below V.dict)

dict_is_sent : map_lua_to_dbus_type vm 3 V.dict ≡ some DbusType.dict_entry
unfolding map_lua_to_dbus_type is_table_array is_table_structure is_table_dictionary array_entries
    struct_entries dict_entries array_item item dict_key
dict_is_sent = refl

list_is_a_structure : is_table_array vm 2 V.list ≡ some true
unfolding is_table_array array_entries array_item
list_is_a_structure = refl

is_table_dictionary-cyclic_example : is_table_dictionary cyclic_vm 1000 V.list ≡ none
unfolding dict_key
is_table_dictionary-cyclic_example =
    is_table_dictionary-cyclic cyclic_vm V.list V.one [] refl refl refl 1000

compute_signature-Ends_example :
    compute_signature vm bytes_buffer 3 34 0 [] V.boxed_variant ≢ out_of_fuel
compute_signature-Ends_example =
    compute_signature-Ends vm bytes_buffer 3 vm-NumberLike vm-NoForgery vm_depth vm-HasDepth
      vm_depth_below 34 (omega arith) [] V.boxed_variant

minus_five_is_no_double : calc_dbus_num_type (finite true 5 0) ≢ DbusType.double
unfolding calc_dbus_num_type
minus_five_is_no_double e = cc

calc_dbus_num_type-exact_example :
    (z : ℤ) × (double_to_int64 (finite true 5 0) ≡ ok z)
    × Stands (finite true 5 0) z
    × ChosenFor (calc_dbus_num_type (finite true 5 0)) z
calc_dbus_num_type-exact_example =
    calc_dbus_num_type-exact (finite true 5 0) minus_five_is_no_double

-- A variant that wraps the number 7.
variant_is_variant : map_lua_to_dbus_type vm 3 V.boxed_variant ≡ some DbusType.variant
unfolding map_lua_to_dbus_type query_dbus_type_id get_meta_type_id of_code
variant_is_variant = refl

seven_is_int32 : map_lua_to_dbus_type vm 3 V.seven ≡ some DbusType.int32
unfolding map_lua_to_dbus_type calc_dbus_num_type
seven_is_int32 = refl

variant_without_signature : get_cached_signature vm V.boxed_variant ≡ ok none
unfolding get_cached_signature is_user_data get_type_name get_meta_type_id get_name_by_type_id
variant_without_signature = refl

variant_around_seven : get_value vm V.boxed_variant ≡ ok V.seven
unfolding get_value query_dbus_type_id of_code
variant_around_seven = refl

variant_computed :
    compute_signature vm bytes_buffer 3 34 0 [] V.boxed_variant ≡ ok (true, b'v' ∷ b'i' ∷ [])
unfolding compute_signature map_lua_to_dbus_type calc_dbus_num_type get_cached_signature
    is_user_data get_type_name get_meta_type_id get_name_by_type_id get_value query_dbus_type_id
    append_all by_type container of_code
variant_computed = refl

compute_signature-variant_example :
    (b'v' ∷ b'i' ∷ [] ≡ [] ++ b'v' ∷ code DbusType.int32 ∷ [])
    × (¬ Single (b'v' ∷ code DbusType.int32 ∷ []))
compute_signature-variant_example =
    compute_signature-variant vm bytes_buffer 3 bytes_buffer-AppendExact 34 0 [] (b'v' ∷ b'i' ∷ [])
      V.boxed_variant V.seven DbusType.int32 variant_is_variant variant_without_signature
      variant_around_seven seven_is_int32 refl variant_computed

-- What the values of `plain_vm` are mapped to.
abbrev plain_type : V → DbusType
plain_type V.nothing = DbusType.invalid
plain_type V.zero_text = DbusType.string
plain_type V.dict = DbusType.dict_entry
plain_type V.boxed_int64 = DbusType.int64
plain_type V.boxed_uint64 = DbusType.uint64
plain_type V.boxed_variant = DbusType.invalid
plain_type v = elim (vm_type v) [ LuaType.number ↦ DbusType.int32 | _ ↦ DbusType.array ]

plain_type_lem : (v : V) → map_lua_to_dbus_type plain_vm 3 v ≡ some (plain_type v)
unfolding map_lua_to_dbus_type calc_dbus_num_type get_meta_type_id is_table_array is_table_structure
    is_table_dictionary array_entries struct_entries dict_entries array_item item dict_key
    query_dbus_type_id of_code
plain_type_lem = elim [ V.list ↦ refl | _ ↦ refl ]

nothing_stored : (v : V) (s : Bytes) → get_cached_signature plain_vm v ≢ ok (some s)
unfolding get_cached_signature is_user_data get_type_name get_meta_type_id get_name_by_type_id
nothing_stored = elim [ V.list ↦ λ s e. cc | _ ↦ λ s e. cc ]

never_variant : (v : V) → plain_type v ≢ DbusType.variant
never_variant = elim [ V.list ↦ λ e. cc | _ ↦ λ e. cc ]

never_struct : (v : V) → plain_type v ≢ DbusType.struct
never_struct = elim [ V.list ↦ λ e. cc | _ ↦ λ e. cc ]

its_own_value : (v : V) → get_value plain_vm v ≡ ok v
unfolding get_value query_dbus_type_id of_code
its_own_value = elim [ V.list ↦ refl | _ ↦ refl ]

its_own : (v u : V) → get_value plain_vm v ≡ ok u → u ≡ v
its_own v u h = cc (its_own_value v, h)

-- The first pair of a dictionary.
first_pair :
    (v : V)
    → plain_type v ≡ DbusType.dict_entry
    → (k w : V) × (es : List (V × V)) × (t : DbusType) × (vm_entries v ≡ (k, w) ∷ es)
      × (map_lua_to_dbus_type plain_vm 3 k ≡ some t)
      × (is_basic t ≡ true)
first_pair = elim [
  | V.dict ↦ λ e. (V.zero_text, V.list, [], DbusType.string, refl, plain_type_lem V.zero_text, refl)
  | _ ↦ λ e. absurd (cc)
]

-- Without a wrapper nothing is stored, and the tables of `plain_vm` have entries.
plain_vm-WellWrapped : WellWrapped plain_vm bytes_buffer 3 bytes_buffer-AppendExact
plain_vm-WellWrapped = record {
  stored = λ v t s e h. absurd (nothing_stored v s h);
  plain = λ v e. never_variant v (cc (plain_type_lem v, e));
  filled = λ v u e h. absurd (never_struct v (cc (plain_type_lem v, e)));
  keyed = λ v u e h. rw (its_own v u h) (first_pair v (cc (plain_type_lem v, e)));
}

dict_computed :
    compute_signature plain_vm bytes_buffer 3 34 0 [] V.dict
    ≡ ok (true, b'a' ∷ b'{' ∷ b's' ∷ b'v' ∷ b'}' ∷ [])
unfolding compute_signature map_lua_to_dbus_type calc_dbus_num_type get_cached_signature
    is_user_data get_type_name get_meta_type_id get_name_by_type_id get_value query_dbus_type_id
    append_all by_type container of_code is_table_array is_table_structure is_table_dictionary
    array_entries struct_entries dict_entries array_item item dict_key dictionary first_entry
dict_computed = refl

compute_signature-Single_example :
    (s : Bytes) × (b'a' ∷ b'{' ∷ b's' ∷ b'v' ∷ b'}' ∷ [] ≡ [] ++ s) × Single s
compute_signature-Single_example =
    compute_signature-Single plain_vm bytes_buffer 3 bytes_buffer-AppendExact plain_vm-WellWrapped
      34 0 [] V.dict (b'a' ∷ b'{' ∷ b's' ∷ b'v' ∷ b'}' ∷ []) dict_computed
