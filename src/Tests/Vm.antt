-- ===== src/Tests/Vm.antt =====
-- A Lua state with a few values: numbers, a string, a list, a dictionary, boxed integers and a
-- wrapped variant.
use Prim.Native.String.{String}
use text.Mathlib.Text.{◌==◌ as str_eq}
use l2dbus.Base.{
  ℕ, ◌+◌, ◌<◌, ◌≡◌, ◌⊎◌, inl, inr, refl, arith, Bool, true, false, Option, none, some, List, [],
  ◌∷◌, ◌==◌, if◌then◌else◌,
}
use l2dbus.Base.Int.{ℤ, pos, negsuc}
use l2dbus.Lua.{Lua, LuaType, LuaNumber, finite, Block}
use l2dbus.Lua.Laws.{NumberLike, HasDepth, HoldsWords}
use l2dbus.Transcode.Tables.Order.{NoForgery}
use l2dbus.Types.{get_name_by_type_id}
use l2dbus.Util.{is_user_data, get_meta_type_id}

pub data V : Type 0 where
  nothing naught one seven minus_five eleven twelve sixteen type_29 code_v : V
  zero_text list dict : V
  boxed_int64 boxed_uint64 boxed_variant variant_table : V
  meta_int64 meta_uint64 meta_variant : V

abbrev pub vm_type : V → LuaType
vm_type V.nothing = LuaType.nil
vm_type V.zero_text = LuaType.string
vm_type V.list = LuaType.table
vm_type V.dict = LuaType.table
vm_type V.variant_table = LuaType.table
vm_type V.meta_int64 = LuaType.table
vm_type V.meta_uint64 = LuaType.table
vm_type V.meta_variant = LuaType.table
vm_type V.boxed_int64 = LuaType.userdata
vm_type V.boxed_uint64 = LuaType.userdata
vm_type V.boxed_variant = LuaType.userdata
vm_type _ = LuaType.number

abbrev pub vm_integer : V → ℤ
vm_integer V.one = pos 1
vm_integer V.seven = pos 7
vm_integer V.minus_five = negsuc 4
vm_integer V.eleven = pos 11
vm_integer V.twelve = pos 12
vm_integer V.sixteen = pos 16
vm_integer V.type_29 = pos 29
vm_integer V.code_v = pos b'v'
vm_integer _ = pos 0

abbrev pub vm_number : ℤ → LuaNumber
vm_number (pos n) = finite false n 0
vm_number (negsuc n) = finite true (n + 1) 0

abbrev pub vm_entries : V → List (V × V)
vm_entries V.list = (V.one, V.seven) ∷ []
vm_entries V.variant_table = (V.one, V.seven) ∷ []
vm_entries V.dict = (V.zero_text, V.list) ∷ []
vm_entries _ = []

abbrev pub vm_boolean : V → Bool
vm_boolean V.nothing = false
vm_boolean _ = true

abbrev pub vm_is_number : V → Bool
vm_is_number V.zero_text = true
vm_is_number v = elim (vm_type v) [ LuaType.number ↦ true | _ ↦ false ]

abbrev pub vm_field : V → String → V
vm_field V.boxed_int64 f = if str_eq f "__typeId" then V.eleven else V.nothing
vm_field V.boxed_uint64 f = if str_eq f "__typeId" then V.twelve else V.nothing
vm_field V.boxed_variant f =
    if str_eq f "__typeId"
    then V.type_29
    else if str_eq f "__dbusTypeId"
    then V.code_v
    else V.nothing
vm_field _ f = V.nothing

abbrev pub vm_address : V → Option ℕ
vm_address V.boxed_int64 = some 1
vm_address V.boxed_uint64 = some 2
vm_address V.boxed_variant = some 3
vm_address _ = none

abbrev pub vm_metatable : V → Option V
vm_metatable V.boxed_int64 = some V.meta_int64
vm_metatable V.boxed_uint64 = some V.meta_uint64
vm_metatable V.boxed_variant = some V.meta_variant
vm_metatable _ = none

abbrev pub vm_registry : String → V
vm_registry name =
    if str_eq name "l2dbus.int64"
    then V.meta_int64
    else if str_eq name "l2dbus.uint64"
    then V.meta_uint64
    else if str_eq name "l2dbus.dbus.variant"
    then V.meta_variant
    else V.nothing

abbrev pub vm_equal : V → V → Bool
vm_equal V.meta_int64 V.meta_int64 = true
vm_equal V.meta_uint64 V.meta_uint64 = true
vm_equal V.meta_variant V.meta_variant = true
vm_equal _ _ = false

abbrev pub vm_block : ℕ → Block
vm_block a =
    if a == 1
    then Block.int64 (negsuc 4)
    else if a == 2
    then Block.uint64 7
    else if a == 3
    then Block.dbus_value 1 none
    else Block.foreign

abbrev pub vm_get_i : V → ℕ → V
vm_get_i V.list i = if i == 1 then V.seven else V.nothing
vm_get_i V.variant_table i = if i == 1 then V.seven else V.nothing
vm_get_i _ i = V.nothing

abbrev pub vm_len : V → ℕ
vm_len V.list = 1
vm_len V.variant_table = 1
vm_len _ = 0

abbrev pub vm : Lua
vm = record {
  Value = V;
  lua_type = vm_type;
  is_number = vm_is_number;
  to_number = λ v. vm_number (vm_integer v);
  to_integer = vm_integer;
  to_boolean = vm_boolean;
  to_string = λ v. b'0' ∷ [];
  entries = vm_entries;
  raw_len = vm_len;
  raw_get_i = vm_get_i;
  raises = λ v f. false;
  sets_einval = true;
  get_field = vm_field;
  touserdata = vm_address;
  metatable = vm_metatable;
  registry = vm_registry;
  raw_equal = vm_equal;
  user_value = λ v. V.variant_table;
  block = vm_block;
}

-- The same state without the variant: the userdata has lost its type.
abbrev pub plain_field : V → String → V
plain_field V.boxed_variant f = V.nothing
plain_field v f = vm_field v f

abbrev pub plain_vm : Lua
plain_vm = record vm { get_field = plain_field }

-- A list that holds itself.
abbrev pub cyclic_entries : V → List (V × V)
cyclic_entries V.list = (V.one, V.list) ∷ []
cyclic_entries v = []

abbrev pub cyclic_vm : Lua
cyclic_vm = record vm { entries = cyclic_entries }

abbrev pub vm_depth : V → ℕ
vm_depth V.dict = 2
vm_depth V.list = 1
vm_depth V.variant_table = 1
vm_depth _ = 0

pub vm-HasDepth : HasDepth vm vm_depth
vm-HasDepth = elim [
  | V.list ↦ omega arith
  | V.variant_table ↦ omega arith
  | V.dict ↦ omega arith
  | _ ↦ tt
]

pub vm_depth_below : (v : V) → vm_depth v < 3
vm_depth_below = elim [
  | V.list ↦ omega arith
  | V.variant_table ↦ omega arith
  | V.dict ↦ omega arith
  | _ ↦ omega arith
]

pub vm-NumberLike : NumberLike vm
vm-NumberLike v h = by_value v h
  where
    by_value :
        (v : V)
        → vm_is_number v ≡ true
        → (vm_type v ≡ LuaType.number) ⊎ (vm_type v ≡ LuaType.string)
    by_value V.zero_text h = inr refl
    by_value V.naught h = inl refl
    by_value V.one h = inl refl
    by_value V.seven h = inl refl
    by_value V.minus_five h = inl refl
    by_value V.eleven h = inl refl
    by_value V.twelve h = inl refl
    by_value V.sixteen h = inl refl
    by_value V.type_29 h = inl refl
    by_value V.code_v h = inl refl
    by_value _ h = absurd (cc)

-- The registered metatables are those of the values that have an identifier.
pub vm-NoForgery : NoForgery vm
unfolding get_meta_type_id is_user_data get_name_by_type_id
vm-NoForgery V.boxed_int64 h = refl
vm-NoForgery V.boxed_uint64 h = refl
vm-NoForgery V.boxed_variant h = refl
vm-NoForgery _ h = absurd (h refl)

pub vm-HoldsWords : HoldsWords vm
vm-HoldsWords = (λ p z h. ground arith, λ p n h. ground arith)
