-- ===== src/Transcode/Unmarshall.antt =====
-- `l2dbus_transcodeUnmarshall`, `l2dbus_transcodeDbusArgsToLuaArray` and `l2dbus_transcodeDbusArgsToLua`
-- of src/l2dbus_transcode.c: the arguments of a message become Lua values. The tables that the code
-- makes are trees: it writes to a table before it stores it, and to no other.
pub mod Spec
pub mod Sequence
pub mod Returns
use l2dbus.Base.{
  ℕ, zero, suc, ◌+◌, Bool, true, false, ◌&&◌, ◌||◌, not, Option, none, some, List, [], ◌∷◌, ◌==◌,
  if◌then◌else◌, Result, ok, lua_error, Error, ◌>>=◌,
}
use l2dbus.Base.Int.{ℤ, pos, negsuc, eqb_ℤ}
use l2dbus.Lua.{LuaNumber, nan, infinite, finite, Bytes}
use l2dbus.Transcode.Message.{Item, Items, item}

-- A Lua value, and the fields of a table in the order in which they came.
mutual
  pub data Term : Type 0 where
    nil : Term
    boolean : Bool → Term
    number : LuaNumber → Term
    string : Bytes → Term
    int64 : ℤ → Term
    uint64 : ℕ → Term
    table : Fields → Term

  pub data Fields : Type 0 where
    empty : Fields
    field : (key value : Term) → Fields → Fields

abbrev pub same_bytes : Bytes → Bytes → Bool
same_bytes [] [] = true
same_bytes (x ∷ xs) (y ∷ ys) = x == y && same_bytes xs ys
same_bytes _ _ = false

abbrev same_sign : Bool → Bool → Bool
same_sign true b = b
same_sign false b = not b

-- Equality of doubles: no NaN equals itself, and zero has no sign.
abbrev pub same_number : LuaNumber → LuaNumber → Bool
same_number (infinite a) (infinite b) = same_sign a b
same_number (finite a n m) (finite b p q) =
    (n == p && m == q) && (same_sign a b || (n == 0 && m == 0))
same_number _ _ = false

-- Raw equality of keys: a table or a userdata that was just made is equal to no other one.
abbrev pub same_key : Term → Term → Bool
same_key (Term.boolean a) (Term.boolean b) = same_sign a b
same_key (Term.number x) (Term.number y) = same_number x y
same_key (Term.string s) (Term.string t) = same_bytes s t
same_key _ _ = false

-- The assignment of a field: the value of an equal key is replaced.
unfoldable pub raw_set : Fields → Term → Term → Fields
raw_set Fields.empty key v = Fields.field key v Fields.empty
raw_set (Fields.field k w fs) key v =
    let rest = raw_set fs key v in
    if same_key k key then Fields.field k v fs else Fields.field k w rest

unfoldable pub raw_get : Fields → Term → Term
raw_get Fields.empty key = Term.nil
raw_get (Fields.field k w fs) key = let rest = raw_get fs key in if same_key k key then w else rest

abbrev pub of_nat : ℕ → LuaNumber
of_nat n = finite false n 0

abbrev pub of_int : ℤ → LuaNumber
of_int (pos n) = finite false n 0
of_int (negsuc n) = finite true (suc n) 0

abbrev pub index : ℕ → Term
index i = Term.number (of_nat i)

-- The table that is filled and the index of its next element, `*arrIdx`.
abbrev pub Array : Type 0
Array = Fields × ℕ

abbrev pub empty_array : Array
empty_array = (Fields.empty, 1)

-- lua_rawseti and the step of the index
unfoldable pub push : Term → Array → Array
push v (fs, i) = (raw_set fs (index i) v, i + 1)

-- lua_settable raises an error for a key that is nil or NaN.
unfoldable pub settable : Fields → Term → Term → Result Fields
settable fs Term.nil v = lua_error Error.table_index
settable fs (Term.number nan) v = lua_error Error.table_index
settable fs key v = ok (raw_set fs key v)

-- The temporary table holds the key at 1 and the value at 2.
unfoldable pub set_entry : Array → Array → Result Array
set_entry (fs, i) (pair, _) = do
  fs' ← settable fs (raw_get pair (index 1)) (raw_get pair (index 2))
  ok (fs', i)

unfoldable pub push_table : Array → Array → Result Array
push_table a (fs, _) = ok (push (Term.table fs) a)

unfoldable mutual
  -- An argument is appended to the array, but for a dictionary entry, which becomes a field.
  pub unmarshall : Item → Array → Result Array
  unmarshall (Item.byte n) a = ok (push (Term.number (of_nat n)) a)
  unmarshall (Item.boolean z) a = ok (push (Term.boolean (not (eqb_ℤ z (pos 0)))) a)
  unmarshall (Item.int16 z) a = ok (push (Term.number (of_int z)) a)
  unmarshall (Item.uint16 n) a = ok (push (Term.number (of_nat n)) a)
  unmarshall (Item.int32 z) a = ok (push (Term.number (of_int z)) a)
  unmarshall (Item.uint32 n) a = ok (push (Term.number (of_nat n)) a)
  unmarshall (Item.int64 z) a = ok (push (Term.int64 z) a)
  unmarshall (Item.uint64 n) a = ok (push (Term.uint64 n) a)
  unmarshall (Item.double d) a = ok (push (Term.number d) a)
  unmarshall (Item.string s) a = ok (push (Term.string s) a)
  unmarshall (Item.object_path s) a = ok (push (Term.string s) a)
  unmarshall (Item.signature s) a = ok (push (Term.string s) a)
  unmarshall (Item.unix_fd z) a = ok (push (Term.number (of_int z)) a)
  unmarshall (Item.array t is) a = unmarshall_items is empty_array >>= push_table a
  unmarshall (Item.dict k w is) a = unmarshall_items is empty_array >>= push_table a
  unmarshall (Item.struct is) a = unmarshall_items is empty_array >>= push_table a
  unmarshall (Item.variant t i) a = unmarshall i a
  unmarshall (Item.dict_entry i j) a = do
    keyed ← unmarshall i empty_array
    pair ← unmarshall j keyed
    set_entry a pair

  -- The loop over the elements of a container.
  pub unmarshall_items : Items → Array → Result Array
  unmarshall_items Items.end a = ok a
  unmarshall_items (item i is) a = do a' ← unmarshall i a; unmarshall_items is a'

unfoldable pub dbus_args_to_lua_array : Option Items → Result Fields
dbus_args_to_lua_array none = lua_error Error.no_message
dbus_args_to_lua_array (some is) = do (fs, _) ← unmarshall_items is empty_array; ok fs

abbrev pub is_nil : Term → Bool
is_nil Term.nil = true
is_nil _ = false

abbrev pub fields_count : Fields → ℕ
fields_count Fields.empty = 0
fields_count (Fields.field k w fs) = suc (fields_count fs)

-- lua_rawlen of a table without holes: the elements from `i` on, at most as many as there are fields.
unfoldable pub border : ℕ → Fields → ℕ → ℕ
border zero fs i = 0
border (suc bound) fs i =
    let rest = border bound fs (i + 1) in if is_nil (raw_get fs (index i)) then 0 else rest + 1

unfoldable pub elements_from : ℕ → Fields → ℕ → List Term
elements_from zero fs i = []
elements_from (suc count) fs i = raw_get fs (index i) ∷ elements_from count fs (i + 1)

-- `check_stack` is lua_checkstack.
unfoldable pub push_elements : (check_stack : ℕ → Bool) → Fields → Result (List Term)
push_elements check_stack fs =
    let count = border (fields_count fs) fs 1 in
    if check_stack count then ok (elements_from count fs 1) else lua_error Error.checkstack

unfoldable pub dbus_args_to_lua : (check_stack : ℕ → Bool) → Option Items → Result (List Term)
dbus_args_to_lua check_stack message = dbus_args_to_lua_array message >>= push_elements check_stack
