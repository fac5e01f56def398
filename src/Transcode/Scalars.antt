-- ===== src/Transcode/Scalars.antt =====
-- The basic types of `l2dbus_transcodeMarshallAsType` (src/l2dbus_transcode.c): how a Lua value
-- becomes a value of the C type that is appended to the message.
pub mod Ranges
pub mod Typed
pub mod Ends
use Prim.Native.String.{String}
use l2dbus.Base.{
  ℕ, ◌-◌, ◌%◌, ◌^◌, Bool, true, false, ◌&&◌, none, some, ltb, if◌then◌else◌, Result, ok, lua_error,
  undefined, Error, Fault, ◌>>=◌,
}
use l2dbus.Base.Int.{ℤ, pos, negsuc, leb_ℤ}
use l2dbus.Boxed.{check_string, read_int64, read_uint64}
use l2dbus.C.Words.{double_to_int64, double_to_uint64, to_int64, to_uint64}
use l2dbus.Lua.{Lua, LuaType, LuaNumber, Bytes}
use l2dbus.Transcode.Message.{Item, Library}
use l2dbus.Util.{is_user_data}

-- An unsigned and a signed integer of `w` bits, the latter by its half range `2 ^ (w - 1)`.
abbrev pub unsigned_cast : ℕ → LuaNumber → Result ℕ
unsigned_cast range d = do
  n ← double_to_uint64 d
  if ltb n range then ok n else undefined Fault.float_range

abbrev pub in_half : ℕ → ℤ → Bool
in_half half z = leb_ℤ (negsuc (half - 1)) z && leb_ℤ z (pos (half - 1))

abbrev pub signed_cast : ℕ → LuaNumber → Result ℤ
signed_cast half d = do
  z ← double_to_int64 d
  if in_half half z then ok z else undefined Fault.float_range

-- The low bits, as an unsigned and as a signed integer.
abbrev pub low_unsigned : ℕ → ℕ → ℕ
low_unsigned range n = n % range

abbrev pub low_signed : (half range n : ℕ) → ℤ
low_signed half range n = let m = n % range in if ltb m half then pos m else negsuc (range - 1 - m)

module _ (L : Lua) (B : Library) where
  open L use {Value, lua_type, is_number, to_number, to_boolean}
  open B use {append_basic, to_double}

  -- dbus_message_iter_append_basic
  unfoldable pub append : Item → Result Item
  append i = if append_basic i then ok i else lua_error Error.cannot_append

  -- A boxed integer, by the two metatables that the code asks for.
  unfoldable pub boxed_argument :
      {A : Type 0} → (int_name uint_name : String) → (ℤ → A) → (ℕ → A) → Value → Result A
  boxed_argument int_name uint_name from_int from_uint v = elim (is_user_data L v (some int_name)) [
    | some p ↦ do z ← read_int64 L p; ok (from_int z)
    | none ↦ elim (is_user_data L v (some uint_name)) [
      | some p ↦ do n ← read_uint64 L p; ok (from_uint n)
      | none ↦ lua_error Error.cannot_convert_argument
    ]
  ]

  -- A number, or an integer boxed under the metatables of the wrappers `Int64` and `Uint64`.
  unfoldable pub number_argument :
      {A : Type 0} → (LuaNumber → Result A) → (ℤ → A) → (ℕ → A) → Value → Result A
  number_argument cast from_int from_uint v =
      if is_number v
      then cast (to_number v)
      else boxed_argument "l2dbus.dbus.int64" "l2dbus.dbus.uint64" from_int from_uint v

  -- A number, or an integer boxed under the metatables of `l2dbus.Int64` and `l2dbus.Uint64`.
  unfoldable pub long_argument :
      {A : Type 0} → (LuaNumber → Result A) → (ℤ → A) → (ℕ → A) → Value → Result A
  long_argument cast from_int from_uint v =
      if is_number v
      then cast (to_number v)
      else boxed_argument "l2dbus.int64" "l2dbus.uint64" from_int from_uint v

  unfoldable pub unsigned_argument : ℕ → Value → Result ℕ
  unsigned_argument range =
      number_argument (unsigned_cast range) (λ z. to_uint64 z % range) (λ n. n % range)

  unfoldable pub signed_argument : (half range : ℕ) → Value → Result ℤ
  signed_argument half range =
      number_argument (signed_cast half) (λ z. low_signed half range (to_uint64 z))
        (λ n. low_signed half range n)

  unfoldable pub marshall_byte : Value → Result Item
  marshall_byte v = do n ← unsigned_argument (2 ^ 8) v; append (Item.byte n)

  unfoldable pub boolean_argument : Value → Result ℤ
  boolean_argument v = elim (lua_type v) [
    | LuaType.boolean ↦ ok (if to_boolean v then pos 1 else pos 0)
    | _ ↦
        boxed_argument "l2dbus.dbus.int64" "l2dbus.dbus.uint64"
          (λ z. low_signed (2 ^ 31) (2 ^ 32) (to_uint64 z)) (λ n. low_signed (2 ^ 31) (2 ^ 32) n) v
  ]

  unfoldable pub marshall_boolean : Value → Result Item
  marshall_boolean v = do z ← boolean_argument v; append (Item.boolean z)

  unfoldable pub marshall_int16 : Value → Result Item
  marshall_int16 v = do z ← signed_argument (2 ^ 15) (2 ^ 16) v; append (Item.int16 z)

  unfoldable pub marshall_uint16 : Value → Result Item
  marshall_uint16 v = do n ← unsigned_argument (2 ^ 16) v; append (Item.uint16 n)

  unfoldable pub marshall_int32 : Value → Result Item
  marshall_int32 v = do z ← signed_argument (2 ^ 31) (2 ^ 32) v; append (Item.int32 z)

  unfoldable pub marshall_uint32 : Value → Result Item
  marshall_uint32 v = do n ← unsigned_argument (2 ^ 32) v; append (Item.uint32 n)

  unfoldable pub marshall_int64 : Value → Result Item
  marshall_int64 v = do z ← long_argument double_to_int64 (λ z. z) to_int64 v; append (Item.int64 z)

  unfoldable pub marshall_uint64 : Value → Result Item
  marshall_uint64 v = do
    n ← long_argument double_to_uint64 to_uint64 (λ n. n) v
    append (Item.uint64 n)

  unfoldable pub marshall_double : Value → Result Item
  marshall_double v = do
    d ← number_argument ok to_double (λ n. to_double (pos n)) v
    append (Item.double d)

  unfoldable pub marshall_string : Value → Result Item
  marshall_string v = do s ← check_string L v; append (Item.string s)

  unfoldable pub marshall_object_path : Value → Result Item
  marshall_object_path v = do s ← check_string L v; append (Item.object_path s)

  unfoldable pub marshall_signature : Value → Result Item
  marshall_signature v = do s ← check_string L v; append (Item.signature s)

  unfoldable pub marshall_unix_fd : Value → Result Item
  marshall_unix_fd v = do z ← signed_argument (2 ^ 31) (2 ^ 32) v; append (Item.unix_fd z)
