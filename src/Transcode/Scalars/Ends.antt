-- ===== src/Transcode/Scalars/Ends.antt =====
-- The conversions of the basic types of src/l2dbus_transcode.c end.
use Prim.Native.String.{String}
use l2dbus.Base.{ℕ, ◌^◌, arith, Result, ok, ◌>>=◌, Ends, >>=-Ends}
use l2dbus.Base.Int.{ℤ, pos}
use l2dbus.Boxed.{check_string, read_int64, read_uint64}
use l2dbus.C.Words.{double_to_int64, double_to_uint64, to_int64, to_uint64}
use l2dbus.Lua.{Lua, LuaNumber}
use l2dbus.Transcode.Message.{Item, Library}
use l2dbus.Transcode.Scalars.{
  append, boxed_argument, number_argument, long_argument, unsigned_argument, signed_argument,
  boolean_argument, marshall_byte, marshall_boolean, marshall_int16, marshall_uint16,
  marshall_int32, marshall_uint32, marshall_int64, marshall_uint64, marshall_double,
  marshall_string, marshall_object_path, marshall_signature, marshall_unix_fd, unsigned_cast,
  signed_cast,
}

double_to_int64-Ends : (d : LuaNumber) → Ends (double_to_int64 d)
unfolding double_to_int64
double_to_int64-Ends d = λ e. ground arith

double_to_uint64-Ends : (d : LuaNumber) → Ends (double_to_uint64 d)
unfolding double_to_uint64
double_to_uint64-Ends d = λ e. ground arith

unsigned_cast-Ends : (range : ℕ) (d : LuaNumber) → Ends (unsigned_cast range d)
unsigned_cast-Ends range d =
    >>=-Ends (double_to_uint64 d) _ (double_to_uint64-Ends d) (λ n e. ground arith)

signed_cast-Ends : (half : ℕ) (d : LuaNumber) → Ends (signed_cast half d)
signed_cast-Ends half d =
    >>=-Ends (double_to_int64 d) _ (double_to_int64-Ends d) (λ z e. ground arith)

module _ (L : Lua) (B : Library) where
  open L use {Value, is_number, to_number}
  open B use {to_double}

  append-Ends : (i : Item) → Ends (append L B i)
  unfolding append
  append-Ends i = λ e. ground arith

  boxed_argument-Ends :
      {A : Type 0} (s t : String) (f : ℤ → A) (g : ℕ → A) (v : Value)
      → Ends (boxed_argument L B s t f g v)
  unfolding boxed_argument read_int64 read_uint64
  boxed_argument-Ends s t f g v = λ e. ground arith

  number_argument-Ends :
      {A : Type 0} (cast : LuaNumber → Result A) (f : ℤ → A) (g : ℕ → A)
      → ((d : LuaNumber) → Ends (cast d))
      → (v : Value) → Ends (number_argument L B cast f g v)
  unfolding number_argument
  number_argument-Ends cast f g h v = λ e.
      ground
        (arith, h (to_number v), boxed_argument-Ends "l2dbus.dbus.int64" "l2dbus.dbus.uint64" f g v)

  long_argument-Ends :
      {A : Type 0} (cast : LuaNumber → Result A) (f : ℤ → A) (g : ℕ → A)
      → ((d : LuaNumber) → Ends (cast d))
      → (v : Value) → Ends (long_argument L B cast f g v)
  unfolding long_argument
  long_argument-Ends cast f g h v =
      λ e. ground (arith, h (to_number v), boxed_argument-Ends "l2dbus.int64" "l2dbus.uint64" f g v)

  -- A conversion that ends, and the appending of its result.
  appended-Ends :
      {A : Type 0} (r : Result A) (whole : A → Item)
      → Ends r
      → Ends (r >>= (λ a. append L B (whole a)))
  appended-Ends r whole h = >>=-Ends r _ h (λ a. append-Ends (whole a))

  unsigned_argument-Ends : (range : ℕ) (v : Value) → Ends (unsigned_argument L B range v)
  unfolding unsigned_argument
  unsigned_argument-Ends range = number_argument-Ends _ _ _ (unsigned_cast-Ends range)

  signed_argument-Ends : (half range : ℕ) (v : Value) → Ends (signed_argument L B half range v)
  unfolding signed_argument
  signed_argument-Ends half range = number_argument-Ends _ _ _ (signed_cast-Ends half)

  boolean_argument-Ends : (v : Value) → Ends (boolean_argument L B v)
  unfolding boolean_argument boxed_argument read_int64 read_uint64
  boolean_argument-Ends v = λ e. ground arith

  pub marshall_byte-Ends : (v : Value) → Ends (marshall_byte L B v)
  unfolding marshall_byte
  marshall_byte-Ends v = appended-Ends _ Item.byte (unsigned_argument-Ends (2 ^ 8) v)

  pub marshall_boolean-Ends : (v : Value) → Ends (marshall_boolean L B v)
  unfolding marshall_boolean
  marshall_boolean-Ends v = appended-Ends _ Item.boolean (boolean_argument-Ends v)

  pub marshall_int16-Ends : (v : Value) → Ends (marshall_int16 L B v)
  unfolding marshall_int16
  marshall_int16-Ends v = appended-Ends _ Item.int16 (signed_argument-Ends (2 ^ 15) (2 ^ 16) v)

  pub marshall_uint16-Ends : (v : Value) → Ends (marshall_uint16 L B v)
  unfolding marshall_uint16
  marshall_uint16-Ends v = appended-Ends _ Item.uint16 (unsigned_argument-Ends (2 ^ 16) v)

  pub marshall_int32-Ends : (v : Value) → Ends (marshall_int32 L B v)
  unfolding marshall_int32
  marshall_int32-Ends v = appended-Ends _ Item.int32 (signed_argument-Ends (2 ^ 31) (2 ^ 32) v)

  pub marshall_uint32-Ends : (v : Value) → Ends (marshall_uint32 L B v)
  unfolding marshall_uint32
  marshall_uint32-Ends v = appended-Ends _ Item.uint32 (unsigned_argument-Ends (2 ^ 32) v)

  pub marshall_int64-Ends : (v : Value) → Ends (marshall_int64 L B v)
  unfolding marshall_int64
  marshall_int64-Ends v =
      appended-Ends _ Item.int64 (long_argument-Ends _ _ to_int64 double_to_int64-Ends v)

  pub marshall_uint64-Ends : (v : Value) → Ends (marshall_uint64 L B v)
  unfolding marshall_uint64
  marshall_uint64-Ends v =
      appended-Ends _ Item.uint64 (long_argument-Ends _ to_uint64 _ double_to_uint64-Ends v)

  pub marshall_double-Ends : (v : Value) → Ends (marshall_double L B v)
  unfolding marshall_double
  marshall_double-Ends v =
      appended-Ends _ Item.double
        (number_argument-Ends ok to_double (λ n. to_double (pos n)) (λ d e. cc) v)

  check_string-Ends : (v : Value) → Ends (check_string L v)
  unfolding check_string
  check_string-Ends v = λ e. ground arith

  pub marshall_string-Ends : (v : Value) → Ends (marshall_string L B v)
  unfolding marshall_string
  marshall_string-Ends v = appended-Ends _ Item.string (check_string-Ends v)

  pub marshall_object_path-Ends : (v : Value) → Ends (marshall_object_path L B v)
  unfolding marshall_object_path
  marshall_object_path-Ends v = appended-Ends _ Item.object_path (check_string-Ends v)

  pub marshall_signature-Ends : (v : Value) → Ends (marshall_signature L B v)
  unfolding marshall_signature
  marshall_signature-Ends v = appended-Ends _ Item.signature (check_string-Ends v)

  pub marshall_unix_fd-Ends : (v : Value) → Ends (marshall_unix_fd L B v)
  unfolding marshall_unix_fd
  marshall_unix_fd-Ends v = appended-Ends _ Item.unix_fd (signed_argument-Ends (2 ^ 31) (2 ^ 32) v)
