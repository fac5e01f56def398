-- ===== src/Transcode/RoundTrip/Basic.antt =====
-- The basic types that src/l2dbus_transcode.c sends and returns without a loss.
use l2dbus.Base.{
  ℕ, suc, leb, ◌^◌, ◌<◌, ◌≤◌, ◌≡◌, refl, arith, inl, inr, true, Bool-cases, Result, ok, lt→ltb,
}
use l2dbus.Base.Int.{ℤ, pos, negsuc, ◌-ℤ◌}
use l2dbus.Boxed.{check_string, c_string}
use l2dbus.C.Words.{double_to_int64, double_to_uint64, u64_mod}
use l2dbus.Lua.{Lua, LuaType}
use l2dbus.Transcode.Message.{Item, Library}
use l2dbus.Transcode.RoundTrip.{Accepting, IsSendable, IsString, IsCount, IsWhole}
use l2dbus.Transcode.Scalars.{
  unsigned_cast, signed_cast, in_half, append, number_argument, unsigned_argument, signed_argument,
  boolean_argument, marshall_byte, marshall_boolean, marshall_int16, marshall_uint16,
  marshall_int32, marshall_uint32, marshall_double, marshall_string, marshall_object_path,
  marshall_signature,
}
use l2dbus.Transcode.Unmarshall.{Term, of_nat, of_int}
use l2dbus.Transcode.Unmarshall.Spec.{term_of, WellFormed}

unsigned_cast-of_nat :
    (range n : ℕ) → n < range → range ≤ u64_mod → unsigned_cast range (of_nat n) ≡ ok n
unfolding double_to_uint64
unsigned_cast-of_nat range n h low =
    rw (lt→ltb n u64_mod (omega (arith, h, low)), lt→ltb n range h) refl

minus_suc : (n : ℕ) → pos 0 -ℤ pos (suc n) ≡ negsuc n
unfolding ◌-ℤ◌
minus_suc n = ground arith

signed_cast-of_int :
    (half : ℕ) (z : ℤ) → in_half half z ≡ true → half ≤ 2 ^ 31 → signed_cast half (of_int z) ≡ ok z
unfolding double_to_int64
signed_cast-of_int half (pos n) h low = ground arith
signed_cast-of_int half (negsuc n) h low =
    let in_range : leb (suc n) (2 ^ 63) ≡ true = ground arith in rw (in_range, minus_suc n, h) refl

module _ (L : Lua) (B : Library) (accepting : Accepting B) where
  open L use {Value, lua_type, is_number, to_number, to_string}

  -- The call appends an argument that stands for the value.
  abbrev pub Sends : Result Item → Term → Type 0
  Sends call t = (i : Item) × (call ≡ ok i) × (term_of i ≡ ok t) × WellFormed i

  append-ok : (i : Item) → IsSendable B i → append L B i ≡ ok i
  unfolding append
  append-ok i h = rw (accepting.appends i h) refl

  unsigned_argument-ok :
      (range : ℕ) (v : Value) (n : ℕ)
      → is_number v ≡ true
      → to_number v ≡ of_nat n
      → n < range
      → range ≤ u64_mod
      → unsigned_argument L B range v ≡ ok n
  unfolding unsigned_argument number_argument
  unsigned_argument-ok range v n is e h low = rw (is, e) (unsigned_cast-of_nat range n h low)

  signed_argument-ok :
      (half range : ℕ) (v : Value) (z : ℤ)
      → is_number v ≡ true
      → to_number v ≡ of_int z
      → in_half half z ≡ true
      → half ≤ 2 ^ 31
      → signed_argument L B half range v ≡ ok z
  unfolding signed_argument number_argument
  signed_argument-ok half range v z is e h low = rw (is, e) (signed_cast-of_int half z h low)

  check_string-ok :
      (v : Value)
      → lua_type v ≡ LuaType.string
      → c_string (to_string v) ≡ to_string v
      → check_string L v ≡ ok (to_string v)
  unfolding check_string
  check_string-ok v e whole = rw (e, check_string) (rw whole refl)

  pub marshall_byte-Sends :
      (v : Value) (t : Term) → IsCount L B (2 ^ 8) v t → Sends (marshall_byte L B v) t
  unfolding marshall_byte term_of WellFormed
  marshall_byte-Sends v t (_, is, n, low, e, same) = (
    Item.byte n,
    rw (unsigned_argument-ok (2 ^ 8) v n is e low (omega arith)) (append-ok (Item.byte n) tt),
    rw same refl,
    tt,
  )

  pub marshall_uint16-Sends :
      (v : Value) (t : Term) → IsCount L B (2 ^ 16) v t → Sends (marshall_uint16 L B v) t
  unfolding marshall_uint16 term_of WellFormed
  marshall_uint16-Sends v t (_, is, n, low, e, same) = (
    Item.uint16 n,
    rw (unsigned_argument-ok (2 ^ 16) v n is e low (omega arith)) (append-ok (Item.uint16 n) tt),
    rw same refl,
    tt,
  )

  pub marshall_uint32-Sends :
      (v : Value) (t : Term) → IsCount L B (2 ^ 32) v t → Sends (marshall_uint32 L B v) t
  unfolding marshall_uint32 term_of WellFormed
  marshall_uint32-Sends v t (_, is, n, low, e, same) = (
    Item.uint32 n,
    rw (unsigned_argument-ok (2 ^ 32) v n is e low (omega arith)) (append-ok (Item.uint32 n) tt),
    rw same refl,
    tt,
  )

  pub marshall_int16-Sends :
      (v : Value) (t : Term) → IsWhole L B (2 ^ 15) v t → Sends (marshall_int16 L B v) t
  unfolding marshall_int16 term_of WellFormed
  marshall_int16-Sends v t (_, is, z, low, e, same) = (
    Item.int16 z,
    rw (signed_argument-ok (2 ^ 15) (2 ^ 16) v z is e low (omega arith))
        (append-ok (Item.int16 z) tt),
    rw same refl,
    tt,
  )

  pub marshall_int32-Sends :
      (v : Value) (t : Term) → IsWhole L B (2 ^ 31) v t → Sends (marshall_int32 L B v) t
  unfolding marshall_int32 term_of WellFormed
  marshall_int32-Sends v t (_, is, z, low, e, same) = (
    Item.int32 z,
    rw (signed_argument-ok (2 ^ 31) (2 ^ 32) v z is e low (omega arith))
        (append-ok (Item.int32 z) tt),
    rw same refl,
    tt,
  )

  pub marshall_string-Sends :
      (v : Value) (t : Term) → IsString L B B.valid_text v t → Sends (marshall_string L B v) t
  unfolding marshall_string term_of WellFormed
  marshall_string-Sends v t (is, whole, valid, same) = (
    Item.string (to_string v),
    rw (check_string-ok v is whole) (append-ok (Item.string (to_string v)) valid),
    rw same refl,
    tt,
  )

  pub marshall_object_path-Sends :
      (v : Value) (t : Term) → IsString L B B.valid_path v t → Sends (marshall_object_path L B v) t
  unfolding marshall_object_path term_of WellFormed
  marshall_object_path-Sends v t (is, whole, valid, same) = (
    Item.object_path (to_string v),
    rw (check_string-ok v is whole) (append-ok (Item.object_path (to_string v)) valid),
    rw same refl,
    tt,
  )

  pub marshall_signature-Sends :
      (v : Value) (t : Term)
      → IsString L B B.valid_signature v t
      → Sends (marshall_signature L B v) t
  unfolding marshall_signature term_of WellFormed
  marshall_signature-Sends v t (is, whole, valid, same) = (
    Item.signature (to_string v),
    rw (check_string-ok v is whole) (append-ok (Item.signature (to_string v)) valid),
    rw same refl,
    tt,
  )

  pub marshall_double-Sends :
      (v : Value) (t : Term)
      → is_number v ≡ true
      → t ≡ Term.number (to_number v)
      → Sends (marshall_double L B v) t
  unfolding marshall_double number_argument term_of WellFormed
  marshall_double-Sends v t is same = (
    Item.double (to_number v),
    rw is (append-ok (Item.double (to_number v)) tt),
    rw same refl,
    tt,
  )

  pub marshall_boolean-Sends :
      (v : Value) (t : Term)
      → lua_type v ≡ LuaType.boolean
      → t ≡ Term.boolean (L.to_boolean v)
      → Sends (marshall_boolean L B v) t
  unfolding marshall_boolean boolean_argument term_of WellFormed
  marshall_boolean-Sends v t is same = elim (Bool-cases (L.to_boolean v)) [
    | inl e ↦ (
      Item.boolean (pos 1),
      rw (is, boolean_argument, e) (append-ok (Item.boolean (pos 1)) tt),
      rw (same, e) refl,
      tt,
    )
    | inr e ↦ (
      Item.boolean (pos 0),
      rw (is, boolean_argument, e) (append-ok (Item.boolean (pos 0)) tt),
      rw (same, e) refl,
      tt,
    )
  ]
