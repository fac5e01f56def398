-- ===== src/Transcode/Scalars/Typed.antt =====
-- Every basic case of `l2dbus_transcodeMarshallAsType` (src/l2dbus_transcode.c) appends a value of its
-- type.
use l2dbus.Base.{◌^◌, ◌≡◌, arith, ok, >>=-eq-ok}
use l2dbus.Base.Int.{pos}
use l2dbus.Boxed.{check_string}
use l2dbus.C.Words.{double_to_int64, double_to_uint64, to_int64, to_uint64}
use l2dbus.Lua.{Lua}
use l2dbus.Lua.Laws.{HoldsWords}
use l2dbus.Transcode.Message.{Sig, Item, Library}
use l2dbus.Transcode.Message.Typing.{HasType}
use l2dbus.Transcode.Scalars.{
  unsigned_argument, signed_argument, long_argument, number_argument, boolean_argument,
  marshall_byte, marshall_boolean, marshall_int16, marshall_uint16, marshall_int32, marshall_uint32,
  marshall_int64, marshall_uint64, marshall_double, marshall_string, marshall_object_path,
  marshall_signature, marshall_unix_fd,
}
use l2dbus.Transcode.Scalars.Ranges.{
  append-eq-ok, unsigned_argument-lt, signed_argument-in_half_16, signed_argument-in_half_32,
  long_argument-fits, long_argument-lt, boolean_argument-in_half,
}

module _ (L : Lua) (B : Library) (words : HoldsWords L) where
  open L use {Value}
  open B use {to_double}

  pub marshall_byte-HasType :
      (v : Value) (i : Item) → marshall_byte L B v ≡ ok i → HasType i Sig.byte
  unfolding marshall_byte HasType
  marshall_byte-HasType v i h =
      let (n, conversion, h') = >>=-eq-ok (unsigned_argument L B (2 ^ 8) v) _ h in
      rw (append-eq-ok L B _ i h') (unsigned_argument-lt L B (2 ^ 8) v n (omega arith) conversion)

  pub marshall_uint16-HasType :
      (v : Value) (i : Item) → marshall_uint16 L B v ≡ ok i → HasType i Sig.uint16
  unfolding marshall_uint16 HasType
  marshall_uint16-HasType v i h =
      let (n, conversion, h') = >>=-eq-ok (unsigned_argument L B (2 ^ 16) v) _ h in
      rw (append-eq-ok L B _ i h') (unsigned_argument-lt L B (2 ^ 16) v n (omega arith) conversion)

  pub marshall_uint32-HasType :
      (v : Value) (i : Item) → marshall_uint32 L B v ≡ ok i → HasType i Sig.uint32
  unfolding marshall_uint32 HasType
  marshall_uint32-HasType v i h =
      let (n, conversion, h') = >>=-eq-ok (unsigned_argument L B (2 ^ 32) v) _ h in
      rw (append-eq-ok L B _ i h') (unsigned_argument-lt L B (2 ^ 32) v n (omega arith) conversion)

  pub marshall_int16-HasType :
      (v : Value) (i : Item) → marshall_int16 L B v ≡ ok i → HasType i Sig.int16
  unfolding marshall_int16 HasType
  marshall_int16-HasType v i h =
      let (z, conversion, h') = >>=-eq-ok (signed_argument L B (2 ^ 15) (2 ^ 16) v) _ h in
      rw (append-eq-ok L B _ i h') (signed_argument-in_half_16 L B v z conversion)

  pub marshall_int32-HasType :
      (v : Value) (i : Item) → marshall_int32 L B v ≡ ok i → HasType i Sig.int32
  unfolding marshall_int32 HasType
  marshall_int32-HasType v i h =
      let (z, conversion, h') = >>=-eq-ok (signed_argument L B (2 ^ 31) (2 ^ 32) v) _ h in
      rw (append-eq-ok L B _ i h') (signed_argument-in_half_32 L B v z conversion)

  pub marshall_unix_fd-HasType :
      (v : Value) (i : Item) → marshall_unix_fd L B v ≡ ok i → HasType i Sig.unix_fd
  unfolding marshall_unix_fd HasType
  marshall_unix_fd-HasType v i h =
      let (z, conversion, h') = >>=-eq-ok (signed_argument L B (2 ^ 31) (2 ^ 32) v) _ h in
      rw (append-eq-ok L B _ i h') (signed_argument-in_half_32 L B v z conversion)

  pub marshall_int64-HasType :
      (v : Value) (i : Item) → marshall_int64 L B v ≡ ok i → HasType i Sig.int64
  unfolding marshall_int64 HasType
  marshall_int64-HasType v i h =
      let (z, conversion, h') =
        >>=-eq-ok (long_argument L B double_to_int64 (λ z. z) to_int64 v) _ h in
      rw (append-eq-ok L B _ i h') (long_argument-fits L B words v z conversion)

  pub marshall_uint64-HasType :
      (v : Value) (i : Item) → marshall_uint64 L B v ≡ ok i → HasType i Sig.uint64
  unfolding marshall_uint64 HasType
  marshall_uint64-HasType v i h =
      let (n, conversion, h') =
        >>=-eq-ok (long_argument L B double_to_uint64 to_uint64 (λ n. n) v) _ h in
      rw (append-eq-ok L B _ i h') (long_argument-lt L B words v n conversion)

  pub marshall_double-HasType :
      (v : Value) (i : Item) → marshall_double L B v ≡ ok i → HasType i Sig.double
  unfolding marshall_double HasType
  marshall_double-HasType v i h =
      let (d, conversion, h') =
        >>=-eq-ok (number_argument L B ok to_double (λ n. to_double (pos n)) v) _ h in
      rw (append-eq-ok L B _ i h') (tt)

  pub marshall_string-HasType :
      (v : Value) (i : Item) → marshall_string L B v ≡ ok i → HasType i Sig.string
  unfolding marshall_string HasType
  marshall_string-HasType v i h =
      let (s, conversion, h') = >>=-eq-ok (check_string L v) _ h in
      rw (append-eq-ok L B _ i h') (tt)

  pub marshall_object_path-HasType :
      (v : Value) (i : Item) → marshall_object_path L B v ≡ ok i → HasType i Sig.object_path
  unfolding marshall_object_path HasType
  marshall_object_path-HasType v i h =
      let (s, conversion, h') = >>=-eq-ok (check_string L v) _ h in
      rw (append-eq-ok L B _ i h') (tt)

  pub marshall_signature-HasType :
      (v : Value) (i : Item) → marshall_signature L B v ≡ ok i → HasType i Sig.signature
  unfolding marshall_signature HasType
  marshall_signature-HasType v i h =
      let (s, conversion, h') = >>=-eq-ok (check_string L v) _ h in
      rw (append-eq-ok L B _ i h') (tt)

  pub marshall_boolean-HasType :
      (v : Value) (i : Item) → marshall_boolean L B v ≡ ok i → HasType i Sig.boolean
  unfolding marshall_boolean HasType
  marshall_boolean-HasType v i h =
      let (z, conversion, h') = >>=-eq-ok (boolean_argument L B v) _ h in
      rw (append-eq-ok L B _ i h') (boolean_argument-in_half L B v z conversion)
