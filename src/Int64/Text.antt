-- ===== src/Int64/Text.antt =====
-- `toString` of src/l2dbus_int64.c, and the text read back by the constructor.
use l2dbus.Base.{
  Bool, ℕ, suc, ◌-◌, ◌<◌, ◌^◌, ◌≡◌, ◌⊎◌, refl, inl, inr, arith, true, Option, none, some, [], ◌∷◌,
  if◌then◌else◌, Result, ok, lua_error, Error, ◌>>=◌, length,
}
use l2dbus.Base.Int.{ℤ, pos, negsuc, eqb_ℤ}
use l2dbus.Boxed.{check_udata, base_argument, read_int64, invalid_index, is_base, opt_int}
use l2dbus.C.Print.{
  start_errno-print_unsigned, start_errno-print_hex, print_octal, print_decimal, print_hex,
  print_unsigned, print_unsigned_unsigned, magnitude-decimal, magnitude-octal, magnitude-hex,
  length-print_octal, length-print_decimal, length-print_hex,
}
use l2dbus.C.Strings.{
  start_errno, unsigned_part, Errno, strtoll, strtoll-errno, clamp_signed, take_sign, skip_spaces,
  is_space,
}
use l2dbus.C.Words.{fits, to_uint64, to_int32, to_uint32, int64_max, u64_mod}
use l2dbus.Lua.{Lua, LuaType, Bytes, Block}
use l2dbus.Util.{is_user_data}
use l2dbus.Int64.{int64_cast, cast_string, new_int64}

-- The format that is chosen for a base. "%o" and "%x" print the 64 bits as an unsigned number.
unfoldable pub int64_format : ℤ → Option (ℤ → Bytes)
int64_format base =
    if eqb_ℤ base (pos 8)
    then some (λ z. print_octal (to_uint64 z))
    else if eqb_ℤ base (pos 10)
    then some print_decimal
    else if eqb_ℤ base (pos 16)
    then some (λ z. print_hex (to_uint64 z))
    else none

unfoldable pub int64_to_string : (L : Lua) → L.Value → Option L.Value → Result Bytes
int64_to_string L v arg = do
  p ← check_udata L v "l2dbus.int64"
  base ← base_argument L arg
  elim (int64_format base) [
    | none ↦ lua_error Error.unsupported_base
    | some print ↦ do z ← read_int64 L p; ok (print z)
  ]

negative_text : (s : Bytes) → take_sign (skip_spaces (b'-' ∷ s)) ≡ (true, s)
unfolding take_sign skip_spaces is_space
negative_text s = refl

-- `strtoll` on what was printed in base 10.
strtoll-print_decimal :
    (sets : Bool) (errno : Errno) (z : ℤ)
    → fits z ≡ true
    → strtoll sets errno 10 (print_decimal z) ≡ (z, errno)
unfolding strtoll clamp_signed
strtoll-print_decimal sets errno (pos n) h =
    rw
      (
        print_unsigned_unsigned 10 n (omega arith) (omega arith),
        magnitude-decimal n (ground arith),
        start_errno-print_unsigned sets errno 10 n (omega arith) (omega arith),
      )
      (ground arith)
strtoll-print_decimal sets errno (negsuc n) h =
    rw
      (
        negative_text (print_unsigned 10 (suc n)),
        magnitude-decimal (suc n) (ground arith),
        start_errno-print_unsigned sets errno 10 (suc n) (omega arith) (omega arith),
      )
      (ground arith)

-- What the bits of `z` are read back as: a negative number is beyond the range then, and clamped.
abbrev pub read_back : ℤ → ℤ
read_back (pos n) = pos n
read_back (negsuc n) = int64_max

strtoll-print_octal :
    (sets : Bool) (errno : Errno) (z : ℤ)
    → fits z ≡ true
    → (strtoll sets errno 8 (print_octal (to_uint64 z))).0 ≡ read_back z
unfolding strtoll clamp_signed to_uint64
strtoll-print_octal sets errno (pos n) h =
    rw (print_unsigned_unsigned 8 n (omega arith) (omega arith), magnitude-octal n (ground arith))
      (ground arith)
strtoll-print_octal sets errno (negsuc n) h =
    rw
      (
        print_unsigned_unsigned 8 (u64_mod - 1 - n) (omega arith) (omega arith),
        magnitude-octal (u64_mod - 1 - n) (omega arith),
      )
      (ground arith)

strtoll-print_hex :
    (sets : Bool) (errno : Errno) (z : ℤ)
    → fits z ≡ true
    → (strtoll sets errno 16 (print_hex (to_uint64 z))).0 ≡ read_back z
unfolding strtoll clamp_signed to_uint64 take_sign skip_spaces is_space
strtoll-print_hex sets errno (pos n) h = rw (magnitude-hex n (ground arith)) (ground arith)
strtoll-print_hex sets errno (negsuc n) h =
    rw (magnitude-hex (u64_mod - 1 - n) (omega arith)) (ground arith)

octal_started :
    (sets : Bool) (n : ℕ)
    → start_errno sets Errno.none_set 8 (unsigned_part (print_octal n)) ≡ Errno.none_set
octal_started sets n =
    rw (print_unsigned_unsigned 8 n (omega arith) (omega arith), unsigned_part)
      (start_errno-print_unsigned sets Errno.none_set 8 n (omega arith) (omega arith))

hex_started :
    (sets : Bool) (n : ℕ)
    → start_errno sets Errno.none_set 16 (unsigned_part (print_hex n)) ≡ Errno.none_set
unfolding take_sign skip_spaces is_space
hex_started sets n = start_errno-print_hex sets Errno.none_set n

bits_lt : (z : ℤ) → fits z ≡ true → to_uint64 z < 2 ^ 64
unfolding to_uint64
bits_lt (pos n) h = ground arith
bits_lt (negsuc n) h = ground arith

module _ (L : Lua) (v : L.Value) (p : ℕ) (z : ℤ)
    (boxed : is_user_data L v (some "l2dbus.int64") ≡ some p) (held : L.block p ≡ Block.int64 z)
    (word : fits z ≡ true) where
  open L use {Value, lua_type, is_number, to_integer, to_string}

  checked : check_udata L v "l2dbus.int64" ≡ ok p
  unfolding check_udata
  checked = rw (boxed, check_udata)

  reads : read_int64 L p ≡ ok z
  unfolding read_int64
  reads = rw (held, read_int64)

  cast_decimal :
      (w : Value)
      → to_string w ≡ print_decimal z
      → cast_string L Errno.none_set w invalid_index ≡ ok (z, Errno.none_set)
  unfolding cast_string is_base
  cast_decimal w e =
      let parsed : strtoll L.sets_einval Errno.none_set 10 (to_string w) ≡ (z, Errno.none_set) =
        rw e (strtoll-print_decimal L.sets_einval Errno.none_set z word) in
      ground (arith, parsed)

  -- For an Int64 that holds an `int64_t`: `toString` in base 10 returns a text that fits the buffer of
  -- 64 bytes, and the cast of a Lua string with that text is the number again.
  pub int64_to_string-cast :
      (s : Bytes) × (int64_to_string L v none ≡ ok s)
      × (length s < 64)
      × ((w : Value)
          → lua_type w ≡ LuaType.string
          → to_string w ≡ s
          → int64_cast L Errno.none_set w invalid_index ≡ ok (z, Errno.none_set))
  unfolding int64_to_string base_argument int64_format int64_cast
  int64_to_string-cast = (
    print_decimal z,
    rw (checked, reads) refl,
    length-print_decimal z (ground arith),
    λ w k e. rw (k, int64_cast) (cast_decimal w e),
  )

  opt_int_given :
      (b : Value) (base : ℕ)
      → lua_type b ≡ LuaType.number
      → is_number b ≡ true
      → to_integer b ≡ pos base
      → base < 2 ^ 31
      → opt_int L b (pos 10) ≡ ok (pos base)
  unfolding opt_int to_int32 to_uint32
  opt_int_given b base kb number is small = rw (kb, opt_int) (rw (number, is) (ground arith))

  -- The same cast of a text in another base, `Int64.new(text, base)`.
  new_in_base :
      (w b : Value) (base : ℕ) (s : Bytes)
      → (base ≡ 8) ⊎ (base ≡ 16)
      → lua_type w ≡ LuaType.string
      → lua_type b ≡ LuaType.number
      → is_number b ≡ true
      → to_integer b ≡ pos base
      → to_string w ≡ s
      → (strtoll L.sets_einval Errno.none_set base s).0 ≡ read_back z
      → start_errno L.sets_einval Errno.none_set base (unsigned_part s) ≡ Errno.none_set
      → new_int64 L Errno.none_set (w ∷ b ∷ []) ≡ ok (read_back z)
  unfolding new_int64 int64_cast cast_string is_base
  new_in_base w b base s which kw kb number is text parsed started =
      let value : (strtoll L.sets_einval Errno.none_set base (to_string w)).0 ≡ read_back z =
        rw text parsed in
      let small : base < 2 ^ 31 = ground arith in
      let clear : start_errno L.sets_einval Errno.none_set base (unsigned_part (to_string w))
          ≡ Errno.none_set =
        rw text started in
      rw (kw, int64_cast, opt_int_given b base kb number is small, cast_string)
        (ground
          (arith, strtoll-errno L.sets_einval Errno.none_set base (to_string w), value, clear))

  base_given :
      (b : Value) (base : ℕ)
      → is_number b ≡ true
      → to_integer b ≡ pos base
      → base < 2 ^ 31
      → base_argument L (some b) ≡ ok (pos base)
  unfolding base_argument to_int32 to_uint32
  base_given b base number is small = rw (number, is) (ground arith)

  -- For an Int64 that holds an `int64_t`, and base 8 or 16: `toString` returns a text that fits the
  -- buffer of 64 bytes, and `Int64.new` of a Lua string with that text and the same base is the number
  -- again, unless it is negative: then it is INT64_MAX.
  pub int64_to_string-new :
      (b : Value)
      → lua_type b ≡ LuaType.number
      → is_number b ≡ true
      → (to_integer b ≡ pos 8) ⊎ (to_integer b ≡ pos 16)
      → (s : Bytes) × (int64_to_string L v (some b) ≡ ok s)
        × (length s < 64)
        × ((w : Value)
            → lua_type w ≡ LuaType.string
            → to_string w ≡ s
            → new_int64 L Errno.none_set (w ∷ b ∷ []) ≡ ok (read_back z))
  unfolding int64_to_string int64_format
  int64_to_string-new b kb number (inl is) = (
    print_octal (to_uint64 z),
    rw (checked, base_given b 8 number is (omega arith), reads) refl,
    length-print_octal (to_uint64 z) (bits_lt z word),
    λ w kw e.
        new_in_base w b 8 _ (inl refl) kw kb number is e
          (strtoll-print_octal L.sets_einval _ z word) (octal_started L.sets_einval (to_uint64 z)),
  )
  int64_to_string-new b kb number (inr is) = (
    print_hex (to_uint64 z),
    rw (checked, base_given b 16 number is (omega arith), reads) refl,
    length-print_hex (to_uint64 z) (bits_lt z word),
    λ w kw e.
        new_in_base w b 16 _ (inr refl) kw kb number is e (strtoll-print_hex L.sets_einval _ z word)
          (hex_started L.sets_einval (to_uint64 z)),
  )
