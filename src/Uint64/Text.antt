-- ===== src/Uint64/Text.antt =====
-- `toString` of src/l2dbus_uint64.c, and the text read back by the constructor.
use l2dbus.Base.{
  Bool, ℕ, ◌<◌, ◌≤◌, ◌^◌, ◌≡◌, ◌⊎◌, refl, inl, inr, arith, true, Option, none, some, [], ◌∷◌,
  if◌then◌else◌, Result, ok, lua_error, Error, ◌>>=◌, length,
}
use l2dbus.Base.Int.{ℤ, pos, eqb_ℤ}
use l2dbus.Boxed.{check_udata, base_argument, read_uint64, invalid_index, is_base, opt_int}
use l2dbus.C.Print.{
  start_errno-print_unsigned, start_errno-print_hex, print_octal, print_hex, print_unsigned,
  print_unsigned_unsigned, magnitude-decimal, magnitude-octal, magnitude-hex, length-print_octal,
  length-print_decimal, length-print_hex,
}
use l2dbus.C.Strings.{Errno, strtoull, clamp_unsigned, take_sign, skip_spaces, is_space}
use l2dbus.C.Words.{to_int32, to_uint32, u64_mod}
use l2dbus.Lua.{Lua, LuaType, Bytes, Block}
use l2dbus.Util.{is_user_data}
use l2dbus.Uint64.{uint64_cast, cast_string, new_uint64}

-- The format that is chosen for a base.
unfoldable pub uint64_format : ℤ → Option (ℕ → Bytes)
uint64_format base =
    if eqb_ℤ base (pos 8)
    then some print_octal
    else if eqb_ℤ base (pos 10)
    then some (print_unsigned 10)
    else if eqb_ℤ base (pos 16)
    then some print_hex
    else none

unfoldable pub uint64_to_string : (L : Lua) → L.Value → Option L.Value → Result Bytes
uint64_to_string L v arg = do
  p ← check_udata L v "l2dbus.uint64"
  base ← base_argument L arg
  elim (uint64_format base) [
    | none ↦ lua_error Error.unsupported_base
    | some print ↦ do n ← read_uint64 L p; ok (print n)
  ]

-- `strtoull` on what was printed.
abbrev Parses : ℕ → (ℕ → Bytes) → Type 0
Parses base print =
    (sets : Bool) (errno : Errno) (n : ℕ)
    → n < u64_mod
    → strtoull sets errno base (print n) ≡ (n, errno)

strtoull-decimal : Parses 10 (print_unsigned 10)
unfolding strtoull clamp_unsigned
strtoull-decimal sets errno n h =
    rw
      (
        print_unsigned_unsigned 10 n (omega arith) (omega arith),
        magnitude-decimal n h,
        start_errno-print_unsigned sets errno 10 n (omega arith) (omega arith),
      )
      (ground arith)

strtoull-octal : Parses 8 print_octal
unfolding strtoull clamp_unsigned
strtoull-octal sets errno n h =
    rw
      (
        print_unsigned_unsigned 8 n (omega arith) (omega arith),
        magnitude-octal n h,
        start_errno-print_unsigned sets errno 8 n (omega arith) (omega arith),
      )
      (ground arith)

strtoull-hex : Parses 16 print_hex
unfolding strtoull clamp_unsigned take_sign skip_spaces is_space
strtoull-hex sets errno n h =
    rw (magnitude-hex n h, start_errno-print_hex sets errno n) (ground arith)

module _ (L : Lua) (v : L.Value) (p n : ℕ)
    (boxed : is_user_data L v (some "l2dbus.uint64") ≡ some p) (held : L.block p ≡ Block.uint64 n)
    (word : n < u64_mod) where
  open L use {Value, lua_type, is_number, to_integer, to_string}

  checked : check_udata L v "l2dbus.uint64" ≡ ok p
  unfolding check_udata
  checked = rw (boxed, check_udata)

  reads : read_uint64 L p ≡ ok n
  unfolding read_uint64
  reads = rw (held, read_uint64)

  cast_decimal :
      (w : Value)
      → to_string w ≡ print_unsigned 10 n
      → cast_string L Errno.none_set w invalid_index ≡ ok (n, Errno.none_set)
  unfolding cast_string is_base
  cast_decimal w e =
      let parsed : strtoull L.sets_einval Errno.none_set 10 (to_string w) ≡ (n, Errno.none_set) =
        rw e (strtoull-decimal L.sets_einval Errno.none_set n word) in
      ground (arith, parsed)

  opt_int_given :
      (b : Value) (base : ℕ)
      → lua_type b ≡ LuaType.number
      → is_number b ≡ true
      → to_integer b ≡ pos base
      → base < 2 ^ 31
      → opt_int L b (pos 10) ≡ ok (pos base)
  unfolding opt_int to_int32 to_uint32
  opt_int_given b base kb number is small = rw (kb, opt_int) (rw (number, is) (ground arith))

  base_given :
      (b : Value) (base : ℕ)
      → is_number b ≡ true
      → to_integer b ≡ pos base
      → base < 2 ^ 31
      → base_argument L (some b) ≡ ok (pos base)
  unfolding base_argument to_int32 to_uint32
  base_given b base number is small = rw (number, is) (ground arith)

  -- `Uint64.new(text, base)` for a printed text.
  new_in_base :
      (w b : Value) (base : ℕ) (print : ℕ → Bytes)
      → Parses base print
      → 2 ≤ base
      → base ≤ 36
      → lua_type w ≡ LuaType.string
      → lua_type b ≡ LuaType.number
      → is_number b ≡ true
      → to_integer b ≡ pos base
      → to_string w ≡ print n
      → new_uint64 L Errno.none_set (w ∷ b ∷ []) ≡ ok n
  unfolding new_uint64 uint64_cast cast_string is_base
  new_in_base w b base print parses two high kw kb number is text =
      let parsed : strtoull L.sets_einval Errno.none_set base (to_string w) ≡ (n, Errno.none_set) =
        rw text (parses L.sets_einval Errno.none_set n word) in
      rw (kw, uint64_cast, opt_int_given b base kb number is (omega (arith, high)), cast_string)
        (ground (arith, parsed))

  -- For a Uint64 that holds a `uint64_t`: `toString` in base 10 returns a text that fits the buffer of
  -- 64 bytes, and the cast of a Lua string with that text is the number again.
  pub uint64_to_string-cast :
      (s : Bytes) × (uint64_to_string L v none ≡ ok s)
      × (length s < 64)
      × ((w : Value)
          → lua_type w ≡ LuaType.string
          → to_string w ≡ s
          → uint64_cast L Errno.none_set w invalid_index ≡ ok (n, Errno.none_set))
  unfolding uint64_to_string base_argument uint64_format uint64_cast
  uint64_to_string-cast = (
    print_unsigned 10 n,
    rw (checked, reads) refl,
    length-print_decimal (pos n) (omega (arith, word)),
    λ w k e. rw (k, uint64_cast) (cast_decimal w e),
  )

  -- For a Uint64 that holds a `uint64_t`, and base 8 or 16: `toString` returns a text that fits the
  -- buffer of 64 bytes, and `Uint64.new` of a Lua string with that text and the same base is the number
  -- again.
  pub uint64_to_string-new :
      (b : Value)
      → lua_type b ≡ LuaType.number
      → is_number b ≡ true
      → (to_integer b ≡ pos 8) ⊎ (to_integer b ≡ pos 16)
      → (s : Bytes) × (uint64_to_string L v (some b) ≡ ok s)
        × (length s < 64)
        × ((w : Value)
            → lua_type w ≡ LuaType.string
            → to_string w ≡ s
            → new_uint64 L Errno.none_set (w ∷ b ∷ []) ≡ ok n)
  unfolding uint64_to_string uint64_format
  uint64_to_string-new b kb number (inl is) = (
    print_octal n,
    rw (checked, base_given b 8 number is (omega arith), reads) refl,
    length-print_octal n word,
    λ w kw e.
        new_in_base w b 8 print_octal strtoull-octal (omega arith) (omega arith) kw kb number is e,
  )
  uint64_to_string-new b kb number (inr is) = (
    print_hex n,
    rw (checked, base_given b 16 number is (omega arith), reads) refl,
    length-print_hex n word,
    λ w kw e.
        new_in_base w b 16 print_hex strtoull-hex (omega arith) (omega arith) kw kb number is e,
  )
