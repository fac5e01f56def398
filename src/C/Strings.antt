-- ===== src/C/Strings.antt =====
-- `strtoll` and `strtoull` of the C standard library: white space, a sign, the prefix of the base,
-- digits. A value out of range is replaced by the nearest one, and `errno` is set.
use l2dbus.Base.{
  ◌<◌, ℕ, ◌+◌, ◌-◌, ◌*◌, ◌%◌, ◌^◌, Bool, true, false, ◌&&◌, ◌||◌, not, refl, Option, none, some, [],
  ◌∷◌, ltb, leb, ◌==◌, if◌then◌else◌, ◌≡◌, ◌⊎◌, arith,
}
use l2dbus.Base.Int.{ℤ, pos, sub_ℕ, eqb_ℤ}
use l2dbus.C.Words.{fits, int64_min, int64_max, u64_mod}
use l2dbus.Lua.{Bytes}

pub data Errno : Type 0 where
  none_set einval erange other : Errno

unfoldable pub is_space : ℕ → Bool
is_space c = c == 32 || (leb 9 c && leb c 13)

unfoldable pub skip_spaces : Bytes → Bytes
skip_spaces [] = []
skip_spaces (c ∷ s) = if is_space c then skip_spaces s else c ∷ s

-- The sign, `true` for a minus, and what follows.
unfoldable pub take_sign : Bytes → Bool × Bytes
take_sign [] = (false, [])
take_sign (c ∷ s) =
    if c == b'-' then (true, s) else if c == b'+' then (false, s) else (false, c ∷ s)

unfoldable pub digit_value : ℕ → Option ℕ
digit_value c =
    if leb b'0' c && leb c b'9'
    then some (c - b'0')
    else if leb b'a' c && leb c b'z'
    then some (c - b'a' + 10)
    else if leb b'A' c && leb c b'Z'
    then some (c - b'A' + 10)
    else none

unfoldable pub digit_in : ℕ → ℕ → Option ℕ
unfolding digit_value
digit_in base c = elim (digit_value c) [
  | none ↦ none
  | some d ↦ if ltb d base then some d else none
]

unfoldable pub read_digits : ℕ → ℕ → Bytes → ℕ
read_digits base acc [] = acc
read_digits base acc (c ∷ s) = elim (digit_in base c) [
  | none ↦ acc
  | some d ↦ read_digits base (acc * base + d) s
]

-- Whether "0x" and a hexadecimal digit stand in front.
unfoldable pub has_hex_prefix : Bytes → Bool
has_hex_prefix (z ∷ x ∷ d ∷ s) =
    z == b'0' && (x == b'x' || x == b'X') && elim (digit_in 16 d) [ none ↦ false | some _ ↦ true ]
has_hex_prefix _ = false

unfoldable pub after_prefix : Bytes → Bytes
after_prefix (z ∷ x ∷ s) = s
after_prefix s = s

unfoldable pub starts_with_zero : Bytes → Bool
starts_with_zero [] = false
starts_with_zero (c ∷ s) = c == b'0'

-- The magnitude of the digits; base 0 reads the base off the prefix.
unfoldable pub magnitude : ℕ → Bytes → ℕ
magnitude base s =
    if (base == 16 || base == 0) && has_hex_prefix s
    then read_digits 16 0 (after_prefix s)
    else if base == 0
    then read_digits (if starts_with_zero s then 8 else 10) 0 s
    else read_digits base 0 s

-- Whether there is a digit to convert, behind the sign. A prefix begins with a digit.
unfoldable pub has_digits : ℕ → Bytes → Bool
has_digits base [] = false
has_digits base (c ∷ s) = elim (digit_in (if base == 0 then 10 else base) c) [
  | none ↦ false
  | some d ↦ true
]

-- Where there is none, the value is 0 and `errno` may be set, as `sets` says.
unfoldable pub start_errno : (sets : Bool) → Errno → ℕ → Bytes → Errno
start_errno sets errno base s = if sets && not (has_digits base s) then Errno.einval else errno

-- What is converted of a text.
abbrev pub unsigned_part : Bytes → Bytes
unsigned_part s = (take_sign (skip_spaces s)).1

-- The value in range and `errno` afterwards: a value out of range sets it.
unfoldable pub clamp_signed : Errno → Bool → ℕ → ℤ × Errno
clamp_signed errno true m = if leb m (2 ^ 63) then (sub_ℕ 0 m, errno) else (int64_min, Errno.erange)
clamp_signed errno false m = if ltb m (2 ^ 63) then (pos m, errno) else (int64_max, Errno.erange)

unfoldable pub strtoll : (sets : Bool) → Errno → ℕ → Bytes → ℤ × Errno
strtoll sets errno base s =
    let signed = take_sign (skip_spaces s) in
    clamp_signed (start_errno sets errno base signed.1) signed.0 (magnitude base signed.1)

-- A minus sign negates modulo 2^64.
unfoldable pub clamp_unsigned : Errno → Bool → ℕ → ℕ × Errno
clamp_unsigned errno negative m =
    if ltb m u64_mod
    then ((if negative then (u64_mod - m) % u64_mod else m), errno)
    else (u64_mod - 1, Errno.erange)

unfoldable pub strtoull : (sets : Bool) → Errno → ℕ → Bytes → ℕ × Errno
strtoull sets errno base s =
    let signed = take_sign (skip_spaces s) in
    clamp_unsigned (start_errno sets errno base signed.1) signed.0 (magnitude base signed.1)

-- The value is in range; `errno` stays, or is set beside a value that is not zero.
clamp_signed-fits : (errno : Errno) (neg : Bool) (m : ℕ) → fits (clamp_signed errno neg m).0 ≡ true
unfolding clamp_signed
clamp_signed-fits errno true m = ground arith
clamp_signed-fits errno false m = ground arith

clamp_signed-errno :
    (errno : Errno) (neg : Bool) (m : ℕ)
    → let (z, e) = clamp_signed errno neg m in
      (e ≡ errno) ⊎ ((e ≡ Errno.erange) × (eqb_ℤ z (pos 0) ≡ false))
unfolding clamp_signed
clamp_signed-errno errno true m = ground arith
clamp_signed-errno errno false m = ground arith

pub strtoll-fits :
    (sets : Bool) (errno : Errno) (base : ℕ) (s : Bytes) → fits (strtoll sets errno base s).0 ≡ true
unfolding strtoll
strtoll-fits sets errno base s = clamp_signed-fits _ _ _

pub strtoll-errno :
    (sets : Bool) (errno : Errno) (base : ℕ) (s : Bytes)
    → let (z, e) = strtoll sets errno base s in
      (e ≡ start_errno sets errno base (unsigned_part s))
      ⊎ ((e ≡ Errno.erange) × (eqb_ℤ z (pos 0) ≡ false))
unfolding strtoll
strtoll-errno sets errno base s = clamp_signed-errno _ _ _

-- Without digits the value is 0.
magnitude-no_digits : (base : ℕ) (s : Bytes) → has_digits base s ≡ false → magnitude base s ≡ 0
unfolding has_digits magnitude read_digits has_hex_prefix digit_in digit_value
magnitude-no_digits base [] h = ground arith
magnitude-no_digits base (c ∷ s) h = ground arith

pub strtoll-no_digits :
    (sets : Bool) (errno : Errno) (base : ℕ) (s : Bytes)
    → has_digits base (unsigned_part s) ≡ false
    → (strtoll sets errno base s).0 ≡ pos 0
unfolding strtoll clamp_signed
strtoll-no_digits sets errno base s h =
    rw (magnitude-no_digits base (unsigned_part s) h) (ground arith)

-- The value does not depend on `errno`.
clamp_signed-value :
    (e e' : Errno) (neg : Bool) (m : ℕ) → (clamp_signed e neg m).0 ≡ (clamp_signed e' neg m).0
unfolding clamp_signed
clamp_signed-value e e' true m = ground arith
clamp_signed-value e e' false m = ground arith

pub strtoll-value :
    (sets : Bool) (e e' : Errno) (base : ℕ) (s : Bytes)
    → (strtoll sets e base s).0 ≡ (strtoll sets e' base s).0
unfolding strtoll
strtoll-value sets e e' base s = clamp_signed-value _ _ _ _

-- The string "0".
pub strtoll_naught : (sets : Bool) → (strtoll sets Errno.none_set 10 (b'0' ∷ [])).0 ≡ pos 0
unfolding strtoll clamp_signed take_sign skip_spaces is_space magnitude read_digits digit_in
strtoll_naught sets = refl

pub strtoull-lt :
    (sets : Bool) (errno : Errno) (base : ℕ) (s : Bytes) → (strtoull sets errno base s).0 < u64_mod
unfolding strtoull clamp_unsigned
strtoull-lt sets errno base s = ground arith
