-- ===== src/C/Print.antt =====
-- `sprintf` of a `uint64_t` in base 8, 10 or 16, and `strtoull` on what it prints.
use native.Mathlib.Nat.{pow-zero, mod-lt, div-lt_iff_lt-mul, div-add-mod, pow-suc}
use l2dbus.Base.{
  Bool, ℕ, zero, suc, ◌+◌, ◌-◌, ◌*◌, ◌/◌, ◌%◌, ◌^◌, ◌≤◌, ◌<◌, ◌≡◌, ◌∙◌, ap, refl, inl, inr, arith,
  true, false, Bool-cases, some, [], ◌∷◌, ltb, ◌==◌, if◌then◌else◌, length,
}
use l2dbus.C.Strings.{
  Errno, has_digits, start_errno, digit_value, digit_in, read_digits, skip_spaces, is_space,
  take_sign, magnitude, has_hex_prefix, after_prefix,
}
use l2dbus.Base.Int.{ℤ, pos, negsuc, abs}
use l2dbus.Lua.{Bytes}

abbrev pub digit_char : ℕ → ℕ
digit_char d = if ltb d 10 then b'0' + d else b'a' + (d - 10)

-- The digits of `n` in front of `rest`. A word has at most 64 digits, which is the fuel.
unfoldable pub digits : ℕ → ℕ → ℕ → Bytes → Bytes
digits zero base n rest = rest
digits (suc fuel) base n rest =
    let longer = digits fuel base (n / base) (digit_char (n % base) ∷ rest) in
    if n / base == 0 then digit_char (n % base) ∷ rest else longer

abbrev pub print_unsigned : ℕ → ℕ → Bytes
print_unsigned base n = digits 64 base n []

-- A digit is read back.
digit_in-digit_char : (base d : ℕ) → base ≤ 16 → d < base → digit_in base (digit_char d) ≡ some d
unfolding digit_in digit_value
digit_in-digit_char base d hb hd = ground arith

module _ (base : ℕ) (two : 2 ≤ base) (sixteen : base ≤ 16) where
  last_digit : (n : ℕ) → digit_in base (digit_char (n % base)) ≡ some (n % base)
  last_digit n = digit_in-digit_char base (n % base) sixteen (mod-lt n (omega (arith, two)))

  quotient_less : (n f : ℕ) → n < base ^ suc f → n / base < base ^ f
  quotient_less n f h =
      (div-lt_iff_lt-mul {k = base} {x = n} {y = base ^ f} (omega (arith, two))).1
        (rw (← pow-suc base f) h)

  rebuilt : (n : ℕ) → n / base * base + n % base ≡ n
  rebuilt n = grind (arith, div-add-mod n base)

  single : (n : ℕ) → (n / base == 0) ≡ true → 0 * base + n % base ≡ n
  single n h = let z : n / base ≡ 0 = ground arith in rw (← z) (rebuilt n)

  -- Where digits are left, there is room for them.
  room : (f n : ℕ) → n < base ^ suc f → (n / base == 0) ≡ false → 0 < f
  room zero n h more =
      let none_left : n / base < 1 = rw (← pow-zero base) (quotient_less n 0 h) in
      absurd (ground arith)
  room (suc f) n h more = omega arith

  -- Reading the digits of `n` comes to `n`, whatever follows them.
  pub read_digits-digits :
      (f n : ℕ) (rest : Bytes)
      → n < base ^ f
      → 0 < f
      → read_digits base 0 (digits f base n rest) ≡ read_digits base n rest
  unfolding digits read_digits
  read_digits-digits zero n rest h pos_f = absurd (omega arith)
  read_digits-digits (suc f) n rest h pos_f = elim (Bool-cases (n / base == 0)) [
    | inl one ↦
        rw (one, last_digit n, read_digits) (ap (λ m. read_digits base m rest) (single n one))
    | inr more ↦
        let left = room f n h more in
        rw more (
          read_digits-digits f (n / base) _ (quotient_less n f h) left
          ∙ rw (last_digit n, read_digits) (ap (λ m. read_digits base m rest) (rebuilt n)))
  ]

  one_digit : (c : Bool) {s : Bytes} → (if c then s else s) ≡ s
  one_digit true = refl
  one_digit false = refl

  -- The digits begin with a digit.
  pub digits_head :
      (f n : ℕ) (rest : Bytes)
      → (d : ℕ) × (s : Bytes) × (d < base) × (digits (suc f) base n rest ≡ digit_char d ∷ s)
  unfolding digits
  digits_head zero n rest =
      (n % base, rest, mod-lt n (omega (arith, two)), one_digit (n / base == 0))
  digits_head (suc f) n rest = elim (Bool-cases (n / base == 0)) [
    | inl one ↦ (n % base, rest, mod-lt n (omega (arith, two)), rw one)
    | inr more ↦
        let (d, s, small, e) = digits_head f (n / base) (digit_char (n % base) ∷ rest) in
        (d, s, small, rw more e)
  ]

  -- A number below `base ^ suc k` has at most `suc k` digits.
  pub length-digits :
      (f k n : ℕ) (rest : Bytes)
      → n < base ^ suc k
      → length (digits f base n rest) ≤ suc k + length rest
  unfolding digits
  length-digits zero k n rest h = omega arith
  length-digits (suc f) k n rest h = elim (Bool-cases (n / base == 0)) [
    | inl one ↦ rw one (omega arith)
    | inr more ↦ elim (Bool-cases (k == 0)) [
      | inl first ↦ let z : k ≡ 0 = ground arith in absurd (omega (arith, room k n h more, z))
      | inr later ↦
          let e : k ≡ suc (k - 1) = ground arith in
          let h' : n / base < base ^ suc (k - 1) = rw (← e) (quotient_less n k h) in
          rw more
            (omega (arith, length-digits f (k - 1) (n / base) (digit_char (n % base) ∷ rest) h', e))
    ]
  ]

-- A digit is neither white space nor a sign.
digit_first :
    (d : ℕ) (s : Bytes)
    → d < 16
    → take_sign (skip_spaces (digit_char d ∷ s)) ≡ (false, digit_char d ∷ s)
unfolding take_sign skip_spaces is_space
digit_first d s h = ground arith

pub print_unsigned_unsigned :
    (base n : ℕ)
    → 2 ≤ base
    → base ≤ 16
    → take_sign (skip_spaces (print_unsigned base n)) ≡ (false, print_unsigned base n)
print_unsigned_unsigned base n two sixteen =
    let (d, s, small, e) = digits_head base two sixteen 63 n [] in
    rw e (digit_first d s (omega (arith, small, sixteen)))

-- A printed number has digits.
pub start_errno-print_unsigned :
    (sets : Bool) (errno : Errno) (base n : ℕ)
    → 2 ≤ base
    → base ≤ 16
    → start_errno sets errno base (print_unsigned base n) ≡ errno
unfolding start_errno has_digits
start_errno-print_unsigned sets errno base n two sixteen =
    let (d, s, small, e) = digits_head base two sixteen 63 n [] in
    let some_base : (base == 0) ≡ false = ground (arith, two) in
    rw e (simp (has_digits, some_base, digit_in-digit_char base d sixteen small) (ground arith))

pub start_errno-print_hex :
    (sets : Bool) (errno : Errno) (n : ℕ)
    → start_errno sets errno 16 (b'0' ∷ b'x' ∷ print_unsigned 16 n) ≡ errno
unfolding start_errno has_digits digit_in digit_value
start_errno-print_hex sets errno n = ground arith

-- `sprintf` with the formats "%o", "%d" and "0x%x".
abbrev pub print_octal : ℕ → Bytes
print_octal n = print_unsigned 8 n

abbrev pub print_decimal : ℤ → Bytes
print_decimal (pos n) = print_unsigned 10 n
print_decimal (negsuc n) = b'-' ∷ print_unsigned 10 (suc n)

abbrev pub print_hex : ℕ → Bytes
print_hex n = b'0' ∷ b'x' ∷ print_unsigned 16 n

-- The digits that are read are the number that was printed.
pub magnitude-decimal : (n : ℕ) → n < 2 ^ 64 → magnitude 10 (print_unsigned 10 n) ≡ n
unfolding magnitude read_digits
magnitude-decimal n h =
    read_digits-digits 10 (omega arith) (omega arith) 64 n [] (omega arith) (omega arith)

pub magnitude-octal : (n : ℕ) → n < 2 ^ 64 → magnitude 8 (print_octal n) ≡ n
unfolding magnitude read_digits
magnitude-octal n h =
    read_digits-digits 8 (omega arith) (omega arith) 64 n [] (omega arith) (omega arith)

hex_prefix : (n : ℕ) → has_hex_prefix (print_hex n) ≡ true
unfolding has_hex_prefix
hex_prefix n =
    let (d, s, small, e) = digits_head 16 (omega arith) (omega arith) 63 n [] in
    rw (e, digit_in-digit_char 16 d (omega arith) small)

pub magnitude-hex : (n : ℕ) → n < 2 ^ 64 → magnitude 16 (print_hex n) ≡ n
unfolding magnitude read_digits after_prefix
magnitude-hex n h =
    rw (hex_prefix n)
      (read_digits-digits 16 (omega arith) (omega arith) 64 n [] (omega arith) (omega arith))

-- What is printed fits `char buf[64]`, with the terminating zero.
pub length-print_octal : (n : ℕ) → n < 2 ^ 64 → length (print_octal n) < 64
length-print_octal n h =
    omega (arith, length-digits 8 (omega arith) (omega arith) 64 21 n [] (omega arith))

pub length-print_decimal : (z : ℤ) → abs z < 2 ^ 64 → length (print_decimal z) < 64
length-print_decimal (pos n) h =
    omega (arith, length-digits 10 (omega arith) (omega arith) 64 20 n [] (omega arith))
length-print_decimal (negsuc n) h =
    omega (arith, length-digits 10 (omega arith) (omega arith) 64 20 (suc n) [] (omega arith))

pub length-print_hex : (n : ℕ) → n < 2 ^ 64 → length (print_hex n) < 64
length-print_hex n h =
    omega (arith, length-digits 16 (omega arith) (omega arith) 64 15 n [] (omega arith))
