-- ===== src/Int64/Power.antt =====
-- `__pow` of src/l2dbus_int64.c: exponentiation by squaring on signed integers.
use native.Mathlib.Nat.{mul_assoc, mul-le-mul_left}
use l2dbus.Base.{
  ℕ, zero, suc, ◌+◌, ◌*◌, ◌/◌, ◌%◌, ◌^◌, ◌≤◌, ◌<◌, ◌≡◌, sym, ap, ◌∙◌, inl, inr, arith, ◌==◌, true,
  false, Bool-cases, if◌then◌else◌, ok, undefined, Fault, >>=-eq-ok,
}
use l2dbus.Base.Int.{ℤ, pos, ◌*ℤ◌, ◌^ℤ◌, abs, *ℤ_assoc, one-*ℤ, *ℤ-one, abs-*ℤ, pow-double, ltb_ℤ}
use l2dbus.C.Powers.{pow_succ, pow-square, le-pow, pow_mono}
use l2dbus.C.Words.{mul64, fits}
use l2dbus.Int64.{power_loop, power}

-- A product that is computed is exact, and it is computed where it fits.
mul64-eq_ok : (a b c : ℤ) → mul64 a b ≡ ok c → c ≡ a *ℤ b
unfolding mul64
mul64-eq_ok a b c h = ground arith

mul64_fits : (a b : ℤ) → abs a * abs b < 2 ^ 63 → mul64 a b ≡ ok (a *ℤ b)
unfolding mul64
mul64_fits a b h = ground (arith, abs-*ℤ a b)

-- One round keeps the product that is left.
round_odd : (b r : ℤ) (e : ℕ) → (e % 2 == 1) ≡ true → r *ℤ b *ℤ (b *ℤ b) ^ℤ (e / 2) ≡ r *ℤ b ^ℤ e
unfolding ◌^ℤ◌
round_odd b r e h =
    let e' : e ≡ suc (e / 2 + e / 2) = ground arith in
    ap (◌*ℤ◌ (r *ℤ b)) (pow-double b (e / 2))
    ∙ *ℤ_assoc r b (b ^ℤ (e / 2 + e / 2))
    ∙ ap (λ (t : ℕ). r *ℤ b ^ℤ t) (sym e')

round_even : (b r : ℤ) (e : ℕ) → (e % 2 == 1) ≡ false → r *ℤ (b *ℤ b) ^ℤ (e / 2) ≡ r *ℤ b ^ℤ e
round_even b r e h =
    let e' : e ≡ e / 2 + e / 2 = ground arith in
    ap (◌*ℤ◌ r) (pow-double b (e / 2)) ∙ ap (λ (t : ℕ). r *ℤ b ^ℤ t) (sym e')

finished : (b r : ℤ) (e : ℕ) → (e == 0) ≡ true → r ≡ r *ℤ b ^ℤ e
unfolding ◌^ℤ◌
finished b r e h = let z : e ≡ 0 = ground arith in rw (z, *ℤ-one r)

-- The product of the round, where the bit is set.
chosen-exact :
    (b r r' : ℤ) (e : ℕ)
    → (if e % 2 == 1 then mul64 r b else ok r) ≡ ok r'
    → r' *ℤ (b *ℤ b) ^ℤ (e / 2) ≡ r *ℤ b ^ℤ e
chosen-exact b r r' e h = elim (Bool-cases (e % 2 == 1)) [
  | inl odd ↦ rw (mul64-eq_ok r b r' (rw odd at h)) (round_odd b r e odd)
  | inr even ↦ let same : r' ≡ r = ground arith in rw same (round_even b r e even)
]

-- What the loop returns is exact.
power_loop-exact : (f : ℕ) (b : ℤ) (e : ℕ) (r x : ℤ) → power_loop f b e r ≡ ok x → x ≡ r *ℤ b ^ℤ e
unfolding power_loop
power_loop-exact zero b e r x h = cc
power_loop-exact (suc f) b e r x h = elim (Bool-cases (e == 0)) [
  | inl z ↦ let h' : ok r ≡ ok x = rw (z, power_loop) at h in cc (finished b r e z)
  | inr more ↦
      let (r', chosen, h') = >>=-eq-ok _ _ (rw (more, power_loop) at h) in
      let (b', squared, h'') = >>=-eq-ok (mul64 b b) _ h' in
      power_loop-exact f b' (e / 2) r' x h''
      ∙ ap (λ t. r' *ℤ t ^ℤ (e / 2)) (mul64-eq_ok b b b' squared)
      ∙ chosen-exact b r r' e chosen
]

pow_bound : (a m n k : ℕ) → m ≤ n → 1 < k → a ^ n < k → a ^ m < k
pow_bound zero zero n k h one p = one
pow_bound zero (suc m) n k h one p = rw (pow_succ 0 m) (omega arith)
pow_bound (suc a) m n k h one p = omega (arith, pow_mono (suc a) m n (omega arith) h)

chosen_ok :
    (b r : ℤ) (e : ℕ)
    → 0 < e
    → abs r * abs b ^ e < 2 ^ 63
    → (r' : ℤ) × ((if e % 2 == 1 then mul64 r b else ok r) ≡ ok r')
      × (abs r' * abs (b *ℤ b) ^ (e / 2) < 2 ^ 63)
chosen_ok b r e more total = elim (Bool-cases (e % 2 == 1)) [
  | inl odd ↦
      let e' : e ≡ suc (e / 2 + e / 2) = ground arith in
      let small : abs r * abs b < 2 ^ 63 =
        omega (arith, mul-le-mul_left (abs r) (le-pow (abs b) e more)) in
      (
        r *ℤ b,
        rw odd (mul64_fits r b small),
        rw (abs-*ℤ r b, abs-*ℤ b b, pow-square (abs b) (e / 2))
            (rw
              (
                mul_assoc (abs r) (abs b) (abs b ^ (e / 2 + e / 2)),
                ← pow_succ (abs b) (e / 2 + e / 2),
                ← e',
              )
              total),
      )
  | inr even ↦
      let e' : e ≡ e / 2 + e / 2 = ground arith in
      (r, rw even, rw (abs-*ℤ b b, pow-square (abs b) (e / 2)) (rw (← e') total))
]

module _ (b r : ℤ) (e : ℕ) (more : 0 < e) (square : abs b ^ (e + e) < 2 ^ 63) where
  square_fits : mul64 b b ≡ ok (b *ℤ b)
  square_fits = mul64_fits b b (omega (arith, le-pow (abs b * abs b) e more, pow-square (abs b) e))

  next_square : abs (b *ℤ b) ^ (e / 2 + e / 2) < 2 ^ 63
  next_square =
      rw (abs-*ℤ b b, pow-square (abs b) (e / 2 + e / 2))
        (pow_bound (abs b) _ (e + e) _ (omega arith) (omega arith) square)

-- Where the last square fits, the loop returns.
power_loop_returns :
    (f : ℕ) (b : ℤ) (e : ℕ) (r : ℤ)
    → e < 2 ^ f
    → abs b ^ (e + e) < 2 ^ 63
    → abs r * abs b ^ e < 2 ^ 63
    → (x : ℤ) × (power_loop (suc f) b e r ≡ ok x)
unfolding power_loop
power_loop_returns zero b e r small square total =
    let z : (e == 0) ≡ true = ground arith in (r, rw (z, power_loop))
power_loop_returns (suc f) b e r small square total = elim (Bool-cases (e == 0)) [
  | inl z ↦ (r, rw (z, power_loop))
  | inr more ↦
      let pos_e : 0 < e = ground arith in
      let (r', chosen, total') = chosen_ok b r e pos_e total in
      let (x, rest) =
        power_loop_returns f (b *ℤ b) (e / 2) r' (omega (arith, pow_succ 2 f))
          (next_square b r e pos_e square) total' in
      (x, rw (more, power_loop) (rw (chosen, square_fits b r e pos_e square) rest))
]

-- For an exponent below 2^63 that is not negative, where the square of the power of the magnitude is
-- below 2^63: `__pow` returns, and its result is the exact power.
pub power-pow_exact :
    (b : ℤ) (e : ℕ) → e < 2 ^ 63 → abs b ^ (e + e) < 2 ^ 63 → power b (pos e) ≡ ok (b ^ℤ e)
unfolding power
power-pow_exact b e small square = elim (Bool-cases (ltb_ℤ (pos e) (pos 0))) [
  | inl neg ↦ absurd (ground arith)
  | inr nonneg ↦
      let total : 1 * abs b ^ e < 2 ^ 63 =
        omega (arith, pow_bound (abs b) e (e + e) (2 ^ 63) (omega arith) (omega arith) square) in
      let (x, returns) = power_loop_returns 63 b e (pos 1) small square total in
      let exact = power_loop-exact 64 b e (pos 1) x returns ∙ one-*ℤ (b ^ℤ e) in
      rw nonneg (returns ∙ ap ok exact)
]

-- The base is squared in the last round too: for a base that is an `int64_t` and whose square is
-- none, `base ^ 1` is a signed overflow, although the power is the base.
pub power_one_overflow :
    (b : ℤ)
    → fits b ≡ true
    → fits (b *ℤ b) ≡ false
    → power b (pos 1) ≡ undefined Fault.signed_overflow
unfolding power power_loop mul64
power_one_overflow b small large = rw (one-*ℤ b, small, large)
