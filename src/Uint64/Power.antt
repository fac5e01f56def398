-- ===== src/Uint64/Power.antt =====
-- `__pow` of src/l2dbus_uint64.c: exponentiation by squaring.
use native.Mathlib.Nat.{pow-zero, mul_assoc}
use l2dbus.Base.{
  ℕ, zero, suc, ◌+◌, ◌*◌, ◌/◌, ◌%◌, ◌^◌, ◌<◌, ◌≡◌, sym, ap, ◌∙◌, inl, inr, arith, ◌==◌, true,
  Bool-cases, if◌then◌else◌, ok,
}
use l2dbus.C.Powers.{pow_succ, mod-mul, mul-mod, pow-mod, pow-square}
use l2dbus.C.Words.{u64_mod}
use l2dbus.Uint64.{power_loop, power}

-- One round: the product that is left stays the same modulo m.
round :
    (b e r m : ℕ)
    → 0 < e
    → (if e % 2 == 1 then r * b % m else r) * (b * b % m) ^ (e / 2) % m ≡ r * b ^ e % m
round b e r m h = elim (Bool-cases (e % 2 == 1)) [
  | inl odd ↦
      let e' : e ≡ suc (e / 2 + e / 2) = ground arith in
      rw odd (
        mod-mul (r * b) ((b * b % m) ^ (e / 2)) m
        ∙ sym (mul-mod (r * b) ((b * b % m) ^ (e / 2)) m)
        ∙ ap (λ (t : ℕ). r * b * t % m) (pow-mod (b * b) (e / 2) m)
        ∙ mul-mod (r * b) ((b * b) ^ (e / 2)) m
        ∙ ap (λ (t : ℕ). t % m)
            (ap (λ (t : ℕ). r * b * t) (pow-square b (e / 2))
              ∙ mul_assoc r b (b ^ (e / 2 + e / 2))
              ∙ ap (λ (t : ℕ). r * t) (sym (pow_succ b (e / 2 + e / 2)))
              ∙ ap (λ (t : ℕ). r * b ^ t) (sym e')))
  | inr even ↦
      let e' : e ≡ e / 2 + e / 2 = ground arith in
      rw even (
        sym (mul-mod r ((b * b % m) ^ (e / 2)) m)
        ∙ ap (λ (t : ℕ). r * t % m) (pow-mod (b * b) (e / 2) m)
        ∙ mul-mod r ((b * b) ^ (e / 2)) m
        ∙ ap (λ (t : ℕ). r * t % m) (pow-square b (e / 2))
        ∙ ap (λ (t : ℕ). r * b ^ t % m) (sym e'))
]

-- When the exponent is used up the result is complete.
done : (b e r : ℕ) → r < u64_mod → (e == 0) ≡ true → r ≡ r * b ^ e % u64_mod
done b e r hr h = let z : e ≡ 0 = ground arith in rw (z, pow-zero b) (omega arith)

next_lt : (e r s : ℕ) → s < u64_mod → (if e % 2 == 1 then r % u64_mod else s) < u64_mod
next_lt e r s h = ground arith

power_loop_lem :
    (f b e r : ℕ) → r < u64_mod → e < 2 ^ f → power_loop (suc f) b e r ≡ ok (r * b ^ e % u64_mod)
unfolding power_loop
power_loop_lem zero b e r hr he =
    let z : (e == 0) ≡ true = ground arith in rw z (ap ok (done b e r hr z))
power_loop_lem (suc f) b e r hr he = elim (Bool-cases (e == 0)) [
  | inl z ↦ rw z (ap ok (done b e r hr z))
  | inr more ↦ rw more (
      power_loop_lem f (b * b % u64_mod) (e / 2) _ (next_lt e (r * b) r hr)
        (omega (arith, pow_succ 2 f))
      ∙ ap ok (round b e r u64_mod (ground arith)))
]

-- For every base and every 64-bit exponent the loop ends within its fuel, and the result is the
-- power modulo 2^64.
pub power-pow : (b e : ℕ) → e < u64_mod → power b e ≡ ok (b ^ e % u64_mod)
unfolding power
power-pow b e h =
    power_loop_lem 64 b e 1 (omega arith) h ∙ ap (λ (t : ℕ). ok (t % u64_mod)) (omega arith)
