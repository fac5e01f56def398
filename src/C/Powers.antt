-- ===== src/C/Powers.antt =====
-- Powers of natural numbers, also modulo a number: what exponentiation by squaring rests on.
use native.Mathlib.Nat.{
  pow-zero, pow-suc, add-mul-mod_self_left, mul_comm, mul_assoc, one-le-pow, pow-le-pow_right,
}
use l2dbus.Base.{ℕ, zero, suc, ◌+◌, ◌*◌, ◌/◌, ◌%◌, ◌^◌, ◌≤◌, ◌<◌, ◌≡◌, sym, ap, ◌∙◌, arith}

pub pow_succ : (a n : ℕ) → a ^ suc n ≡ a * a ^ n
pow_succ a n = pow-suc a n ∙ mul_comm (a ^ n) a

pub mod-mul : (a b m : ℕ) → a % m * b % m ≡ a * b % m
mod-mul a b m =
    let e : a * b ≡ a % m * b + m * (a / m * b) = grind arith in
    rw e (sym (add-mul-mod_self_left (a % m * b) m (a / m * b)))

pub mul-mod : (a b m : ℕ) → a * (b % m) % m ≡ a * b % m
mul-mod a b m = rw (mul_comm a (b % m), mod-mul b a m, mul_comm b a)

pub pow-mod : (a n m : ℕ) → (a % m) ^ n % m ≡ a ^ n % m
pow-mod a zero m = simp pow-zero
pow-mod a (suc n) m =
    rw (pow_succ (a % m) n, pow_succ a n, mod-mul a ((a % m) ^ n) m)
      (sym (mul-mod a ((a % m) ^ n) m)
        ∙ ap (λ (t : ℕ). a * t % m) (pow-mod a n m)
        ∙ mul-mod a (a ^ n) m)

pub pow-square : (a n : ℕ) → (a * a) ^ n ≡ a ^ (n + n)
pow-square a zero = simp pow-zero
pow-square a (suc n) =
    let e : suc n + suc n ≡ suc (suc (n + n)) = omega arith in
    rw (e, pow_succ (a * a) n, pow_succ a (suc (n + n)), pow_succ a (n + n), pow-square a n)
      (mul_assoc a a (a ^ (n + n)))

-- A positive power is at least its base.
pub le-pow : (a n : ℕ) → 0 < n → a ≤ a ^ n
le-pow zero n h = omega arith
le-pow (suc a) (suc n) h = rw (pow_succ (suc a) n) (grind (arith, one-le-pow n (suc a)))
le-pow (suc a) zero h = elim h [ ]

pub pow_mono : (a m n : ℕ) → 0 < a → m ≤ n → a ^ m ≤ a ^ n
pow_mono a m n h p = pow-le-pow_right h p
