-- ===== src/Int64/Division.antt =====
-- `__div` and `__mod` of src/l2dbus_int64.c.
use native.Mathlib.Nat.{div-le_self, div-lt_self, mod-lt}
use l2dbus.Base.{zero, suc, ◌/◌, ◌<◌, ◌≡◌, ◌≢◌, ◌⊎◌, refl, arith, true, false, ok, undefined, Fault}
use l2dbus.Base.Int.{ℤ, pos, negsuc, abs, eqb_ℤ, ◌*ℤ◌, ◌+ℤ◌, ◌/ℤ◌, ◌%ℤ◌, /ℤ-%ℤ, abs-%ℤ}
use l2dbus.Boxed.{invalid_index}
use l2dbus.C.Words.{fits, int64_min, div64, mod64}
use l2dbus.C.Strings.{Errno}
use l2dbus.Lua.{Lua}
use l2dbus.Int64.{int64_cast, int64_divide, int64_modulus}

nonzero : (b : ℤ) → b ≢ pos 0 → eqb_ℤ b (pos 0) ≡ false
nonzero b h = ground arith

abs_pos : (b : ℤ) → b ≢ pos 0 → 0 < abs b
abs_pos (pos zero) h = absurd (h refl)
abs_pos (pos (suc b)) h = omega arith
abs_pos (negsuc b) h = omega arith

-- Only INT64_MIN / -1 leaves the range.
fits-/ℤ :
    (a b : ℤ) → fits a ≡ true → b ≢ pos 0 → (a ≢ int64_min) ⊎ (b ≢ negsuc 0) → fits (a /ℤ b) ≡ true
unfolding ◌/ℤ◌
fits-/ℤ (pos a) (pos b) ha hb h = ground (arith, div-le_self a b)
fits-/ℤ (pos a) (negsuc b) ha hb h = ground (arith, div-le_self a (suc b))
fits-/ℤ (negsuc a) (pos b) ha hb h = ground (arith, div-le_self (suc a) b)
fits-/ℤ (negsuc a) (negsuc zero) ha hb h = let e : suc a / 1 ≡ suc a = omega arith in ground arith
fits-/ℤ (negsuc a) (negsuc (suc b)) ha hb h =
    ground (arith, div-lt_self {n = suc a} {k = suc (suc b)} (omega arith) (omega arith))

module _ (L : Lua) (errno e₁ e₂ : Errno) (x y : L.Value) (a b : ℤ)
    (left : int64_cast L errno x invalid_index ≡ ok (a, e₁))
    (right : int64_cast L e₁ y invalid_index ≡ ok (b, e₂)) where
  -- Where the operands are cast to `a` and to 0: neither `__div` nor `__mod` catches the zero, and
  -- both divide by it.
  pub int64_divide-zero :
      b ≡ pos 0
      → (int64_divide L errno x y ≡ undefined Fault.division_by_zero)
        × (int64_modulus L errno x y ≡ undefined Fault.division_by_zero)
  unfolding int64_divide int64_modulus div64 mod64
  int64_divide-zero h = (rw (left, right, h), rw (left, right, h))

  -- Where the operands are cast to the `int64_t` values `a` and `b`, `b` is not 0, and they are not
  -- INT64_MIN and -1: `__div` and `__mod` return a `q` and an `r` with q * b + r = a and |r| < |b|.
  pub int64_divide-modulus :
      fits a ≡ true
      → b ≢ pos 0
      → (a ≢ int64_min) ⊎ (b ≢ negsuc 0)
      → (q r : ℤ) × (int64_divide L errno x y ≡ ok q)
        × (int64_modulus L errno x y ≡ ok r)
        × (q *ℤ b +ℤ r ≡ a)
        × (abs r < abs b)
  unfolding int64_divide int64_modulus div64 mod64
  int64_divide-modulus ha hb h = (
    a /ℤ b,
    a %ℤ b,
    rw (left, right, nonzero b hb, fits-/ℤ a b ha hb h),
    rw (left, right, nonzero b hb, fits-/ℤ a b ha hb h),
    /ℤ-%ℤ a b,
    rw (abs-%ℤ a b) (mod-lt (abs a) (abs_pos b hb)),
  )
