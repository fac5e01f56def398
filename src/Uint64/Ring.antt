-- ===== src/Uint64/Ring.antt =====
-- `__add`, `__sub`, `__unm`, `__div` and `__mod` of src/l2dbus_uint64.c.
use native.Mathlib.Nat.{mod-lt, div-add-mod}
use l2dbus.Base.{ℕ, ◌+◌, ◌-◌, ◌*◌, ◌/◌, ◌%◌, ◌<◌, ◌≡◌, ◌≢◌, ◌==◌, refl, arith, false, ok}
use l2dbus.Boxed.{invalid_index}
use l2dbus.C.Strings.{Errno}
use l2dbus.C.Words.{u64_mod}
use l2dbus.Lua.{Lua}
use l2dbus.Uint64.{
  uint64_cast, uint64_add, uint64_subtract, uint64_negate, uint64_divide, uint64_modulus,
}

module _ (L : Lua) (errno e₁ e₂ : Errno) (x y : L.Value) (a b : ℕ)
    (left : uint64_cast L errno x invalid_index ≡ ok (a, e₁))
    (right : uint64_cast L e₁ y invalid_index ≡ ok (b, e₂)) where
  -- Where the operands are cast to the `uint64_t` values `a` and `b`: `__sub` returns the number that gives
  -- `a` when `b` is added modulo 2^64, and the sum that `__add` returns gives `a` when the opposite of
  -- `b` that `__unm` returns is added; both are below 2^64. Where `b` is not 0, `__div` and `__mod`
  -- return a `q` and an `r` with q * b + r = a and r < b.
  pub uint64_add-subtract :
      a < u64_mod
      → b < u64_mod
      → (s d m : ℕ) × (uint64_add L errno x y ≡ ok s)
        × (uint64_subtract L errno x y ≡ ok d)
        × (uint64_negate L e₁ y ≡ ok m)
        × (s < u64_mod)
        × (d < u64_mod)
        × ((d + b) % u64_mod ≡ a)
        × ((s + m) % u64_mod ≡ a)
        × (b ≢ 0
            → (q r : ℕ) × (uint64_divide L errno x y ≡ ok q)
              × (uint64_modulus L errno x y ≡ ok r)
              × (q * b + r ≡ a)
              × (r < b))
  unfolding uint64_add uint64_subtract uint64_negate uint64_divide uint64_modulus
  uint64_add-subtract ha hb = (
    (a + b) % u64_mod,
    (a + u64_mod - b) % u64_mod,
    (u64_mod - b) % u64_mod,
    rw (left, right) refl,
    rw (left, right) refl,
    rw right refl,
    omega arith,
    omega arith,
    omega (arith, ha, hb),
    omega (arith, ha, hb),
    λ nonzero.
        let other : (b == 0) ≡ false = ground (arith, nonzero) in
        (
          a / b,
          a % b,
          rw (left, right, other) refl,
          rw (left, right, other) refl,
          grind (arith, div-add-mod a b),
          mod-lt a (ground (arith, nonzero)),
        ),
  )
