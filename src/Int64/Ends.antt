-- ===== src/Int64/Ends.antt =====
-- The casts and `__pow` of src/l2dbus_int64.c do not run out of fuel.
use l2dbus.Base.{
  ℕ, zero, suc, ◌/◌, ◌%◌, ◌^◌, ◌<◌, ◌≡◌, ◌≢◌, inl, inr, arith, Bool, true, false, ◌==◌, Bool-cases,
  if◌then◌else◌, ok, out_of_fuel, Ends, >>=-Ends, >>=-Ends_on,
}
use l2dbus.Base.Int.{ℤ, pos, pos_part, ltb_ℤ}
use l2dbus.Boxed.{invalid_index, read_int64, read_uint64}
use l2dbus.C.Powers.{pow_succ}
use l2dbus.C.Words.{fits, mul64, double_to_int64}
use l2dbus.C.Strings.{Errno}
use l2dbus.Lua.{Lua}
use l2dbus.Lua.Laws.{HoldsWords}
use l2dbus.Int64.{power_loop, power, int64_cast, cast_string, cast_userdata, operands, int64_power}
use l2dbus.Int64.Range.{operands-InRange}

mul64-Ends : (a b : ℤ) → Ends (mul64 a b)
unfolding mul64
mul64-Ends a b p = ground arith

chosen-Ends : (c : Bool) (r b : ℤ) → Ends (if c then mul64 r b else ok r)
chosen-Ends true r b p = mul64-Ends r b p
chosen-Ends false r b p = cc

-- A round halves the exponent.
power_loop-Ends : (f : ℕ) (b : ℤ) (e : ℕ) (r : ℤ) → e < 2 ^ f → Ends (power_loop (suc f) b e r)
unfolding power_loop
power_loop-Ends zero b e r h =
    let z : (e == 0) ≡ true = ground arith in rw (z, power_loop) (λ p. cc)
power_loop-Ends (suc f) b e r h = elim (Bool-cases (e == 0)) [
  | inl done ↦ rw (done, power_loop) (λ p. cc)
  | inr more ↦
      rw (more, power_loop)
        (>>=-Ends (if e % 2 == 1 then mul64 r b else ok r) _ (chosen-Ends (e % 2 == 1) r b) (λ r'.
          >>=-Ends (mul64 b b) _ (mul64-Ends b b)
            (λ b'. power_loop-Ends f b' (e / 2) r' (omega (arith, pow_succ 2 f)))))
]

power-Ends : (b e : ℤ) → fits e ≡ true → Ends (power b e)
unfolding power
power-Ends b e h = elim (Bool-cases (ltb_ℤ e (pos 0))) [
  | inl neg ↦ rw neg (λ p. cc)
  | inr nonneg ↦ rw nonneg (power_loop-Ends 63 b (pos_part e) (pos 1) (ground arith))
]

module _ (L : Lua) where
  open L use {Value}

  int64_cast-Ends : (errno : Errno) (v : Value) → Ends (int64_cast L errno v invalid_index)
  unfolding int64_cast cast_string cast_userdata read_int64 read_uint64 double_to_int64
  int64_cast-Ends errno v e = ground arith

  operands-Ends : (errno : Errno) (x y : Value) → Ends (operands L errno x y)
  unfolding operands
  operands-Ends errno x y =
      >>=-Ends (int64_cast L errno x invalid_index) _ (int64_cast-Ends errno x)
        λ a. >>=-Ends (int64_cast L (a.1) y invalid_index) _ (int64_cast-Ends (a.1) y) λ b p. cc

  -- Where boxed integers are machine words: the loop of `__pow` ends within its fuel, whatever the
  -- operands are.
  pub int64_power-Ends :
      HoldsWords L → (errno : Errno) (x y : Value) → int64_power L errno x y ≢ out_of_fuel
  unfolding int64_power
  int64_power-Ends words errno x y =
      >>=-Ends_on (operands L errno x y) _ (operands-Ends errno x y)
        λ ab e. power-Ends (ab.0) (ab.1) (operands-InRange L words errno x y (ab.0) (ab.1) e).1
