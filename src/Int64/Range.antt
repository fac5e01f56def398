-- ===== src/Int64/Range.antt =====
-- The values that src/l2dbus_int64.c puts into its userdata are `int64_t` values.
use native.Mathlib.Nat.{mod-lt}
use l2dbus.Base.{
  Bool, ℕ, zero, suc, ◌/◌, ◌%◌, ◌^◌, ◌≤◌, ◌<◌, ◌≡◌, refl, inl, inr, arith, ◌==◌, true, false,
  Bool-cases, if◌then◌else◌, Result, ok, >>=-eq-ok,
}
use l2dbus.Base.Int.{ℤ, pos, pos_part, abs, eqb_ℤ, ltb_ℤ, ◌*ℤ◌, ◌/ℤ◌, ◌%ℤ◌, ◌-ℤ◌, abs-%ℤ}
use l2dbus.Boxed.{BaseArg, invalid_index, pushed, at, opt_int, read_int64, read_uint64}
use l2dbus.C.Words.{fits, u64_mod, mul64, div64, mod64, to_int64, double_to_int64, signed}
use l2dbus.C.Strings.{Errno, strtoll-fits}
use l2dbus.Lua.{Lua, LuaType, LuaNumber, nan, infinite, finite}
use l2dbus.Lua.Laws.{HoldsWords}
use l2dbus.Int64.{power_loop, power, cast_string, cast_userdata, int64_cast, operands}

-- A result that is in range where there is one.
abbrev pub InRange : Result ℤ → Type 0
InRange r = (z : ℤ) → r ≡ ok z → fits z ≡ true

signed-InRange : (z : ℤ) → InRange (signed z)
signed-InRange z w h = ground arith

pub double-InRange : (n : LuaNumber) → InRange (double_to_int64 n)
unfolding double_to_int64 ◌-ℤ◌
double-InRange nan z h = cc
double-InRange (infinite negative) z h = cc
double-InRange (finite true whole fraction) z h = ground arith
double-InRange (finite false whole fraction) z h = ground arith

pub to_int64-fits : (n : ℕ) → n < u64_mod → fits (to_int64 n) ≡ true
unfolding to_int64
to_int64-fits n h = ground arith

small-fits : (z : ℤ) → abs z < 2 ^ 63 → fits z ≡ true
small-fits z h = ground arith

abs_bound : (b : ℤ) → fits b ≡ true → abs b ≤ 2 ^ 63
abs_bound b h = ground arith

nonzero_abs : (b : ℤ) → eqb_ℤ b (pos 0) ≡ false → 0 < abs b
nonzero_abs b h = ground arith

remainder-fits : (a b : ℤ) → fits b ≡ true → eqb_ℤ b (pos 0) ≡ false → fits (a %ℤ b) ≡ true
remainder-fits a b hb h =
    small-fits (a %ℤ b)
      (rw (abs-%ℤ a b) (omega (arith, mod-lt (abs a) (nonzero_abs b h), abs_bound b hb)))

mod64-InRange : (a b : ℤ) → fits b ≡ true → InRange (mod64 a b)
unfolding mod64
mod64-InRange a b hb z h = elim (Bool-cases (eqb_ℤ b (pos 0))) [
  | inl is_zero ↦ absurd (cc (rw is_zero at h))
  | inr not_zero ↦ elim (Bool-cases (fits (a /ℤ b))) [
    | inl fine ↦
        let h' : ok (a %ℤ b) ≡ ok z = rw (not_zero, fine) at h in
        cc (h', remainder-fits a b hb not_zero)
    | inr wide ↦ absurd (cc (rw (not_zero, wide) at h))
  ]
]

div64-InRange : (a b : ℤ) → InRange (div64 a b)
unfolding div64
div64-InRange a b z h = ground arith

mul64-InRange : (a b : ℤ) → InRange (mul64 a b)
unfolding mul64
mul64-InRange a b = signed-InRange (a *ℤ b)

chosen-InRange : (c : Bool) (r b : ℤ) → fits r ≡ true → InRange (if c then mul64 r b else ok r)
chosen-InRange true r b hr z h = mul64-InRange r b z h
chosen-InRange false r b hr z h = cc

power_loop-InRange : (f : ℕ) (b : ℤ) (e : ℕ) (r : ℤ) → fits r ≡ true → InRange (power_loop f b e r)
unfolding power_loop
power_loop-InRange zero b e r hr z h = cc
power_loop-InRange (suc f) b e r hr z h = elim (Bool-cases (e == 0)) [
  | inl done ↦ let h' : ok r ≡ ok z = rw (done, power_loop) at h in cc
  | inr more ↦
      let (r', chosen, h') =
        >>=-eq-ok (if e % 2 == 1 then mul64 r b else ok r) _ (rw (more, power_loop) at h) in
      let (b', squared, h'') = >>=-eq-ok (mul64 b b) _ h' in
      power_loop-InRange f b' (e / 2) r' (chosen-InRange (e % 2 == 1) r b hr r' chosen) z h''
]

power-InRange : (b e : ℤ) → InRange (power b e)
unfolding power
power-InRange b e z h = elim (Bool-cases (ltb_ℤ e (pos 0))) [
  | inl neg ↦ let h' : ok (pos 0) ≡ ok z = rw neg at h in cc
  | inr nonneg ↦ power_loop-InRange 64 b (pos_part e) (pos 1) refl z (rw nonneg at h)
]

module _ (L : Lua) (words : HoldsWords L) where
  open L use {Value, lua_type, to_number, to_string}

  cast_string-InRange :
      (errno : Errno) (v : Value) (base : BaseArg Value) (z : ℤ) (e : Errno)
      → cast_string L errno v base ≡ ok (z, e)
      → fits z ≡ true
  unfolding cast_string
  cast_string-InRange errno v invalid_index z e h =
      ground (arith, strtoll-fits L.sets_einval errno 10 (to_string v))
  cast_string-InRange errno v (pushed b) z e h =
      ground (arith, strtoll-fits L.sets_einval errno (pos_part b) (to_string v))
  cast_string-InRange errno v (at w) z e h =
      let (b, _, h') = >>=-eq-ok (opt_int L w (pos 10)) _ h in
      ground (arith, strtoll-fits L.sets_einval errno (pos_part b) (to_string v))

  cast_userdata-InRange :
      (errno : Errno) (v : Value) (z : ℤ) (e : Errno)
      → cast_userdata L errno v ≡ ok (z, e)
      → fits z ≡ true
  unfolding cast_userdata read_int64 read_uint64
  cast_userdata-InRange errno v z e h = grind (arith, words.0, words.1, to_int64-fits)

  -- Where boxed integers are machine words: every cast that returns gives an `int64_t`.
  pub int64_cast-InRange :
      (errno : Errno) (v : Value) (base : BaseArg Value) (z : ℤ) (e : Errno)
      → int64_cast L errno v base ≡ ok (z, e)
      → fits z ≡ true
  unfolding int64_cast
  int64_cast-InRange errno v base z e h = by_type (lua_type v) refl
    where
      by_type : (t : LuaType) → lua_type v ≡ t → fits z ≡ true
      by_type LuaType.number k =
          let (y, cast, h') =
            >>=-eq-ok (double_to_int64 (to_number v)) _ (rw (k, int64_cast) at h) in
          let same : y ≡ z = cc in rw (← same) (double-InRange (to_number v) y cast)
      by_type LuaType.string k = cast_string-InRange errno v base z e (rw (k, int64_cast) at h)
      by_type LuaType.userdata k = cast_userdata-InRange errno v z e (rw (k, int64_cast) at h)
      by_type _ k = absurd (cc (rw (k, int64_cast) at h))

  pub operands-InRange :
      (errno : Errno) (x y : Value) (a b : ℤ)
      → operands L errno x y ≡ ok (a, b)
      → (fits a ≡ true) × (fits b ≡ true)
  unfolding operands
  operands-InRange errno x y a b h =
      let ((c, e), first, h') = >>=-eq-ok (int64_cast L errno x invalid_index) _ h in
      let ((d, e'), second, h'') = >>=-eq-ok (int64_cast L e y invalid_index) _ h' in
      let left : c ≡ a = cc in
      let right : d ≡ b = cc in
      (
        rw (← left) (int64_cast-InRange errno x invalid_index c e first),
        rw (← right) (int64_cast-InRange e y invalid_index d e' second),
      )
