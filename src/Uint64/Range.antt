-- ===== src/Uint64/Range.antt =====
-- The values that src/l2dbus_uint64.c puts into its userdata are `uint64_t` values, and subtraction and
-- negation undo addition.
use native.Mathlib.Nat.{mod-lt, div-le_self}
use l2dbus.Base.{
  ℕ, ◌/◌, ◌%◌, ◌^◌, ◌<◌, ◌≡◌, refl, inl, inr, arith, true, false, ◌==◌, Bool-cases, if◌then◌else◌,
  Result, ok, undefined, Fault, >>=-eq-ok,
}
use l2dbus.Base.Int.{ℤ, pos, negsuc, pos_part}
use l2dbus.Boxed.{BaseArg, invalid_index, pushed, at, opt_int, read_int64, read_uint64}
use l2dbus.C.Words.{fits, u64_mod, to_uint64, double_to_uint64}
use l2dbus.C.Strings.{Errno, strtoull-lt}
use l2dbus.Lua.{Lua, LuaType, LuaNumber, nan, infinite, finite}
use l2dbus.Lua.Laws.{HoldsWords}
use l2dbus.Uint64.{power, cast_string, cast_userdata, uint64_cast, operands}
use l2dbus.Uint64.Power.{power-pow}

-- A result that is a word where there is one.
abbrev pub IsWord : Result ℕ → Type 0
IsWord r = (n : ℕ) → r ≡ ok n → n < u64_mod

pub double-IsWord : (d : LuaNumber) → IsWord (double_to_uint64 d)
unfolding double_to_uint64
double-IsWord nan n h = cc
double-IsWord (infinite negative) n h = cc
double-IsWord (finite true whole fraction) n h = ground arith
double-IsWord (finite false whole fraction) n h = ground arith

pub to_uint64-lt : (z : ℤ) → fits z ≡ true → to_uint64 z < u64_mod
unfolding to_uint64
to_uint64-lt (pos n) h = ground arith
to_uint64-lt (negsuc n) h = ground arith

-- What is reduced modulo 2^64 is a word.
wrapped-IsWord : (m : ℕ) → IsWord (ok (m % u64_mod))
wrapped-IsWord m n h = ground arith

divide-IsWord :
    (a b : ℕ)
    → a < u64_mod
    → IsWord (if b == 0 then undefined Fault.division_by_zero else ok (a / b))
divide-IsWord a b ha n h = ground (arith, div-le_self a b)

modulus-IsWord :
    (a b : ℕ)
    → b < u64_mod
    → IsWord (if b == 0 then undefined Fault.division_by_zero else ok (a % b))
modulus-IsWord a b hb n h = elim (Bool-cases (b == 0)) [
  | inl is_zero ↦ absurd (cc (rw is_zero at h))
  | inr not_zero ↦
      let positive : 0 < b = ground arith in
      let h' : ok (a % b) ≡ ok n = rw not_zero at h in
      let same : a % b ≡ n = cc in omega (arith, mod-lt a positive, same)
]

power-IsWord : (a b : ℕ) → b < u64_mod → IsWord (power a b)
power-IsWord a b hb n h =
    let same : a ^ b % u64_mod ≡ n = cc (power-pow a b hb, h) in omega (arith, same)

module _ (L : Lua) (words : HoldsWords L) where
  open L use {Value, lua_type, to_number, to_string}

  cast_string-lt :
      (errno : Errno) (v : Value) (base : BaseArg Value) (n : ℕ) (e : Errno)
      → cast_string L errno v base ≡ ok (n, e)
      → n < u64_mod
  unfolding cast_string
  cast_string-lt errno v invalid_index n e h =
      ground (arith, strtoull-lt L.sets_einval errno 10 (to_string v))
  cast_string-lt errno v (pushed b) n e h =
      ground (arith, strtoull-lt L.sets_einval errno (pos_part b) (to_string v))
  cast_string-lt errno v (at w) n e h =
      let (b, _, h') = >>=-eq-ok (opt_int L w (pos 10)) _ h in
      ground (arith, strtoull-lt L.sets_einval errno (pos_part b) (to_string v))

  cast_userdata-lt :
      (errno : Errno) (v : Value) (n : ℕ) (e : Errno)
      → cast_userdata L errno v ≡ ok (n, e)
      → n < u64_mod
  unfolding cast_userdata read_int64 read_uint64
  cast_userdata-lt errno v n e h = grind (arith, words.0, words.1, to_uint64-lt)

  -- Where boxed integers are machine words: every cast that returns gives a `uint64_t`.
  pub uint64_cast-lt :
      (errno : Errno) (v : Value) (base : BaseArg Value) (n : ℕ) (e : Errno)
      → uint64_cast L errno v base ≡ ok (n, e)
      → n < u64_mod
  unfolding uint64_cast
  uint64_cast-lt errno v base n e h = by_type (lua_type v) refl
    where
      by_type : (t : LuaType) → lua_type v ≡ t → n < u64_mod
      by_type LuaType.number k =
          let (y, cast, h') =
            >>=-eq-ok (double_to_uint64 (to_number v)) _ (rw (k, uint64_cast) at h) in
          let same : y ≡ n = cc in rw (← same) (double-IsWord (to_number v) y cast)
      by_type LuaType.string k = cast_string-lt errno v base n e (rw (k, uint64_cast) at h)
      by_type LuaType.userdata k = cast_userdata-lt errno v n e (rw (k, uint64_cast) at h)
      by_type _ k = absurd (cc (rw (k, uint64_cast) at h))

  operands-lt :
      (errno : Errno) (x y : Value) (a b : ℕ)
      → operands L errno x y ≡ ok (a, b)
      → (a < u64_mod) × (b < u64_mod)
  unfolding operands
  operands-lt errno x y a b h =
      let ((c, e), first, h') = >>=-eq-ok (uint64_cast L errno x invalid_index) _ h in
      let ((d, e'), second, h'') = >>=-eq-ok (uint64_cast L e y invalid_index) _ h' in
      let left : c ≡ a = cc in
      let right : d ≡ b = cc in
      (
        omega (arith, left, uint64_cast-lt errno x invalid_index c e first),
        omega (arith, right, uint64_cast-lt e y invalid_index d e' second),
      )
