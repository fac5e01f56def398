-- ===== src/C/Words.antt =====
-- 64-bit integers. An `int64_t` is the integer that it stands for, a `uint64_t` a number below
-- 2^64. Signed overflow is undefined; unsigned arithmetic wraps around.
use l2dbus.Base.{
  ℕ, ◌-◌, ◌%◌, ◌^◌, Bool, true, false, ◌&&◌, ltb, leb, ◌==◌, if◌then◌else◌, Result, ok, undefined,
  Fault,
}
use l2dbus.Base.Int.{ℤ, pos, negsuc, ◌+ℤ◌, ◌-ℤ◌, ◌*ℤ◌, ◌/ℤ◌, ◌%ℤ◌, leb_ℤ, eqb_ℤ}
use l2dbus.Lua.{LuaNumber, nan, infinite, finite}

abbrev pub int64_min : ℤ
int64_min = negsuc (2 ^ 63 - 1)

abbrev pub int64_max : ℤ
int64_max = pos (2 ^ 63 - 1)

abbrev pub u64_mod : ℕ
u64_mod = 2 ^ 64

abbrev pub fits : ℤ → Bool
fits z = leb_ℤ int64_min z && leb_ℤ z int64_max

-- The value of a signed expression whose exact value is `z`.
abbrev pub signed : ℤ → Result ℤ
signed z = if fits z then ok z else undefined Fault.signed_overflow

unfoldable pub add64 : ℤ → ℤ → Result ℤ
add64 a b = signed (a +ℤ b)

unfoldable pub sub64 : ℤ → ℤ → Result ℤ
sub64 a b = signed (a -ℤ b)

unfoldable pub mul64 : ℤ → ℤ → Result ℤ
mul64 a b = signed (a *ℤ b)

-- The quotient of INT64_MIN by -1 does not fit, and its remainder is undefined with it.
unfoldable pub div64 : ℤ → ℤ → Result ℤ
div64 a b = if eqb_ℤ b (pos 0) then undefined Fault.division_by_zero else signed (a /ℤ b)

unfoldable pub mod64 : ℤ → ℤ → Result ℤ
mod64 a b =
    if eqb_ℤ b (pos 0)
    then undefined Fault.division_by_zero
    else if fits (a /ℤ b)
    then ok (a %ℤ b)
    else undefined Fault.signed_overflow

-- `(uint64_t)` of an `int64_t`, and back.
unfoldable pub to_uint64 : ℤ → ℕ
to_uint64 (pos n) = n
to_uint64 (negsuc n) = u64_mod - 1 - n

unfoldable pub to_int64 : ℕ → ℤ
to_int64 n = if ltb n (2 ^ 63) then pos n else negsuc (u64_mod - 1 - n)

-- `(int64_t)` and `(uint64_t)` of a `double`: truncated towards zero, undefined out of range.
unfoldable pub double_to_int64 : LuaNumber → Result ℤ
double_to_int64 nan = undefined Fault.float_range
double_to_int64 (infinite negative) = undefined Fault.float_range
double_to_int64 (finite true whole fraction) =
    if leb whole (2 ^ 63) then ok (pos 0 -ℤ pos whole) else undefined Fault.float_range
double_to_int64 (finite false whole fraction) =
    if ltb whole (2 ^ 63) then ok (pos whole) else undefined Fault.float_range

unfoldable pub double_to_uint64 : LuaNumber → Result ℕ
double_to_uint64 nan = undefined Fault.float_range
double_to_uint64 (infinite negative) = undefined Fault.float_range
double_to_uint64 (finite true whole fraction) =
    if whole == 0 then ok 0 else undefined Fault.float_range
double_to_uint64 (finite false whole fraction) =
    if ltb whole u64_mod then ok whole else undefined Fault.float_range

-- `(unsigned)` and `(int)` of a 64-bit integer: the low 32 bits.
unfoldable pub to_uint32 : ℤ → ℕ
to_uint32 (pos n) = n % 2 ^ 32
to_uint32 (negsuc n) = 2 ^ 32 - 1 - n % 2 ^ 32

unfoldable pub to_int32 : ℤ → ℤ
unfolding to_uint32
to_int32 z = let n = to_uint32 z in if ltb n (2 ^ 31) then pos n else negsuc (2 ^ 32 - 1 - n)
