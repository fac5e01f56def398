-- ===== src/Transcode/NumType/Exact.antt =====
-- The number that is sent for a Lua number (src/l2dbus_transcode.c): the integer types are chosen
-- where the cast of the marshalling code is exact.
use l2dbus.Base.{◌-◌, ◌^◌, ◌≡◌, ◌≢◌, ◌⊎◌, refl, arith, true, false, ok}
use l2dbus.Base.Int.{ℤ, pos, negsuc, ◌-ℤ◌, ◌≤ℤ◌}
use l2dbus.C.Words.{double_to_int64}
use l2dbus.Dbus.{DbusType}
use l2dbus.Lua.{LuaNumber, nan, infinite, finite}
use l2dbus.Transcode.NumType.{calc_dbus_num_type}

-- The integer that a double stands for, if it stands for one.
abbrev pub Stands : LuaNumber → ℤ → Type 0
Stands nan z = ⊥
Stands (infinite negative) z = ⊥
Stands (finite true whole fraction) z = (fraction ≡ 0) × (z ≡ pos 0 -ℤ pos whole)
Stands (finite false whole fraction) z = (fraction ≡ 0) × (z ≡ pos whole)

-- The integers that each type is chosen for: the narrowest type, and none beyond 2^53.
abbrev pub ChosenFor : DbusType → ℤ → Type 0
ChosenFor DbusType.int32 z = (negsuc (2 ^ 31 - 1) ≤ℤ z) × (z ≤ℤ pos (2 ^ 31 - 1))
ChosenFor DbusType.uint32 z = (pos (2 ^ 31) ≤ℤ z) × (z ≤ℤ pos (2 ^ 32 - 1))
ChosenFor DbusType.int64 z =
    ((pos (2 ^ 32) ≤ℤ z) × (z ≤ℤ pos (2 ^ 53 - 1)))
    ⊎ ((negsuc (2 ^ 53 - 1) ≤ℤ z) × (z ≤ℤ negsuc (2 ^ 31)))
ChosenFor _ z = ⊥

-- A Lua number that is not sent as a double stands for an integer, its cast to `int64_t` is defined
-- and gives that integer, and the type is the one for the integer: `int32` where it fits, else
-- `uint32`, else `int64` up to 2^53.
pub calc_dbus_num_type-exact :
    (n : LuaNumber)
    → calc_dbus_num_type n ≢ DbusType.double
    → (z : ℤ) × (double_to_int64 n ≡ ok z) × Stands n z × ChosenFor (calc_dbus_num_type n) z
unfolding calc_dbus_num_type double_to_int64 ◌-ℤ◌
calc_dbus_num_type-exact nan h = absurd (h refl)
calc_dbus_num_type-exact (infinite negative) h = absurd (h refl)
calc_dbus_num_type-exact (finite true whole fraction) h =
    (pos 0 -ℤ pos whole, ground arith, ground arith, ground arith)
calc_dbus_num_type-exact (finite false whole fraction) h =
    (pos whole, ground arith, ground arith, ground arith)

-- A Lua number that stands for an integer from -2^53 to 2^53 - 1 is sent as the integer type for it,
-- never as a double.
pub calc_dbus_num_type-integral :
    (n : LuaNumber) (z : ℤ)
    → Stands n z
    → negsuc (2 ^ 53 - 1) ≤ℤ z
    → z ≤ℤ pos (2 ^ 53 - 1)
    → ChosenFor (calc_dbus_num_type n) z
unfolding calc_dbus_num_type ◌-ℤ◌
calc_dbus_num_type-integral nan z s lo hi = absurd s
calc_dbus_num_type-integral (infinite negative) z s lo hi = absurd s
calc_dbus_num_type-integral (finite true whole fraction) z s lo hi = ground arith
calc_dbus_num_type-integral (finite false whole fraction) z s lo hi = ground arith
