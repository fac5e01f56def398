-- ===== src/Transcode/NumType.antt =====
-- `l2dbus_calcDbusNumType` of src/l2dbus_transcode.c: the D-Bus type for a Lua number.
pub mod Exact
use l2dbus.Base.{ℕ, ◌-◌, ◌^◌, Bool, true, false, leb, ◌==◌, not, if◌then◌else◌}
use l2dbus.Dbus.{DbusType}
use l2dbus.Lua.{LuaNumber, nan, infinite, finite}

-- The largest and, negated, the smallest integer that a double with 53 binary digits is taken to
-- hold exactly: `(2LL << 52) - 1` and `-(2LL << 52)`.
abbrev pub max_integral_lua_num : ℕ
max_integral_lua_num = 2 ^ 53 - 1

abbrev pub min_integral_lua_num : ℕ
min_integral_lua_num = 2 ^ 53

abbrev pub int32_max : ℕ
int32_max = 2 ^ 31 - 1

abbrev pub uint32_max : ℕ
uint32_max = 2 ^ 32 - 1

-- The magnitude of a whole number that is not negative.
positive_type : ℕ → DbusType
positive_type whole =
    if leb whole int32_max
    then DbusType.int32
    else if leb whole uint32_max
    then DbusType.uint32
    else if leb whole max_integral_lua_num
    then DbusType.int64
    else DbusType.double

-- And of one below zero.
negative_type : ℕ → DbusType
negative_type whole =
    if leb whole (2 ^ 31)
    then DbusType.int32
    else if leb whole min_integral_lua_num
    then DbusType.int64
    else DbusType.double

-- `modf` gives a nan for the fraction of a nan, which is not equal to zero, and a zero for that of
-- an infinity. Minus zero compares as zero.
unfoldable pub calc_dbus_num_type : LuaNumber → DbusType
unfolding positive_type negative_type
calc_dbus_num_type nan = DbusType.double
calc_dbus_num_type (infinite negative) = DbusType.double
calc_dbus_num_type (finite negative whole fraction) =
    if not (fraction == 0)
    then DbusType.double
    else if not negative
    then positive_type whole
    else if whole == 0
    then positive_type whole
    else negative_type whole
