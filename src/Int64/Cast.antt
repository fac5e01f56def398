-- ===== src/Int64/Cast.antt =====
-- Casts to `int64_t` in src/l2dbus_int64.c: from strings, and from the other boxed integers.
use l2dbus.Base.{ℕ, ◌<◌, ◌≡◌, arith, true, ok, lua_error, Bool, not, ◌&&◌, if◌then◌else◌, Error}
use l2dbus.Base.Int.{ℤ, pos, negsuc}
use l2dbus.Boxed.{invalid_index, is_base}
use l2dbus.C.Words.{fits, u64_mod, to_uint64, to_int64}
use l2dbus.C.Strings.{
  Errno, strtoll, strtoll-fits, strtoll-errno, strtoll-no_digits, has_digits, start_errno,
  unsigned_part,
}
use l2dbus.Lua.{Lua, LuaType}
use l2dbus.Int64.{int64_cast}

-- Between the signed and the unsigned words no bit is lost, in either direction.
pub to_int64-to_uint64 : (z : ℤ) → fits z ≡ true → to_int64 (to_uint64 z) ≡ z
unfolding to_int64 to_uint64
to_int64-to_uint64 (pos n) h = ground arith
to_int64-to_uint64 (negsuc n) h = ground arith

pub to_uint64-to_int64 : (n : ℕ) → n < u64_mod → to_uint64 (to_int64 n) ≡ n
unfolding to_int64 to_uint64
to_uint64-to_int64 n h = ground arith

module _ (L : Lua) where
  open L use {Value, lua_type, to_string}

  -- The text has digits, or the C library does not set `errno` for want of them.
  abbrev pub is_converted : Value → Bool
  is_converted v = not (L.sets_einval && not (has_digits 10 (unsigned_part (to_string v))))

  -- With `errno` clear and base 10, the cast of a string refuses a text without digits where the C library sets
  -- EINVAL for it, and accepts every other one, also one out of range: it returns what `strtoll`
  -- returns, and that is an `int64_t`.
  pub int64_cast-string :
      (v : Value)
      → lua_type v ≡ LuaType.string
      → (int64_cast L Errno.none_set v invalid_index ≡ (
          if is_converted v
          then ok (strtoll L.sets_einval Errno.none_set 10 (to_string v))
          else lua_error Error.unable_to_convert))
        × (fits (strtoll L.sets_einval Errno.none_set 10 (to_string v)).0 ≡ true)
  unfolding int64_cast is_base start_errno
  int64_cast-string v h = (
    rw (h, int64_cast)
        (ground (
          arith,
          strtoll-errno L.sets_einval Errno.none_set 10 (to_string v),
          strtoll-no_digits L.sets_einval Errno.none_set 10 (to_string v),
        )),
    strtoll-fits _ _ _ _,
  )
