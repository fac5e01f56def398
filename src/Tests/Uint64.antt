-- ===== src/Tests/Uint64.antt =====
-- The theorems about src/l2dbus_uint64.c at concrete values.
use l2dbus.Util.{is_user_data}
use l2dbus.Base.{
  length, none, inr, ◌∷◌, [], ℕ, ◌+◌, ◌*◌, ◌<◌, ◌≢◌, refl, some, ◌≡◌, ok, arith, ◌^◌, ◌%◌,
}
use l2dbus.C.Strings.{Errno}
use l2dbus.Tests.Vm.{V, vm, vm_type}
use l2dbus.Uint64.{
  power, uint64_add, uint64_subtract, uint64_divide, uint64_modulus, uint64_negate, uint64_cast,
  new_uint64,
}
use l2dbus.Lua.{LuaType, Bytes}
use l2dbus.Uint64.Text.{uint64_to_string, uint64_to_string-cast, uint64_to_string-new}
use l2dbus.Uint64.Ring.{uint64_add-subtract}
use l2dbus.Boxed.{invalid_index}
use l2dbus.C.Words.{u64_mod, double_to_uint64}
use l2dbus.Uint64.Power.{power-pow}

power-pow_example : power 10 25 ≡ ok (10 ^ 25 % u64_mod)
power-pow_example = power-pow 10 25 (omega arith)

cast_seven : uint64_cast vm Errno.none_set V.seven invalid_index ≡ ok (7, Errno.none_set)
unfolding uint64_cast double_to_uint64
cast_seven = refl

cast_one : uint64_cast vm Errno.none_set V.one invalid_index ≡ ok (1, Errno.none_set)
unfolding uint64_cast double_to_uint64
cast_one = refl

uint64_add-subtract_example :
    (s d m : ℕ) × (uint64_add vm Errno.none_set V.seven V.one ≡ ok s)
    × (uint64_subtract vm Errno.none_set V.seven V.one ≡ ok d)
    × (uint64_negate vm Errno.none_set V.one ≡ ok m)
    × (s < u64_mod)
    × (d < u64_mod)
    × ((d + 1) % u64_mod ≡ 7)
    × ((s + m) % u64_mod ≡ 7)
    × (◌≢◌ {A = ℕ} 1 0
        → (q r : ℕ) × (uint64_divide vm Errno.none_set V.seven V.one ≡ ok q)
          × (uint64_modulus vm Errno.none_set V.seven V.one ≡ ok r)
          × (q * 1 + r ≡ 7)
          × (r < 1))
uint64_add-subtract_example =
    uint64_add-subtract vm Errno.none_set Errno.none_set Errno.none_set V.seven V.one 7 1 cast_seven
      cast_one (omega arith) (omega arith)

boxed_uint64_registered : is_user_data vm V.boxed_uint64 (some "l2dbus.uint64") ≡ some 2
unfolding is_user_data
boxed_uint64_registered = refl

uint64_to_string-cast_example :
    (s : Bytes) × (uint64_to_string vm V.boxed_uint64 none ≡ ok s)
    × (length s < 64)
    × ((w : V)
        → vm_type w ≡ LuaType.string
        → vm.to_string w ≡ s
        → uint64_cast vm Errno.none_set w invalid_index ≡ ok (7, Errno.none_set))
uint64_to_string-cast_example =
    uint64_to_string-cast vm V.boxed_uint64 2 7 boxed_uint64_registered refl (omega arith)

uint64_to_string-new_example :
    (s : Bytes) × (uint64_to_string vm V.boxed_uint64 (some V.sixteen) ≡ ok s)
    × (length s < 64)
    × ((w : V)
        → vm_type w ≡ LuaType.string
        → vm.to_string w ≡ s
        → new_uint64 vm Errno.none_set (w ∷ V.sixteen ∷ []) ≡ ok 7)
uint64_to_string-new_example =
    uint64_to_string-new vm V.boxed_uint64 2 7 boxed_uint64_registered refl (omega arith) V.sixteen
      refl refl (inr refl)
