-- ===== src/Tests/Int64.antt =====
-- The theorems about src/l2dbus_int64.c at concrete values.
use l2dbus.Int64.Text.{read_back, int64_to_string, int64_to_string-cast, int64_to_string-new}
use l2dbus.Util.{is_user_data}
use l2dbus.Lua.{LuaType, Bytes}
use l2dbus.Int64.Ends.{int64_power-Ends}
use l2dbus.Base.{
  ◌≢◌, out_of_fuel, length, none, some, inr, ◌≡◌, refl, arith, inl, true, ◌∷◌, [], ok, ◌<◌,
}
use l2dbus.Base.Int.{ℤ, pos, negsuc, ◌^ℤ◌, ◌*ℤ◌, ◌+ℤ◌, ◌-ℤ◌, abs}
use l2dbus.Boxed.{invalid_index}
use l2dbus.C.Strings.{
  Errno, strtoll, has_digits, digit_in, digit_value, take_sign, skip_spaces, is_space,
}
use l2dbus.C.Words.{fits, double_to_int64}
use l2dbus.Int64.{int64_cast, new_int64, int64_divide, int64_modulus, int64_power, power}
use l2dbus.Int64.Cast.{int64_cast-string}
use l2dbus.Int64.Division.{int64_divide-modulus}
use l2dbus.Int64.Power.{power-pow_exact}
use l2dbus.Tests.Vm.{V, vm_type, vm, vm-HoldsWords}

power-pow_exact_example : power (negsuc 1) (pos 10) ≡ ok (negsuc 1 ^ℤ 10)
power-pow_exact_example = power-pow_exact (negsuc 1) 10 (omega arith) (omega arith)

cast_minus_five :
    int64_cast vm Errno.none_set V.minus_five invalid_index ≡ ok (negsuc 4, Errno.none_set)
unfolding int64_cast double_to_int64 ◌-ℤ◌
cast_minus_five = refl

cast_seven : int64_cast vm Errno.none_set V.seven invalid_index ≡ ok (pos 7, Errno.none_set)
unfolding int64_cast double_to_int64
cast_seven = refl

cast_naught : int64_cast vm Errno.none_set V.naught invalid_index ≡ ok (pos 0, Errno.none_set)
unfolding int64_cast double_to_int64
cast_naught = refl

int64_divide-modulus_example :
    (q r : ℤ) × (int64_divide vm Errno.none_set V.seven V.minus_five ≡ ok q)
    × (int64_modulus vm Errno.none_set V.seven V.minus_five ≡ ok r)
    × (q *ℤ negsuc 4 +ℤ r ≡ pos 7)
    × (abs r < abs (negsuc 4))
int64_divide-modulus_example =
    int64_divide-modulus vm Errno.none_set Errno.none_set Errno.none_set V.seven V.minus_five
      (pos 7) (negsuc 4) cast_seven cast_minus_five refl (λ e. cc) (inl (λ e. cc))

int64_cast-string_example :
    (int64_cast vm Errno.none_set V.zero_text invalid_index
      ≡ ok (strtoll true Errno.none_set 10 (b'0' ∷ [])))
    × (fits (strtoll true Errno.none_set 10 (b'0' ∷ [])).0 ≡ true)
unfolding has_digits digit_in digit_value take_sign skip_spaces is_space
int64_cast-string_example = int64_cast-string vm V.zero_text refl

boxed_int64_registered : is_user_data vm V.boxed_int64 (some "l2dbus.int64") ≡ some 1
unfolding is_user_data
boxed_int64_registered = refl

int64_to_string-cast_example :
    (s : Bytes) × (int64_to_string vm V.boxed_int64 none ≡ ok s)
    × (length s < 64)
    × ((w : V)
        → vm_type w ≡ LuaType.string
        → vm.to_string w ≡ s
        → int64_cast vm Errno.none_set w invalid_index ≡ ok ((negsuc 4), Errno.none_set))
int64_to_string-cast_example =
    int64_to_string-cast vm V.boxed_int64 1 (negsuc 4) boxed_int64_registered refl refl

int64_to_string-new_example :
    (s : Bytes) × (int64_to_string vm V.boxed_int64 (some V.sixteen) ≡ ok s)
    × (length s < 64)
    × ((w : V)
        → vm_type w ≡ LuaType.string
        → vm.to_string w ≡ s
        → new_int64 vm Errno.none_set (w ∷ V.sixteen ∷ []) ≡ ok (read_back (negsuc 4)))
int64_to_string-new_example =
    int64_to_string-new vm V.boxed_int64 1 (negsuc 4) boxed_int64_registered refl refl V.sixteen
      refl refl (inr refl)

int64_power-Ends_example : int64_power vm Errno.none_set V.seven V.boxed_int64 ≢ out_of_fuel
int64_power-Ends_example = int64_power-Ends vm vm-HoldsWords Errno.none_set V.seven V.boxed_int64
