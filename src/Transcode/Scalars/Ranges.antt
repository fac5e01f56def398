-- ===== src/Transcode/Scalars/Ranges.antt =====
-- What the basic cases of `l2dbus_transcodeMarshallAsType` (src/l2dbus_transcode.c) append is a value of
-- the D-Bus type, in its range.
use Prim.Native.String.{String}
use l2dbus.Base.{
  ℕ, ◌^◌, ◌<◌, ◌≡◌, inl, inr, refl, arith, true, some, Bool-cases, Option-cases, if◌then◌else◌,
  Result, ok, >>=-eq-ok,
}
use l2dbus.Base.Int.{ℤ, pos}
use l2dbus.Boxed.{read_int64, read_uint64}
use l2dbus.C.Words.{fits, u64_mod, double_to_int64, double_to_uint64, to_int64, to_uint64}
use l2dbus.Int64.Range.{double-InRange, to_int64-fits}
use l2dbus.Lua.{Lua, LuaType, LuaNumber}
use l2dbus.Lua.Laws.{HoldsWords}
use l2dbus.Transcode.Message.{Item, Library}
use l2dbus.Transcode.Scalars.{
  unsigned_cast, signed_cast, in_half, low_signed, append, boxed_argument, boolean_argument,
  number_argument, long_argument, unsigned_argument, signed_argument,
}
use l2dbus.Uint64.Range.{double-IsWord, to_uint64-lt}
use l2dbus.Util.{is_user_data}

low_signed-in_half_16 : (n : ℕ) → in_half (2 ^ 15) (low_signed (2 ^ 15) (2 ^ 16) n) ≡ true
low_signed-in_half_16 n = ground arith

low_signed-in_half_32 : (n : ℕ) → in_half (2 ^ 31) (low_signed (2 ^ 31) (2 ^ 32) n) ≡ true
low_signed-in_half_32 n = ground arith

module _ (L : Lua) (B : Library) where
  open L use {Value, lua_type, is_number, to_number, to_boolean}

  pub append-eq-ok : (i j : Item) → append L B i ≡ ok j → j ≡ i
  unfolding append
  append-eq-ok i j h = ground arith

  module _ {A : Type 0} (P : A → Type 0) (from_int : ℤ → A) (from_uint : ℕ → A)
      (int : (p : ℕ) (z : ℤ) → read_int64 L p ≡ ok z → P (from_int z))
      (uint : (p n : ℕ) → read_uint64 L p ≡ ok n → P (from_uint n)) where
    -- A property of what the conversions of a boxed integer give.
    boxed_argument-Keeps :
        (int_name uint_name : String) (v : Value) (a : A)
        → boxed_argument L B int_name uint_name from_int from_uint v ≡ ok a
        → P a
    unfolding boxed_argument
    boxed_argument-Keeps int_name uint_name v a h =
        elim (Option-cases (is_user_data L v (some int_name))) [
          | inr (p, e) ↦
              let (z, read, last) = >>=-eq-ok _ _ (rw (e, boxed_argument) at h) in
              let same : from_int z ≡ a = cc in rw (← same) (int p z read)
          | inl no_int ↦ elim (Option-cases (is_user_data L v (some uint_name))) [
            | inr (p, e) ↦
                let (n, read, last) = >>=-eq-ok _ _ (rw (no_int, e, boxed_argument) at h) in
                let same : from_uint n ≡ a = cc in rw (← same) (uint p n read)
            | inl no_uint ↦ absurd (cc (rw (no_int, no_uint, boxed_argument) at h))
          ]
        ]

    module _ (cast : LuaNumber → Result A)
        (casts : (d : LuaNumber) (a : A) → cast d ≡ ok a → P a) where
      number_argument-Keeps :
          (v : Value) (a : A) → number_argument L B cast from_int from_uint v ≡ ok a → P a
      unfolding number_argument
      number_argument-Keeps v a h = elim (Bool-cases (is_number v)) [
        | inl is ↦ casts (to_number v) a (rw (is, number_argument) at h)
        | inr other ↦ boxed_argument-Keeps _ _ v a (rw (other, number_argument) at h)
      ]

      long_argument-Keeps :
          (v : Value) (a : A) → long_argument L B cast from_int from_uint v ≡ ok a → P a
      unfolding long_argument
      long_argument-Keeps v a h = elim (Bool-cases (is_number v)) [
        | inl is ↦ casts (to_number v) a (rw (is, long_argument) at h)
        | inr other ↦ boxed_argument-Keeps _ _ v a (rw (other, long_argument) at h)
      ]

  unsigned_cast-lt : (range : ℕ) (d : LuaNumber) (n : ℕ) → unsigned_cast range d ≡ ok n → n < range
  unsigned_cast-lt range d n h = ground arith

  signed_cast-in_half :
      (half : ℕ) (d : LuaNumber) (z : ℤ) → signed_cast half d ≡ ok z → in_half half z ≡ true
  signed_cast-in_half half d z h =
      let (y, _, last) = >>=-eq-ok (double_to_int64 d) _ h in ground arith

  pub unsigned_argument-lt :
      (range : ℕ) (v : Value) (n : ℕ) → 0 < range → unsigned_argument L B range v ≡ ok n → n < range
  unfolding unsigned_argument
  unsigned_argument-lt range v n some_range h =
      number_argument-Keeps (λ n. n < range) _ _ (λ p z _. omega arith) (λ p n _. omega arith)
        (unsigned_cast range) (unsigned_cast-lt range) v n h

  pub signed_argument-in_half_16 :
      (v : Value) (z : ℤ)
      → signed_argument L B (2 ^ 15) (2 ^ 16) v ≡ ok z
      → in_half (2 ^ 15) z ≡ true
  unfolding signed_argument
  signed_argument-in_half_16 =
      number_argument-Keeps (λ z. in_half (2 ^ 15) z ≡ true) _ _
        (λ p z _. low_signed-in_half_16 (to_uint64 z)) (λ p n _. low_signed-in_half_16 n) _
        (signed_cast-in_half (2 ^ 15))

  pub boolean_argument-in_half :
      (v : Value) (z : ℤ) → boolean_argument L B v ≡ ok z → in_half (2 ^ 31) z ≡ true
  unfolding boolean_argument
  boolean_argument-in_half v z h = by_type (lua_type v) refl
    where
      by_type : (t : LuaType) → lua_type v ≡ t → in_half (2 ^ 31) z ≡ true
      by_type LuaType.boolean e =
          let same : ok (if to_boolean v then pos 1 else pos 0) ≡ ok z =
            rw (e, boolean_argument) at h in
          elim (Bool-cases (to_boolean v)) [
            | inl is ↦
                let same' : ok (pos 1) ≡ ok z = rw is at same in
                let z_is : pos 1 ≡ z = cc in rw (← z_is) refl
            | inr not ↦
                let same' : ok (pos 0) ≡ ok z = rw not at same in
                let z_is : pos 0 ≡ z = cc in rw (← z_is) refl
          ]
      by_type t e =
          boxed_argument-Keeps (λ z. in_half (2 ^ 31) z ≡ true) _ _
            (λ p z _. low_signed-in_half_32 (to_uint64 z)) (λ p n _. low_signed-in_half_32 n) _ _ v
            z (rw (e, boolean_argument) at h)

  pub signed_argument-in_half_32 :
      (v : Value) (z : ℤ)
      → signed_argument L B (2 ^ 31) (2 ^ 32) v ≡ ok z
      → in_half (2 ^ 31) z ≡ true
  unfolding signed_argument
  signed_argument-in_half_32 =
      number_argument-Keeps (λ z. in_half (2 ^ 31) z ≡ true) _ _
        (λ p z _. low_signed-in_half_32 (to_uint64 z)) (λ p n _. low_signed-in_half_32 n) _
        (signed_cast-in_half (2 ^ 31))

  module _ (words : HoldsWords L) where
    read_int64-fits : (p : ℕ) (z : ℤ) → read_int64 L p ≡ ok z → fits z ≡ true
    unfolding read_int64
    read_int64-fits p z h = grind (arith, words.0)

    read_uint64-lt : (p n : ℕ) → read_uint64 L p ≡ ok n → n < u64_mod
    unfolding read_uint64
    read_uint64-lt p n h = grind (arith, words.1)

    pub long_argument-fits :
        (v : Value) (z : ℤ)
        → long_argument L B double_to_int64 (λ z. z) to_int64 v ≡ ok z
        → fits z ≡ true
    long_argument-fits =
        long_argument-Keeps (λ z. fits z ≡ true) _ _ read_int64-fits
          (λ p n h. to_int64-fits n (read_uint64-lt p n h)) _ double-InRange

    pub long_argument-lt :
        (v : Value) (n : ℕ)
        → long_argument L B double_to_uint64 to_uint64 (λ n. n) v ≡ ok n
        → n < u64_mod
    long_argument-lt =
        long_argument-Keeps (λ n. n < u64_mod) _ _ (λ p z h. to_uint64-lt z (read_int64-fits p z h))
          read_uint64-lt _ double-IsWord
