-- ===== src/Transcode/Constructors/Stored.antt =====
-- What the constructors of src/l2dbus_transcode.c store in a wrapper.
use l2dbus.Base.{
  ℕ, ◌≡◌, refl, inl, inr, Bool, true, false, Bool-cases, Option-cases, Option, none, some, List, [],
  ◌∷◌, ok, >>=-eq-ok,
}
use l2dbus.Lua.{Lua, Bytes}
use l2dbus.Transcode.Constructors.{
  given, Wrapped, describes, new_userdata, wrap, opt_string, passed, new_container,
}
use l2dbus.Transcode.Message.{Sigs, Library}
use l2dbus.Transcode.Tables.{Check}
use l2dbus.Types.{TypeId}

module _ (L : Lua) (B : Library) (has_room : Bytes → Bool) (fuel : ℕ) where
  open L use {Value}

  -- A signature that is kept is valid, and its first type is of the kind of the wrapper.
  abbrev pub IsDescribed : TypeId → Option Bytes → Type 0
  IsDescribed id none = Unit
  IsDescribed id (some s) = (ss : Sigs) × (B.parse s ≡ some ss) × (describes id ss ≡ true)

  new_userdata-IsDescribed :
      (id : TypeId) (signature kept : Option Bytes)
      → new_userdata L B has_room fuel id signature ≡ ok kept
      → (kept ≡ signature) × IsDescribed id kept
  unfolding new_userdata
  new_userdata-IsDescribed id none kept h = let same : none ≡ kept = cc in rw (← same) (refl, tt)
  new_userdata-IsDescribed id (some s) kept h = elim (Option-cases (B.parse s)) [
    | inl bad ↦ absurd (cc (rw (bad, new_userdata) at h))
    | inr (ss, parsed) ↦ elim (Bool-cases (describes id ss)) [
      | inr other ↦ absurd (cc (rw (parsed, other, new_userdata) at h))
      | inl described ↦ elim (Bool-cases (has_room s)) [
        | inr full ↦ absurd (cc (rw (parsed, described, full, new_userdata) at h))
        | inl room ↦
            let h' : ok (some s) ≡ ok kept = rw (parsed, described, room, new_userdata) at h in
            let same : some s ≡ kept = cc in rw (← same) (refl, (ss, parsed, described))
      ]
    ]
  ]

  passed-true : (c : Check) (u : Unit {0}) → passed L B has_room fuel c ≡ ok u → c ≡ some true
  passed-true none u h = absurd (cc)
  passed-true (some true) u h = refl
  passed-true (some false) u h = absurd (cc)

  -- A wrapper of a container that is created: it has the type of its class, it wraps the first
  -- argument, which passed the check of the class, and it keeps the signature that is the second
  -- argument, or none where that is missing; a signature that is kept is valid, and its first type is
  -- of the class.
  pub new_container-IsDescribed :
      (id : TypeId) (check : Value → Check) (args : List Value) (w : Wrapped Value)
      → new_container L B has_room fuel id check args ≡ ok w
      → (v : Value) × (more : List Value) × (args ≡ v ∷ more)
        × (check v ≡ some true)
        × (w.content ≡ given v)
        × (w.type_id ≡ id)
        × (opt_string L B has_room fuel more ≡ ok w.signature)
        × IsDescribed id w.signature
  unfolding new_container wrap
  new_container-IsDescribed id check [] w h = absurd (cc)
  new_container-IsDescribed id check (v ∷ more) w h =
      let (u, fine, h₁) = >>=-eq-ok (passed L B has_room fuel (check v)) _ h in
      let (signature, asked, h₂) = >>=-eq-ok (opt_string L B has_room fuel more) _ h₁ in
      let (kept, stored, last) = >>=-eq-ok (new_userdata L B has_room fuel id signature) _ h₂ in
      let (same, described) = new_userdata-IsDescribed id signature kept stored in
      let whole : Wrapped Value = record { type_id = id; signature = kept; content = given v } in
      let is_whole : whole ≡ w = cc in
      rw (← is_whole)
        (v, more, refl, passed-true (check v) u fine, refl, refl, rw same asked, described)
