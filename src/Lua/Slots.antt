-- ===== src/Lua/Slots.antt =====
-- A reference that a structure keeps, with the value that it stands for: what taking and releasing
-- other references leaves of it.
use l2dbus.Base.{
  Option, none, some, ◌≡◌, ◌≢◌, refl, sym, ap, ◌∙◌, ◌⊎◌, inl, inr, if◌then◌else◌, Bool-cases,
  ==_iff, true, false,
}
use l2dbus.Base.Int.{ℤ, eqb_ℤ, eq_of_parts}
use l2dbus.Lua.Refs.{Refs, RefsLaws, IsHeld, no_ref, ref_nil}

module _ {V : Type 0} (R : Refs V) where
  open R use {Table, take, release, anchored}

  -- A reference that anchors nothing is none that luaL_ref hands out for a value.
  pub record Slot (t : Table) (r : ℤ) (v : Option V) : Type 0 where
    pub holds : anchored t r ≡ v
    pub idle : v ≡ none → (r ≡ no_ref) ⊎ (r ≡ ref_nil)

-- Giving `q` back leaves the value of `r`.
abbrev pub Survives : {V : Type 0} → (q r : ℤ) → Option V → Type 0
Survives q r v = (r ≢ q) ⊎ (v ≡ none)

module _ {V : Type 0} (R : Refs V) (laws : RefsLaws V R) where
  open R use {Table, take, release, anchored, IsSound}

  anchored-idle : (t : Table) (r : ℤ) → (r ≡ no_ref) ⊎ (r ≡ ref_nil) → anchored t r ≡ none
  anchored-idle t r (inl e) = ap (anchored t) e ∙ laws.anchored-no_ref t
  anchored-idle t r (inr e) = ap (anchored t) e ∙ laws.anchored-ref_nil t

  taken-idle :
      (t : Table) (v : Option V) → v ≡ none → ((take t v).1 ≡ no_ref) ⊎ ((take t v).1 ≡ ref_nil)
  taken-idle t v e = inr (ap (λ w. (take t w).1) e ∙ ap (λ w. w.1) (laws.take-nil t))

  pub Slot-take : (t : Table) (v : Option V) → Slot R (take t v).0 (take t v).1 v
  Slot-take t v = record { holds = laws.anchored-take t v; idle = taken-idle t v }

  pub Slot-none : (t : Table) → Slot R t no_ref none
  Slot-none t = record { holds = laws.anchored-no_ref t; idle = λ e. inl refl }

  -- A reference that anchors something is none that is handed out now.
  pub live-ne_take :
      (t : Table) (x : Option V) (r : ℤ) {v : V}
      → IsSound t
      → anchored t r ≡ some v
      → r ≢ (take t x).1
  live-ne_take t x r sound h e = cc (h, e, laws.take_fresh t x sound)

  pub Slot-take_other :
      (t : Table) (x : Option V) (r : ℤ) (v : Option V)
      → IsSound t
      → Slot R t r v
      → Slot R (take t x).0 r v
  Slot-take_other t x r none sound h = record {
    holds = anchored-idle (take t x).0 r (h.idle refl);
    idle = h.idle;
  }
  Slot-take_other t x r (some v) sound h = record {
    holds = laws.anchored-take_other t x r (live-ne_take t x r sound h.holds) ∙ h.holds;
    idle = h.idle;
  }

  pub Slot-release :
      (t : Table) (q r : ℤ) (v : Option V)
      → Survives q r v
      → Slot R t r v
      → Slot R (release t q) r v
  Slot-release t q r v (inl ne) h = record {
    holds = laws.anchored-release_other t q r ne ∙ h.holds;
    idle = h.idle;
  }
  Slot-release t q r v (inr e) h = record {
    holds = anchored-idle (release t q) r (h.idle e) ∙ sym e;
    idle = h.idle;
  }

  -- What a structure keeps may be given back.
  pub Slot-IsHeld : (t : Table) (r : ℤ) (v : Option V) → Slot R t r v → IsHeld R t r
  Slot-IsHeld t r none h = inr (h.idle refl)
  Slot-IsHeld t r (some v) h = inl (λ e. cc (e, h.holds))

  pub Slot-release_sound :
      (t : Table) (r : ℤ) (v : Option V) → Slot R t r v → IsSound t → IsSound (release t r)
  Slot-release_sound t r v h = laws.release-IsSound t r (Slot-IsHeld t r v h)

  -- Giving back a new reference leaves the older ones, and the other way round.
  pub take-Survives_old :
      (t : Table) (x : Option V) (r : ℤ) (v : Option V)
      → IsSound t
      → Slot R t r v
      → Survives (take t x).1 r v
  take-Survives_old t x r none sound h = inr refl
  take-Survives_old t x r (some v) sound h = inl (live-ne_take t x r sound h.holds)

  pub take-Survives_new :
      (t : Table) (x : Option V) (q : ℤ) (v : Option V)
      → IsSound t
      → Slot R t q v
      → Survives q (take t x).1 x
  take-Survives_new t none q v sound h = inr refl
  take-Survives_new t (some x) q (some v) sound h =
      inl λ e. live-ne_take t (some x) q sound h.holds (sym e)
  take-Survives_new t (some x) q none sound h = inl λ e. some-ne_none (
      sym (laws.anchored-take t (some x))
      ∙ ap (anchored (take t (some x)).0) e
      ∙ anchored-idle (take t (some x)).0 q (h.idle refl))
    where
      some-ne_none : {v : V} → some v ≢ none
      some-ne_none e = cc e

  -- What the references anchor after one of them is given back.
  pub anchored-release_if :
      (t : Table) (r q : ℤ) → anchored (release t r) q ≡ (if eqb_ℤ q r then none else anchored t q)
  anchored-release_if t r q = elim (Bool-cases (eqb_ℤ q r)) [
    | inl same ↦ rw same (rw (eq_of_parts q r ((==_iff _ _).0 same)) (laws.anchored-release t r))
    | inr other ↦ rw other (laws.anchored-release_other t r q (λ e. ne_other q r other e))
  ]
    where
      ne_other : (q r : ℤ) → eqb_ℤ q r ≡ false → q ≢ r
      ne_other q r other e =
          let same : eqb_ℤ q r ≡ true = (==_iff _ _).1 (rw e refl) in cc (same, other)
