-- ===== src/Source/Steps/Life.antt =====
-- A timer or a watch from its creation to its disposal (src/l2dbus_timeout.c, src/l2dbus_watch.c).
use Prim.Native.String.{String}
use l2dbus.Base.{
  ℕ, Option, none, some, ◌≡◌, refl, List, ok, lua_error, Error, if◌then◌else◌, ◌||◌, Bool, true,
  false, arith, Bool-cases, inl, inr, ==_iff,
}
use l2dbus.Base.Actions.{◌>>=◌}
use l2dbus.Base.Int.{ℤ, eqb_ℤ}
use l2dbus.Boxed.{check_udata}
use l2dbus.Callback.{callback_unref}
use l2dbus.Lua.{Lua}
use l2dbus.Object.Laws.{find-drop}
use l2dbus.Lua.Slots.{anchored-release_if}
use l2dbus.Lua.Refs.{Refs, RefsLaws}
use l2dbus.Object.{Registry, object_registry_get, object_registry_add, object_registry_remove}
use l2dbus.Source.{SourceUd, Sources, Host, create, dispose, data_of, called, stop}
use l2dbus.Source.Anchors.{Owned-create, value_of}
use l2dbus.Source.Steps.{InUse}
use l2dbus.Userdata.{load, check_module_initialized, to_ref, optional_ref}

if-or :
    {A : Type 0} (a b c : Bool) (x y : A)
    → (if a then x else if b then x else if c then x else y) ≡ (if a || (b || c) then x else y)
if-or true b c x y = refl
if-or false true c x y = refl
if-or false false c x y = refl

module _ (L : Lua) (R : Refs L.Value) (laws : RefsLaws L.Value R) (E : Sources)
    (name : String) where
  open L use {Value}

  module _ (p : ℕ) (self : Value) (checked : check_udata L self name ≡ ok p) where
    pub create-InUse :
        (new : E.World → E.World × Option ℕ) (dispatcher func : Value) (user : Option Value)
        (s : Host L R E name) {f d : Value} {w : E.World} {h : ℕ} {es : List (ℕ × Value)}
        → R.IsSound s.refs
        → to_ref L func ≡ some f
        → to_ref L dispatcher ≡ some d
        → new s.world ≡ (w, some h)
        → s.registry ≡ some es
        → InUse L R E name p self f d (create L R E name new p self dispatcher func user s).0
    unfolding create object_registry_add object_registry_get
    create-InUse new dispatcher func user s {h} {es} sound ef ed en er =
        rw (create, en, ef, ed, er)
          record {
            ud = _;
            user = value_of (optional_ref L user);
            itself = none;
            stored = ground arith;
            owned = Owned-create R laws s.refs _ _ (optional_ref L user) (new s.world).1 sound;
            found = ground arith;
          }

    pub create-ok :
        (new : E.World → E.World × Option ℕ) (dispatcher func : Value) (user : Option Value)
        (s : Host L R E name) {w : E.World} {h : ℕ} {es : List (ℕ × Value)}
        → new s.world ≡ (w, some h)
        → s.registry ≡ some es
        → (create L R E name new p self dispatcher func user s).1 ≡ ok self
    unfolding create object_registry_add
    create-ok new dispatcher func user s en er = rw (create, en, er) refl

    pub called-InUse :
        (s : Host L R E name) (f d : Value) (h : InUse L R E name p self f d s)
        → called L R E name p s ≡ (s, ok (some (some f, (self, h.user))))
    unfolding called
    called-InUse s f d h =
        rw (called, h.found, ◌>>=◌, load, h.stored, h.owned.func.holds, h.owned.user.holds) refl

    pub data_of-InUse :
        (s : Host L R E name) (f d : Value) (h : InUse L R E name p self f d s)
        → (data_of L R E name self s).1
          ≡ (if s.initialized then ok h.user else lua_error Error.not_initialized)
    unfolding data_of check_module_initialized
    data_of-InUse s f d h = elim (Bool-cases s.initialized) [
      | inl ready ↦ rw (checked, h.stored, ready, h.owned.user.holds) refl
      | inr early ↦ rw (checked, h.stored, early) refl
    ]

    registered :
        (reg : Registry Value) {v : Option Value}
        → object_registry_get p reg ≡ ok v
        → (es : List (ℕ × Value)) × (reg ≡ some es)
    unfolding object_registry_get
    registered none e = absurd (cc e)
    registered (some es) e = (es, refl)

    stop-refs :
        (source : Option ℕ) (s : Host L R E name)
        → (w : E.World) × (stop L R E name source s ≡ (record s { world = w }, ok tt))
    stop-refs none s = (s.world, refl)
    stop-refs (some h) s = (_, refl)

    dispose-refs :
        (s : Host L R E name) (ud : SourceUd)
        (registry : (es : List (ℕ × Value)) × (s.registry ≡ some es))
        → s.objects p ≡ some ud
        → (dispose L R E name self s).0.refs
          ≡ callback_unref Value R (R.release s.refs ud.disp_ref) ud.cb
    unfolding dispose object_registry_remove
    dispose-refs s ud (es, er) e = rw (checked, e, (stop-refs ud.source s).1, er) refl

    -- The references that disposing gives back anchor nothing afterwards, the others what they did.
    pub dispose-anchored :
        (s : Host L R E name) (f d : Value) (h : InUse L R E name p self f d s) (q : ℤ)
        → R.anchored (dispose L R E name self s).0.refs q ≡ (
            if eqb_ℤ q h.ud.cb.user_ref || (eqb_ℤ q h.ud.cb.func_ref || eqb_ℤ q h.ud.disp_ref)
            then none
            else R.anchored s.refs q)
    unfolding callback_unref
    dispose-anchored s f d h q = rw (dispose-refs s h.ud (registered s.registry h.found) h.stored) (
        rw (anchored-release_if R laws _ h.ud.cb.user_ref q) (
          rw (anchored-release_if R laws _ h.ud.cb.func_ref q) (
            rw (anchored-release_if R laws _ h.ud.disp_ref q) (
              if-or (eqb_ℤ q h.ud.cb.user_ref) (eqb_ℤ q h.ud.cb.func_ref) (eqb_ℤ q h.ud.disp_ref)
                none (R.anchored s.refs q)))))

    pub dispose-found :
        (s : Host L R E name) (f d : Value) (h : InUse L R E name p self f d s)
        → object_registry_get p (dispose L R E name self s).0.registry ≡ ok none
    unfolding dispose object_registry_remove object_registry_get
    dispose-found s f d h =
        let (es, er) = registered s.registry h.found in
        rw
          (
            checked,
            h.stored,
            (stop-refs h.ud.source s).1,
            er,
            find-drop p p es,
            (==_iff p p).1 refl,
          )
          refl
