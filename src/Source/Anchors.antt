-- ===== src/Source/Anchors.antt =====
-- The references of a timer or a watch (src/l2dbus_timeout.c, src/l2dbus_watch.c): which values they
-- anchor, and that giving one back leaves the others.
use l2dbus.Base.{ℕ, Option, none, some, ◌≡◌, ◌≢◌, refl, inl, inr, sym}
use l2dbus.Base.Int.{ℤ}
use l2dbus.Callback.{callback_ref, slot}
use l2dbus.Lua.Refs.{Refs, RefsLaws, IsHeld, no_ref}
use l2dbus.Lua.Slots.{
  Slot, Survives, Slot-take, Slot-none, Slot-take_other, Slot-release, take-Survives_old,
  take-Survives_new, Slot-release_sound,
}
use l2dbus.Source.{SourceUd}

module _ {V : Type 0} (R : Refs V) where
  -- Of the references, only those to the value `u` of the user and to the userdata `w` are given back
  -- while the userdata is in use. That leaves the other ones.
  pub record Apart (ud : SourceUd) (f d : V) (u w : Option V) : Type 0 where
    pub func_without_user : Survives ud.cb.user_ref ud.cb.func_ref (some f)
    pub func_without_self : Survives ud.self_ref ud.cb.func_ref (some f)
    pub disp_without_user : Survives ud.cb.user_ref ud.disp_ref (some d)
    pub disp_without_self : Survives ud.self_ref ud.disp_ref (some d)
    pub user_without_self : Survives ud.self_ref ud.cb.user_ref u
    pub self_without_user : Survives ud.cb.user_ref ud.self_ref w

  -- The handler `f`, the dispatcher `d`, the value `u` of the user and, where it is anchored, the
  -- userdata `w` itself.
  pub record Owned (t : R.Table) (ud : SourceUd) (f d : V) (u w : Option V) : Type 0 where
    pub sound : R.IsSound t
    pub func : Slot R t ud.cb.func_ref (some f)
    pub disp : Slot R t ud.disp_ref (some d)
    pub user : Slot R t ud.cb.user_ref u
    pub self : Slot R t ud.self_ref w
    pub apart : Apart ud f d u w

abbrev pub value_of : {V : Type 0} → Option (Option V) → Option V
value_of none = none
value_of (some v) = v

module _ {V : Type 0} (R : Refs V) (laws : RefsLaws V R) where
  open R use {Table, take, release}

  live-ne_no_ref : (t : Table) (r : ℤ) {v : V} → R.anchored t r ≡ some v → r ≢ no_ref
  live-ne_no_ref t r h e = cc (h, e, laws.anchored-no_ref t)

  no_ref-Survives : (t : Table) (r : ℤ) (v : Option V) → Slot R t r v → Survives no_ref r v
  no_ref-Survives t r none h = inr refl
  no_ref-Survives t r (some v) h = inl (live-ne_no_ref t r h.holds)

  -- Nothing that others take or give back concerns a reference that is owned.
  pub Owned-take :
      (t : Table) (ud : SourceUd) {f d : V} {u w : Option V} (x : Option V)
      → Owned R t ud f d u w
      → Owned R (take t x).0 ud f d u w
  Owned-take t ud x o = record {
    sound = laws.take-IsSound t x o.sound;
    func = Slot-take_other R laws t x _ _ o.sound o.func;
    disp = Slot-take_other R laws t x _ _ o.sound o.disp;
    user = Slot-take_other R laws t x _ _ o.sound o.user;
    self = Slot-take_other R laws t x _ _ o.sound o.self;
    apart = o.apart;
  }

  pub Owned-release :
      (t : Table) (ud : SourceUd) {f d : V} {u w : Option V} (q : ℤ)
      → q ≢ ud.cb.func_ref
      → q ≢ ud.disp_ref
      → q ≢ ud.cb.user_ref
      → q ≢ ud.self_ref
      → IsHeld R t q
      → Owned R t ud f d u w
      → Owned R (release t q) ud f d u w
  Owned-release t ud q a b c e held o = record {
    sound = laws.release-IsSound t q held o.sound;
    func = Slot-release R laws t q _ _ (inl λ p. a (sym p)) o.func;
    disp = Slot-release R laws t q _ _ (inl λ p. b (sym p)) o.disp;
    user = Slot-release R laws t q _ _ (inl λ p. c (sym p)) o.user;
    self = Slot-release R laws t q _ _ (inl λ p. e (sym p)) o.self;
    apart = o.apart;
  }

  -- The userdata is anchored, whether or not it was before.
  pub Owned-anchor :
      (t : Table) (ud : SourceUd) {f d : V} {u w : Option V} (x : V)
      → Owned R t ud f d u w
      → Owned R (take t (some x)).0 (record ud { self_ref = (take t (some x)).1 }) f d u (some x)
  Owned-anchor t ud x o = record {
    sound = laws.take-IsSound t (some x) o.sound;
    func = Slot-take_other R laws t (some x) _ _ o.sound o.func;
    disp = Slot-take_other R laws t (some x) _ _ o.sound o.disp;
    user = Slot-take_other R laws t (some x) _ _ o.sound o.user;
    self = Slot-take R laws t (some x);
    apart = record {
      func_without_user = o.apart.func_without_user;
      func_without_self = take-Survives_old R laws t (some x) _ _ o.sound o.func;
      disp_without_user = o.apart.disp_without_user;
      disp_without_self = take-Survives_old R laws t (some x) _ _ o.sound o.disp;
      user_without_self = take-Survives_old R laws t (some x) _ _ o.sound o.user;
      self_without_user = take-Survives_new R laws t (some x) _ _ o.sound o.user;
    };
  }

  -- The userdata is not anchored any more.
  pub Owned-unanchor :
      (t : Table) (ud : SourceUd) {f d : V} {u w : Option V}
      → Owned R t ud f d u w
      → Owned R (release t ud.self_ref) (record ud { self_ref = no_ref }) f d u none
  Owned-unanchor t ud o = record {
    sound = Slot-release_sound R laws t ud.self_ref _ o.self o.sound;
    func = Slot-release R laws t ud.self_ref _ _ o.apart.func_without_self o.func;
    disp = Slot-release R laws t ud.self_ref _ _ o.apart.disp_without_self o.disp;
    user = Slot-release R laws t ud.self_ref _ _ o.apart.user_without_self o.user;
    self = Slot-none R laws (release t ud.self_ref);
    apart = record {
      func_without_user = o.apart.func_without_user;
      func_without_self = no_ref-Survives t _ _ o.func;
      disp_without_user = o.apart.disp_without_user;
      disp_without_self = no_ref-Survives t _ _ o.disp;
      user_without_self = no_ref-Survives t _ _ o.user;
      self_without_user = inr refl;
    };
  }

  -- The value of the user is replaced.
  pub Owned-set_data :
      (t : Table) (ud : SourceUd) {f d : V} {u w : Option V} (x : Option V)
      → Owned R t ud f d u w
      → let t' = release t ud.cb.user_ref in
        Owned R (take t' x).0 (record ud { cb = record ud.cb { user_ref = (take t' x).1 } }) f d x w
  Owned-set_data t ud x o =
      let q = ud.cb.user_ref in
      let t' = release t q in
      let func = Slot-release R laws t q _ _ o.apart.func_without_user o.func in
      let disp = Slot-release R laws t q _ _ o.apart.disp_without_user o.disp in
      let self = Slot-release R laws t q _ _ o.apart.self_without_user o.self in
      let sound = Slot-release_sound R laws t q _ o.user o.sound in
      record {
        sound = laws.take-IsSound t' x sound;
        func = Slot-take_other R laws t' x _ _ sound func;
        disp = Slot-take_other R laws t' x _ _ sound disp;
        user = Slot-take R laws t' x;
        self = Slot-take_other R laws t' x _ _ sound self;
        apart = record {
          func_without_user = take-Survives_old R laws t' x _ _ sound func;
          func_without_self = o.apart.func_without_self;
          disp_without_user = take-Survives_old R laws t' x _ _ sound disp;
          disp_without_self = o.apart.disp_without_self;
          user_without_self = take-Survives_new R laws t' x _ _ sound self;
          self_without_user = take-Survives_old R laws t' x _ _ sound self;
        };
      }

  pub Slot-user :
      (t : Table) (user : Option (Option V))
      → Slot R (slot V R t user).0 (slot V R t user).1 (value_of user)
  unfolding slot
  Slot-user t none = Slot-none R laws t
  Slot-user t (some v) = Slot-take R laws t v

  pub Slot-slot :
      (t : Table) (user : Option (Option V)) (r : ℤ) (v : Option V)
      → R.IsSound t
      → Slot R t r v
      → Slot R (slot V R t user).0 r v
  unfolding slot
  Slot-slot t none r v sound h = h
  Slot-slot t (some x) r v sound h = Slot-take_other R laws t x r v sound h

  pub slot-IsSound :
      (t : Table) (user : Option (Option V)) → R.IsSound t → R.IsSound (slot V R t user).0
  unfolding slot
  slot-IsSound t none sound = sound
  slot-IsSound t (some x) sound = laws.take-IsSound t x sound

  slot-Survives :
      (t : Table) (user : Option (Option V)) (r : ℤ) (v : Option V)
      → R.IsSound t
      → Slot R t r v
      → Survives (slot V R t user).1 r v
  unfolding slot
  slot-Survives t none r v sound h = no_ref-Survives t r v h
  slot-Survives t (some x) r v sound h = take-Survives_old R laws t x r v sound h

  -- What a constructor takes: the references of the callback, then the one to the dispatcher.
  pub Owned-create :
      (t : Table) (f d : V) (user : Option (Option V)) (h : Option ℕ)
      → R.IsSound t
      → let (t', ctx) = callback_ref V R t (some (some f)) user in
        Owned R
          (take t' (some d)).0
          (record { source = h; disp_ref = (take t' (some d)).1; self_ref = no_ref; cb = ctx })
          f
          d
          (value_of user)
          none
  unfolding callback_ref slot
  Owned-create t f d user h sound =
      let t1 = (take t (some f)).0 in
      let t2 = (slot V R t1 user).0 in
      let sound1 = laws.take-IsSound t (some f) sound in
      let sound2 = slot-IsSound t1 user sound1 in
      let func = Slot-slot t1 user _ _ sound1 (Slot-take R laws t (some f)) in
      let user' = Slot-user t1 user in
      record {
        sound = laws.take-IsSound t2 (some d) sound2;
        func = Slot-take_other R laws t2 (some d) _ _ sound2 func;
        disp = Slot-take R laws t2 (some d);
        user = Slot-take_other R laws t2 (some d) _ _ sound2 user';
        self = Slot-none R laws (take t2 (some d)).0;
        apart = record {
          func_without_user = slot-Survives t1 user _ _ sound1 (Slot-take R laws t (some f));
          func_without_self = no_ref-Survives t2 _ _ func;
          disp_without_user = take-Survives_new R laws t2 (some d) _ _ sound2 user';
          disp_without_self =
              no_ref-Survives (take t2 (some d)).0 _ _ (Slot-take R laws t2 (some d));
          user_without_self = no_ref-Survives t2 _ _ user';
          self_without_user = inr refl;
        };
      }
