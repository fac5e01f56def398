-- ===== src/Source/Steps/Keep.antt =====
-- Every step keeps a timer or a watch in use (src/l2dbus_timeout.c, src/l2dbus_watch.c).
use Prim.Native.String.{String}
use l2dbus.Base.{ℕ, Option, none, some, ◌≡◌, refl, ◌∙◌, List, ok, Bool, true, false, arith}
use l2dbus.Base.Actions.{Action, Leads, Leads-bind, require-state, lift, ◌>>=◌, ◌>>◌}
use l2dbus.Base.Int.{ℤ}
use l2dbus.Boxed.{check_udata, check_type, check_any}
use l2dbus.Lua.{Lua, LuaType}
use l2dbus.Lua.Refs.{Refs, RefsLaws}
use l2dbus.Object.{object_registry_get}
use l2dbus.Source.{SourceUd, Sources, Host, set_enable, set_data, anchor}
use l2dbus.Source.Anchors.{
  Owned, Owned-anchor, Owned-unanchor, Owned-set_data, Owned-take, Owned-release,
}
use l2dbus.Source.Steps.{
  Step, Steps, InUse, enabling, giving_data, dropping, taking, releasing, storing, registering,
  running, nothing, step,
}
use l2dbus.Userdata.{
  set_object, check_module_initialized, handle, cdbus_call, to_ref, check_object, take_ref,
  release_ref, store, top,
}

module _ (L : Lua) (R : Refs L.Value) (laws : RefsLaws L.Value R) (E : Sources)
    (name : String) where
  open L use {Value}

  module _ (p : ℕ) (self : Value) (checked : check_udata L self name ≡ ok p)
      (self-ref : to_ref L self ≡ some self) (f d : Value) where
    -- The structure at `p` is `ud`.
    record At (ud : SourceUd) (s : Host L R E name) : Type 0 where
      user : Option Value
      itself : Option Value
      stored : s.objects p ≡ some ud
      owned : Owned R s.refs ud f d user itself
      found : object_registry_get p s.registry ≡ ok (some self)

    At-InUse : (ud : SourceUd) (s : Host L R E name) → At ud s → InUse L R E name p self f d s
    At-InUse ud s h = record {
      ud = ud;
      user = h.user;
      itself = h.itself;
      stored = h.stored;
      owned = h.owned;
      found = h.found;
    }

    InUse-At : (s : Host L R E name) (h : InUse L R E name p self f d s) → At h.ud s
    InUse-At s h = record {
      user = h.user;
      itself = h.itself;
      stored = h.stored;
      owned = h.owned;
      found = h.found;
    }

    -- A method that begins with the check of its userdata does the rest for what is found.
    check_object-eq :
        (s : Host L R E name) (ud : SourceUd)
        → s.objects p ≡ some ud
        → check_object L self name s ≡ (s, ok (p, ud))
    check_object-eq s ud h = rw (checked, h) refl

    stored-At :
        (s : Host L R E name) (t : R.Table) (ud : SourceUd) {user itself : Option Value}
        → object_registry_get p s.registry ≡ ok (some self)
        → Owned R t ud f d user itself
        → At ud (set_object p (some ud) (record s { refs = t }))
    stored-At s t ud found o = record {
      user = _;
      itself = _;
      stored = ground arith;
      owned = o;
      found = found;
    }

    anchor-Leads :
        (ud : SourceUd) (b : Bool)
        → Leads (At ud) (InUse L R E name p self f d) (anchor L R E name self p ud b)
    anchor-Leads ud true s h =
        rw self-ref
          (At-InUse _ _ (stored-At s _ _ h.found (Owned-anchor R laws s.refs ud self h.owned)))
    anchor-Leads ud false s h =
        At-InUse _ _ (stored-At s _ _ h.found (Owned-unanchor R laws s.refs ud h.owned))

    -- The calls before the structure is changed keep it as it is.
    kept :
        {A : Type 0} (ud : SourceUd) (m : Action (Host L R E name) A)
        → ((s : Host L R E name) → (m s).0 ≡ s)
        → Leads (At ud) (At ud) m
    kept ud m e s h = rw (e s) h

    checked-state : (s : Host L R E name) → (check_module_initialized s).0 ≡ s
    unfolding check_module_initialized
    checked-state s = require-state s.initialized _ s

    handle-state : (h : Option ℕ) (s : Host L R E name) → (handle h s).0 ≡ s
    handle-state none s = refl
    handle-state (some h) s = refl

    cdbus_call-Leads :
        (ud : SourceUd) (g : E.World → E.World × Bool) → Leads (At ud) (At ud) (cdbus_call g)
    cdbus_call-Leads ud g s h =
        rw (require-state (g s.world).1 _ (record s { world = (g s.world).0 })) record {
          user = h.user;
          itself = h.itself;
          stored = h.stored;
          owned = h.owned;
          found = h.found;
        }

    -- A chain that begins with a check does the rest in the same state, or fails in it.
    check-Leads :
        {A B : Type 0} (ud : SourceUd) (m : Action (Host L R E name) A)
        (k : A → Action (Host L R E name) B)
        → ((s : Host L R E name) → (m s).0 ≡ s)
        → ((a : A) → Leads (At ud) (InUse L R E name p self f d) (k a))
        → Leads (At ud) (InUse L R E name p self f d) (m >>= k)
    check-Leads ud m k e = Leads-bind m k (At-InUse ud) (λ s h. rw (e s) h)

    set_enable-InUse :
        (s : Host L R E name) (option : Value)
        → InUse L R E name p self f d s
        → InUse L R E name p self f d (set_enable L R E name self option s).0
    unfolding set_enable
    set_enable-InUse s option h =
        let on = L.to_boolean option in
        let switch : ℕ → Action (Host L R E name) (Unit {0}) =
          λ g. cdbus_call (λ w. E.enable w g on) >> anchor L R E name self p h.ud on in
        let rest : Action (Host L R E name) (Unit {0}) = handle h.ud.source >>= switch in
        rw (check_object-eq s h.ud h.stored) (
          check-Leads h.ud (lift (check_type L option LuaType.boolean))
            (λ u. check_module_initialized >> rest) (λ s. refl)
            (λ u.
              check-Leads h.ud check_module_initialized (λ u. rest) checked-state
                (λ u. check-Leads h.ud (handle h.ud.source) switch (handle-state h.ud.source) (λ g.
                  Leads-bind (cdbus_call (λ w. E.enable w g on))
                    (λ u. anchor L R E name self p h.ud on) (At-InUse h.ud)
                    (cdbus_call-Leads h.ud _) (λ u. anchor-Leads h.ud on))))
            s (InUse-At s h))

    set_data-InUse :
        (s : Host L R E name) (value : Value) (others : List Value)
        → InUse L R E name p self f d s
        → InUse L R E name p self f d (set_data L R E name self value others s).0
    unfolding set_data
    set_data-InUse s value others h =
        let ud = h.ud in
        let write : ℤ → Action (Host L R E name) (Unit {0}) =
          λ r. store p (record ud { cb = record ud.cb { user_ref = r } }) in
        let replace : Action (Host L R E name) (Unit {0}) =
          release_ref R ud.cb.user_ref >> (take_ref R (to_ref L (top L value others)) >>= write) in
        let replaced : Leads (At ud) (InUse L R E name p self f d) replace = λ s h'. At-InUse _ _ (
          stored-At s _ _ h'.found
            (Owned-set_data R laws s.refs ud (to_ref L (top L value others)) h'.owned)) in
        rw (check_object-eq s ud h.stored) (
          check-Leads ud (lift (check_any L value)) (λ u. check_module_initialized >> replace)
            (λ s. refl)
            (λ u.
              check-Leads ud check_module_initialized (λ u. replace) checked-state (λ u. replaced))
            s (InUse-At s h))

    pub Step-InUse :
        {s s' : Host L R E name}
        → Step L R E name p self s s'
        → InUse L R E name p self f d s
        → InUse L R E name p self f d s'
    Step-InUse (enabling s option) h = set_enable-InUse s option h
    Step-InUse (giving_data s value others) h = set_data-InUse s value others h
    Step-InUse (dropping s ud e) h =
        let same : h.ud ≡ ud = cc (e, h.stored) in
        rw (← same) (anchor-Leads h.ud false s (InUse-At s h))
    Step-InUse (taking s x) h = record {
      ud = h.ud;
      user = _;
      itself = _;
      stored = h.stored;
      owned = Owned-take R laws s.refs h.ud x h.owned;
      found = h.found;
    }
    Step-InUse (releasing s q (ud, e, a, b, c, k) held) h =
        let same : h.ud ≡ ud = cc (e, h.stored) in
        record {
          ud = h.ud;
          user = _;
          itself = _;
          stored = h.stored;
          owned =
              Owned-release R laws s.refs h.ud q (rw same a) (rw same b) (rw same c) (rw same k)
                held h.owned;
          found = h.found;
        }
    Step-InUse (storing s q ud ne) h = record {
      ud = h.ud;
      user = _;
      itself = _;
      stored = ground (arith, h.stored);
      owned = h.owned;
      found = h.found;
    }
    Step-InUse (registering s reg e) h = record {
      ud = h.ud;
      user = _;
      itself = _;
      stored = h.stored;
      owned = h.owned;
      found = e ∙ h.found;
    }
    Step-InUse (running s w) h = record {
      ud = h.ud;
      user = _;
      itself = _;
      stored = h.stored;
      owned = h.owned;
      found = h.found;
    }

    -- Whatever happens before the disposal, the userdata stays in use.
    pub Steps-InUse :
        {s s' : Host L R E name}
        → Steps L R E name p self s s'
        → InUse L R E name p self f d s
        → InUse L R E name p self f d s'
    Steps-InUse (nothing s) h = h
    Steps-InUse (step steps last) h = Step-InUse last (Steps-InUse steps h)
