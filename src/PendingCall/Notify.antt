-- ===== src/PendingCall/Notify.antt =====
-- The callback of a pending call (src/l2dbus_pendingcall.c).
use l2dbus.Base.{ℕ, ◌≡◌, refl, ap, ◌∙◌, true, Option, none, some, List, ok, arith}
use l2dbus.Base.Actions.{◌>>=◌}
use l2dbus.Base.Int.{ℤ}
use l2dbus.Boxed.{check_udata, check_type}
use l2dbus.Callback.{CallbackCtx, callback_ref, callback_unref, slot}
use l2dbus.Lua.{Lua, LuaType}
use l2dbus.Lua.Refs.{Refs, RefsLaws, IsHeld}
use l2dbus.Lua.Slots.{Slot-take, anchored-release_if}
use l2dbus.Object.{object_registry_get, object_registry_remove}
use l2dbus.PendingCall.{
  PendingCallUd, PendingCalls, Host, Call, pending_call_set_notify, pending_call_cancel,
  pending_call_dispose, pending_call_handler, pending_called,
}
use l2dbus.Source.Anchors.{Slot-slot, Slot-user, value_of}
use l2dbus.Userdata.{check_module_initialized, to_ref, optional_ref, set_object, load}

module _ (L : Lua) (R : Refs L.Value) (laws : RefsLaws L.Value R) (D : PendingCalls) where
  open L use {Value, lua_type}
  open R use {anchored, release}

  -- A pending call `self` in the block `p`, of libdbus under the handle `h`.
  pub record Pending (p : ℕ) (self : Value) (ud : PendingCallUd) (h : ℕ) (s : Host L R D)
      : Type 0 where
    pub initialized : s.initialized ≡ true
    pub checked : check_udata L self "l2dbus.pending_call" ≡ ok p
    pub stored : s.objects p ≡ some ud
    pub pending : ud.pending_call ≡ some h
    pub found : object_registry_get p s.registry ≡ ok (some self)

  abbrev noticed :
      (p : ℕ) (s : Host L R D) (ud : PendingCallUd) (h : ℕ) → R.Table → CallbackCtx → Host L R D
  noticed p s ud h t ctx =
      set_object p (some (record ud { cb = ctx }))
        (record s { refs = t; world = (D.set_notify s.world h p).0 })

  set_notify-eq :
      (p : ℕ) (self func : Value) (user : Option Value) (s : Host L R D) (ud : PendingCallUd)
      (h : ℕ) (c : Pending p self ud h s)
      → lua_type func ≡ LuaType.function
      → (D.set_notify s.world h p).1 ≡ true
      → let (t, ctx) =
          callback_ref Value R
            (callback_unref Value R s.refs ud.cb)
            (some (to_ref L func))
            (optional_ref L user) in
        pending_call_set_notify L R D self func user s ≡ (noticed p s ud h t ctx, ok true)
  unfolding pending_call_set_notify check_module_initialized check_type
  set_notify-eq p self func user s ud h c t done =
      rw (c.initialized, c.checked, c.stored, t, c.pending, done) refl

  called-eq :
      (p : ℕ) (self : Value) (s : Host L R D) (ud : PendingCallUd)
      → object_registry_get p s.registry ≡ ok (some self)
      → s.objects p ≡ some ud
      → (f u : Option Value) → anchored s.refs ud.cb.func_ref ≡ f
      → anchored s.refs ud.cb.user_ref ≡ u
      → pending_called L R D p s ≡ (s, ok (some (f, (self, u))))
  unfolding pending_called
  called-eq p self s ud found stored f u ef eu =
      rw (pending_called, found, ◌>>=◌, load, stored, ef, eu) refl

  handler-eq :
      (run : Call L R D → Host L R D → Host L R D) (p : ℕ) (self : Value) (s : Host L R D)
      (ud : PendingCallUd)
      → object_registry_get p s.registry ≡ ok (some self)
      → s.objects p ≡ some ud
      → (f u : Option Value) → anchored s.refs ud.cb.func_ref ≡ f
      → anchored s.refs ud.cb.user_ref ≡ u
      → pending_call_handler L R D run p s ≡ (run (f, (self, u)) s, ok tt)
  unfolding pending_call_handler
  handler-eq run p self s ud found stored f u ef eu =
      rw (called-eq p self s ud found stored f u ef eu) refl

  func_anchored :
      (t : R.Table) (func : Value) (user : Option Value)
      → R.IsSound t
      → lua_type func ≡ LuaType.function
      → let (t', ctx) = callback_ref Value R t (some (to_ref L func)) (optional_ref L user) in
        anchored t' ctx.func_ref ≡ some func
  unfolding callback_ref slot
  func_anchored t func user sound e =
      (Slot-slot R laws (R.take t (to_ref L func)).0 (optional_ref L user) _ _
        (laws.take-IsSound t (to_ref L func) sound) (Slot-take R laws t (to_ref L func))).holds
      ∙ rw (to_ref, e) refl

  user_anchored :
      (t : R.Table) (func : Value) (user : Option Value)
      → let (t', ctx) = callback_ref Value R t (some (to_ref L func)) (optional_ref L user) in
        anchored t' ctx.user_ref ≡ value_of (optional_ref L user)
  unfolding callback_ref slot
  user_anchored t func user =
      (Slot-user R laws (R.take t (to_ref L func)).0 (optional_ref L user)).holds

  -- The references of a callback are in use when they are given back, one after the other. Those of a
  -- pending call that was cancelled are not.
  abbrev pub IsReleasable : R.Table → CallbackCtx → Type 0
  IsReleasable t ctx =
      R.IsSound t × IsHeld R t ctx.func_ref × IsHeld R (release t ctx.func_ref) ctx.user_ref

  callback_unref-IsSound :
      (t : R.Table) (ctx : CallbackCtx)
      → IsReleasable t ctx
      → R.IsSound (callback_unref Value R t ctx)
  unfolding callback_unref
  callback_unref-IsSound t ctx (sound, func, user) =
      laws.release-IsSound _ ctx.user_ref user (laws.release-IsSound t ctx.func_ref func sound)

  -- Where no reference was given back that was not in use, and the references of the callback that was set
  -- before are in use, so that it was not cancelled: once a notification is set, the handler calls the new function with the
  -- userdata and the new value, nil where none is given.
  pub pending_call_set_notify-handler :
      (run : Call L R D → Host L R D → Host L R D) (p : ℕ) (self func : Value) (user : Option Value)
      (s : Host L R D) (ud : PendingCallUd) (h : ℕ) (c : Pending p self ud h s)
      → IsReleasable s.refs ud.cb
      → lua_type func ≡ LuaType.function
      → (D.set_notify s.world h p).1 ≡ true
      → let (s', r) = pending_call_set_notify L R D self func user s in
        (r ≡ ok true)
        × (pending_call_handler L R D run p s'
            ≡ (run (some func, (self, value_of (optional_ref L user))) s', ok tt))
  pending_call_set_notify-handler run p self func user s ud h c free t done =
      let t1 = callback_unref Value R s.refs ud.cb in
      let (t2, ctx) = callback_ref Value R t1 (some (to_ref L func)) (optional_ref L user) in
      let s' : Host L R D = noticed p s ud h t2 ctx in
      let ef : anchored t2 ctx.func_ref ≡ some func =
        func_anchored t1 func user (callback_unref-IsSound s.refs ud.cb free) t in
      let eu : anchored t2 ctx.user_ref ≡ value_of (optional_ref L user) =
        user_anchored t1 func user in
      rw (set_notify-eq p self func user s ud h c t done) (
        refl,
        handler-eq run p self s' (record ud { cb = ctx }) c.found (ground arith) (some func)
            (value_of (optional_ref L user)) ef eu,
      )

  cancel-objects :
      (p : ℕ) (self : Value) (s : Host L R D) (ud : PendingCallUd) (h : ℕ)
      (c : Pending p self ud h s)
      → (pending_call_cancel L R D self s).0.objects ≡ s.objects
  unfolding pending_call_cancel check_module_initialized
  cancel-objects p self s ud h c = rw (c.initialized, c.checked, c.stored, c.pending) refl

  -- Cancelling a pending call gives the references of its callback back, but leaves them noted: in any later
  -- state in which the userdata is as it was left, disposing gives the reference to the handler back
  -- again, whatever it anchors by then.
  pub pending_call_cancel-dispose :
      (p : ℕ) (self : Value) (s s' : Host L R D) (ud : PendingCallUd) (h : ℕ)
      (c : Pending p self ud h s) (es : List (ℕ × Value))
      → s'.objects p ≡ (pending_call_cancel L R D self s).0.objects p
      → s'.registry ≡ some es
      → ((pending_call_cancel L R D self s).1 ≡ ok tt)
        × (anchored (pending_call_cancel L R D self s).0.refs ud.cb.func_ref ≡ none)
        × ((pending_call_dispose L R D self s').1 ≡ ok tt)
        × (anchored (pending_call_dispose L R D self s').0.refs ud.cb.func_ref ≡ none)
  unfolding pending_call_cancel pending_call_dispose check_module_initialized callback_unref
      object_registry_remove
  pending_call_cancel-dispose p self s s' ud h c es eo er =
      let stored : s'.objects p ≡ some ud =
        eo ∙ ap (λ o. o p) (cancel-objects p self s ud h c) ∙ c.stored in
      (
        rw (c.initialized, c.checked, c.stored, c.pending) refl,
        rw (c.initialized, c.checked, c.stored, c.pending) (gone _ _ _),
        rw (c.checked, stored, c.pending, er) refl,
        rw (c.checked, stored, c.pending, er) (gone _ _ _),
      )
    where
      gone : (t : R.Table) (q r : ℤ) → anchored (release (release t q) r) q ≡ none
      gone t q r =
          rw (anchored-release_if R laws (release t q) r q)
            (rw (laws.anchored-release t q) (ground arith))
