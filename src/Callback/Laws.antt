-- ===== src/Callback/Laws.antt =====
-- What the references of src/l2dbus_callback.c keep alive.
use l2dbus.Base.{Option, none, some, ◌≡◌, ◌≢◌, ◌∙◌, arith}
use l2dbus.Base.Int.{ℤ}
use l2dbus.Callback.{
  Globals, callback_configure, callback_shutdown, callback_get_thread, callback_ref, callback_unref,
}
use l2dbus.Lua.Slots.{live-ne_take}
use l2dbus.Lua.Refs.{Refs, RefsLaws, no_ref}

module _ (V : Type 0) (R : Refs V) (laws : RefsLaws V R) where
  open R use {Table, take, release, anchored}

  pub anchored-take_live :
      (t : Table) (v : Option V) (r : ℤ) {w : V}
      → R.IsSound t
      → anchored t r ≡ some w
      → anchored (take t v).0 r ≡ some w
  anchored-take_live t v r sound h =
      laws.anchored-take_other t v r (live-ne_take R laws t v r sound h) ∙ h

  pub anchored-release_live :
      (t : Table) (r r' : ℤ) {w : V}
      → r' ≢ r
      → anchored t r' ≡ some w
      → anchored (release t r) r' ≡ some w
  anchored-release_live t r r' ne h = laws.anchored-release_other t r r' ne ∙ h

  -- Taking the references of a callback anchors the handler and the value of the user, and leaves
  -- what other references anchor; giving them back leaves that too, and anchors neither.
  pub callback_ref-unref :
      (t : Table) (func user : V) (r : ℤ) (w : V)
      → R.IsSound t
      → anchored t r ≡ some w
      → let (t', ctx) = callback_ref V R t (some (some func)) (some (some user)) in
        (anchored t' ctx.func_ref ≡ some func)
        × (anchored t' ctx.user_ref ≡ some user)
        × (anchored t' r ≡ some w)
        × (anchored (callback_unref V R t' ctx) ctx.func_ref ≡ none)
        × (anchored (callback_unref V R t' ctx) ctx.user_ref ≡ none)
        × (anchored (callback_unref V R t' ctx) r ≡ some w)
  unfolding callback_ref callback_unref
  callback_ref-unref t func user r w sound h =
      let sound1 = laws.take-IsSound t (some func) sound in
      let t1 = (take t (some func)).0 in
      let f = (take t (some func)).1 in
      let t2 = (take t1 (some user)).0 in
      let u = (take t1 (some user)).1 in
      let first : anchored t1 f ≡ some func = laws.anchored-take t (some func) in
      let kept : anchored t2 f ≡ some func = anchored-take_live t1 (some user) f sound1 first in
      let second : anchored t2 u ≡ some user = laws.anchored-take t1 (some user) in
      let other : anchored t1 r ≡ some w = anchored-take_live t (some func) r sound h in
      let other' : anchored t2 r ≡ some w = anchored-take_live t1 (some user) r sound1 other in
      let f≢u : f ≢ u = live-ne_take R laws t1 (some user) f sound1 first in
      let r≢f : r ≢ f = live-ne_take R laws t (some func) r sound h in
      let r≢u : r ≢ u = live-ne_take R laws t1 (some user) r sound1 other in
      (
        kept,
        second,
        other',
        laws.anchored-release_other (release t2 f) u f f≢u ∙ laws.anchored-release t2 f,
        laws.anchored-release (release t2 f) u,
        anchored-release_live (release t2 f) u r r≢u (anchored-release_live t2 f r r≢f other'),
      )

  -- After a shutdown the thread is not anchored any more, but it is still the one that is handed out,
  -- also after the module is configured again.
  pub callback_configure-shutdown :
      (g : Globals V R) (running thread : V)
      → g.callback_thread ≡ some running
      → g.callback_ref ≢ no_ref
      → let g' = callback_configure V R thread (callback_shutdown V R g) in
        (callback_get_thread V R g' ≡ some running)
        × (anchored g'.refs g.callback_ref ≡ none)
        × (g'.callback_ref ≡ no_ref)
  unfolding callback_configure callback_shutdown callback_get_thread
  callback_configure-shutdown g running thread here live =
      ground (arith, laws.anchored-release g.refs g.callback_ref)
