-- ===== src/Source/Steps/Leaks.antt =====
-- Where src/l2dbus_timeout.c and src/l2dbus_watch.c give back a reference too rarely, or too often.
use Prim.Native.String.{String}
use l2dbus.Base.{
  ℕ, Option, none, some, ◌≡◌, ◌∙◌, refl, List, ok, lua_error, Error, Bool, true, false, arith,
}
use l2dbus.Base.Actions.{◌>>◌}
use l2dbus.Base.Int.{ℤ}
use l2dbus.Boxed.{check_udata, check_type}
use l2dbus.Callback.{callback_ref, callback_unref}
use l2dbus.Lua.{Lua, LuaType}
use l2dbus.Lua.Refs.{Refs, RefsLaws, no_ref}
use l2dbus.Lua.Slots.{live-ne_take, anchored-release_if}
use l2dbus.Object.{object_registry_remove}
use l2dbus.Source.{SourceUd, Sources, Host, set_enable, create, dispose}
use l2dbus.Userdata.{set_object, check_module_initialized, to_ref, optional_ref}

module _ (L : Lua) (R : Refs L.Value) (laws : RefsLaws L.Value R) (E : Sources)
    (name : String) where
  open L use {Value, lua_type, to_boolean}
  open R use {take, release, anchored}

  -- The userdata `self` at `p` is registered as one of the class, and calls of libcdbus to enable and disable
  -- it succeed.
  pub record Switchable (p : ℕ) (self : Value) : Type 0 where
    pub checked : check_udata L self name ≡ ok p
    pub self_type : lua_type self ≡ LuaType.userdata
    pub enables : (w : E.World) (h : ℕ) (b : Bool) → (E.enable w h b).1 ≡ true

  module _ (p : ℕ) (self : Value) (c : Switchable p self) where
    set_enable-on :
        (option : Value) (s : Host L R E name) (ud : SourceUd) {h : ℕ}
        → lua_type option ≡ LuaType.boolean
        → to_boolean option ≡ true
        → s.initialized ≡ true
        → s.objects p ≡ some ud
        → ud.source ≡ some h
        → set_enable L R E name self option s ≡ (
          set_object p (some (record ud { self_ref = (take s.refs (some self)).1 })) (record s {
            refs = (take s.refs (some self)).0;
            world = (E.enable s.world h true).0;
          }),
          ok tt,
        )
    unfolding set_enable check_type check_module_initialized
    set_enable-on option s ud {h} et eb ei eo es =
        rw (c.checked, eo, et, ei, es, eb, c.enables s.world h true, to_ref, c.self_type) refl

    set_enable-off :
        (option : Value) (s : Host L R E name) (ud : SourceUd) {h : ℕ}
        → lua_type option ≡ LuaType.boolean
        → to_boolean option ≡ false
        → s.initialized ≡ true
        → s.objects p ≡ some ud
        → ud.source ≡ some h
        → set_enable L R E name self option s ≡ (
          set_object p (some (record ud { self_ref = no_ref })) (record s {
            refs = release s.refs ud.self_ref;
            world = (E.enable s.world h false).0;
          }),
          ok tt,
        )
    unfolding set_enable check_type check_module_initialized
    set_enable-off option s ud {h} et eb ei eo es =
        rw (c.checked, eo, et, ei, es, eb, c.enables s.world h false) refl

    -- Where no reference was given back that was not in use: a timer or a watch that is enabled twice and
    -- then disabled keeps no reference to itself, but the
    -- reference that the first enabling took still anchors it.
    pub set_enable-twice :
        (on off : Value) (s : Host L R E name) (ud : SourceUd) (h : ℕ)
        → R.IsSound s.refs
        → lua_type on ≡ LuaType.boolean
        → lua_type off ≡ LuaType.boolean
        → to_boolean on ≡ true
        → to_boolean off ≡ false
        → s.initialized ≡ true
        → s.objects p ≡ some ud
        → ud.source ≡ some h
        → let s' =
            ((set_enable L R E name self on >> set_enable L R E name self on)
                >> set_enable L R E name self off)
              s in
          (s'.1 ≡ ok tt)
          × (s'.0.objects p ≡ some (record ud { self_ref = no_ref }))
          × (anchored s'.0.refs (take s.refs (some self)).1 ≡ some self)
    set_enable-twice on off s ud h sound ton toff bon boff ei eo es =
        let t1 = (take s.refs (some self)).0 in
        let r1 = (take s.refs (some self)).1 in
        let t2 = (take t1 (some self)).0 in
        let r2 = (take t1 (some self)).1 in
        let ud1 : SourceUd = record ud { self_ref = r1 } in
        let ud2 : SourceUd = record ud { self_ref = r2 } in
        let s1 : Host L R E name =
          set_object p (some ud1) (record s { refs = t1; world = (E.enable s.world h true).0 }) in
        let s2 : Host L R E name =
          set_object p (some ud2) (record s1 { refs = t2; world = (E.enable s1.world h true).0 }) in
        let sound1 = laws.take-IsSound s.refs (some self) sound in
        let first : anchored t1 r1 ≡ some self = laws.anchored-take s.refs (some self) in
        let second : anchored t2 r1 ≡ some self =
          laws.anchored-take_other t1 (some self) r1
            (live-ne_take R laws t1 (some self) r1 sound1 first)
          ∙ first in
        rw (set_enable-on on s ud ton bon ei eo es) (
          rw (set_enable-on on s1 ud1 ton bon ei (ground arith) es) (
            rw (set_enable-off off s2 ud2 toff boff ei (ground arith) es) (
              refl,
              ground arith,
              laws.anchored-release_other t2 r2 r1
                    (live-ne_take R laws t1 (some self) r1 sound1 first)
                  ∙ second,
            )))

    -- Where libcdbus creates no source, the constructor gives the reference to the handler back and raises an
    -- error, but the userdata still has it: disposing of it later gives it back again, whatever it
    -- anchors by then.
    pub create-dispose_failed :
        (new : E.World → E.World × Option ℕ) (dispatcher func : Value) (user : Option Value)
        (s s' : Host L R E name) (w : E.World) (es : List (ℕ × Value))
        → new s.world ≡ (w, none)
        → s'.objects p ≡ (create L R E name new p self dispatcher func user s).0.objects p
        → s'.registry ≡ some es
        → let r = (take s.refs (to_ref L func)).1 in
          let failed = create L R E name new p self dispatcher func user s in
          (failed.1 ≡ lua_error Error.no_memory)
          × (anchored failed.0.refs r ≡ none)
          × ((dispose L R E name self s').1 ≡ ok tt)
          × (anchored (dispose L R E name self s').0.refs r ≡ none)
    unfolding create dispose callback_ref callback_unref object_registry_remove
    create-dispose_failed new dispatcher func user s s' w es en eo er =
        let ctx = (callback_ref L.Value R s.refs (some (to_ref L func)) (optional_ref L user)).1 in
        let ud : SourceUd = record {
          source = none;
          disp_ref = no_ref;
          self_ref = no_ref;
          cb = ctx;
        } in
        let stored : s'.objects p ≡ some ud = eo ∙ rw (create, en) (ground arith) in
        (
          rw (create, en) refl,
          rw (create, en) (gone _ ctx.func_ref ctx.user_ref),
          rw (c.checked, stored, er) refl,
          rw (c.checked, stored, er) (gone _ ctx.func_ref ctx.user_ref),
        )
      where
        gone : (t : R.Table) (q r : ℤ) → anchored (release (release t q) r) q ≡ none
        gone t q r =
            rw (anchored-release_if R laws (release t q) r q)
              (rw (laws.anchored-release t q) (ground arith))
