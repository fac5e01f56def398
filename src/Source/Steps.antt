-- ===== src/Source/Steps.antt =====
-- What can happen to a timer or a watch (src/l2dbus_timeout.c, src/l2dbus_watch.c) between its creation
-- and its disposal: its own methods, what libcdbus does, and what its handler and other code do as long
-- as they give back references that are in use only, and none of the userdata's own. The stale references
-- that a cancelled pending call and a failed constructor give back a second time are no such steps.
pub mod Keep
pub mod Leaks
pub mod Life
use Prim.Native.String.{String}
use l2dbus.Base.{ℕ, Option, none, some, ◌≡◌, ◌≢◌, List, Result, ok, false}
use l2dbus.Base.Int.{ℤ}
use l2dbus.Lua.{Lua}
use l2dbus.Lua.Refs.{Refs, IsHeld}
use l2dbus.Object.{Registry, object_registry_get}
use l2dbus.Source.{SourceUd, Sources, Host, set_enable, set_data, anchor}
use l2dbus.Source.Anchors.{Owned}
use l2dbus.Userdata.{State, set_object}

module _ (L : Lua) (R : Refs L.Value) (E : Sources) (name : String) (p : ℕ) (self : L.Value) where
  open L use {Value}
  open R use {Table, take, release}

  -- Not a reference that the userdata at `p` keeps.
  abbrev pub Foreign : ℤ → Host L R E name → Type 0
  Foreign q s =
      (ud : SourceUd) × (s.objects p ≡ some ud)
      × (q ≢ ud.cb.func_ref)
      × (q ≢ ud.disp_ref)
      × (q ≢ ud.cb.user_ref)
      × (q ≢ ud.self_ref)

  pub data Step : Host L R E name → Host L R E name → Type 0 where
    enabling :
        (s : Host L R E name) (option : Value) → Step s (set_enable L R E name self option s).0
    giving_data :
        (s : Host L R E name) (value : Value) (more : List Value)
        → Step s (set_data L R E name self value more s).0
    -- a timer that fires without repeating
    dropping :
        (s : Host L R E name) (ud : SourceUd)
        → s.objects p ≡ some ud
        → Step s (anchor L R E name self p ud false s).0
    -- other references, other userdata, and libcdbus; the registry keeps the entry of this userdata
    taking :
        (s : Host L R E name) (x : Option Value) → Step s (record s { refs = (take s.refs x).0 })
    releasing :
        (s : Host L R E name) (q : ℤ)
        → Foreign q s
        → IsHeld R s.refs q
        → Step s (record s { refs = release s.refs q })
    storing :
        (s : Host L R E name) (q : ℕ) (ud : Option SourceUd) → q ≢ p → Step s (set_object q ud s)
    registering :
        (s : Host L R E name) (reg : Registry Value)
        → object_registry_get p reg ≡ object_registry_get p s.registry
        → Step s (record s { registry = reg })
    running : (s : Host L R E name) (w : E.World) → Step s (record s { world = w })

  pub data Steps : Host L R E name → Host L R E name → Type 0 where
    nothing : (s : Host L R E name) → Steps s s
    step : {s s' s'' : Host L R E name} → Steps s s' → Step s' s'' → Steps s s''

  -- The userdata is in use: the registry finds it, and its references anchor the handler `f`, the
  -- dispatcher `d`, and what the user gave.
  pub record InUse (f d : Value) (s : Host L R E name) : Type 0 where
    pub ud : SourceUd
    pub user : Option Value
    pub itself : Option Value
    pub stored : s.objects p ≡ some ud
    pub owned : Owned R s.refs ud f d user itself
    pub found : object_registry_get p s.registry ≡ ok (some self)
