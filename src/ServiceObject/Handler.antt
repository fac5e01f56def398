-- ===== src/ServiceObject/Handler.antt =====
-- `l2dbus_serviceObjectHandler` of src/l2dbus_serviceobject.c: a request is passed to the handler in Lua. The
-- assertions of the code are off, as with NDEBUG; otherwise a userdata that is collected aborts.
use l2dbus.Base.{ℕ, Option, none, some, if◌then◌else◌}
use l2dbus.Base.Actions.{Action, pure, gets, ◌>>=◌}
use l2dbus.Base.Int.{ℤ, eqb_ℤ}
use l2dbus.Lua.{Lua}
use l2dbus.Lua.Refs.{Refs, no_ref}
use l2dbus.Object.{object_registry_get}
use l2dbus.RefList.{Queue}
use l2dbus.ServiceObject.{Objects, ServiceObjectUd, Host}
use l2dbus.Userdata.{load, not_yet_handled, handler_result}

module _ (L : Lua) (R : Refs L.Value) (Q : Queue) (C : Objects) where
  open L use {Value, touserdata}
  open R use {anchored}

  -- The function, and the arguments in front of the message and behind it.
  abbrev pub Call : Type 0
  Call = Option Value × (Value × (Value × Option Value))

  -- The userdata of an address, which may have been collected.
  abbrev registered : ℕ → Action (Host L R Q C) (Option Value)
  registered key s = (s, object_registry_get key s.registry)

  abbrev call_of : Value → (conn : ℕ) → ServiceObjectUd Q → Action (Host L R Q C) (Option Call)
  call_of self conn ud = if eqb_ℤ ud.cb.func_ref no_ref then pure none else (do
    found ← registered conn
    table ← gets (λ s. s.refs)
    pure (elim found [
      | none ↦ none
      | some connection ↦
          some (anchored table ud.cb.func_ref, (self, (connection, anchored table ud.cb.user_ref)))
    ]))

  -- `obj` and `conn` are the addresses by which the userdata are found.
  unfoldable pub object_called : (obj conn : ℕ) → Action (Host L R Q C) (Option Call)
  object_called obj conn = do
    found ← registered obj
    elim found [
      | none ↦ pure none
      | some self ↦ elim (touserdata self) [
        | none ↦ pure none
        | some p ↦ do ud ← load p; call_of self conn ud
      ]
    ]

  -- `answer` is what a call of the Lua function gives.
  unfoldable pub service_object_handler :
      (answer : Call → Option Value) → (obj conn : ℕ) → Action (Host L R Q C) ℤ
  service_object_handler answer obj conn = do
    call ← object_called obj conn
    pure (elim call [ none ↦ not_yet_handled | some c ↦ handler_result L (answer c) ])
