-- ===== src/Tests/PendingCall.antt =====
-- The theorems about src/l2dbus_pendingcall.c at a call with a callback.
use l2dbus.Base.{inl, inr, ℕ, ◌≡◌, refl, Bool, true, false, none, some, [], ◌∷◌, Result, ok}
use l2dbus.Base.Int.{pos}
use l2dbus.Boxed.{check_udata}
use l2dbus.Lua.{Lua}
use l2dbus.Lua.Refs.{no_ref}
use l2dbus.Object.{object_registry_get}
use l2dbus.PendingCall.{
  PendingCallUd, PendingCalls, Host, pending_call_set_notify, pending_call_cancel,
  pending_call_dispose, pending_call_handler,
}
use l2dbus.PendingCall.Notify.{
  Pending, pending_call_set_notify-handler, pending_call_cancel-dispose,
}
use l2dbus.Tests.Events.{V, events_vm, places, places-RefsLaws}
use l2dbus.Userdata.{check_module_initialized}
use l2dbus.Callback.{callback_unref}
use l2dbus.Util.{is_user_data}

-- The timer of the state as a pending call.
abbrev calls_vm : Lua
calls_vm = record events_vm { registry = λ name. V.meta_timer }

abbrev calls : PendingCalls
calls = record {
  World = ℕ;
  set_notify = λ w h p. (p, true);
  cancel = λ w h. 0;
  completed = λ w h. false;
  steal_reply = λ w h. (w, none);
  block = λ w h. w;
  unref = λ w h. w;
}

abbrev Calls : Type 0
Calls = Host calls_vm places calls

abbrev noted : PendingCallUd
noted = record {
  pending_call = some 9;
  conn_ref = pos 0;
  cb = record { func_ref = pos 1; user_ref = no_ref };
}

abbrev waiting : Calls
waiting = record {
  initialized = true;
  refs = some V.dispatcher ∷ some V.handler ∷ [];
  registry = some ((2, V.timer) ∷ []);
  objects = λ p. some noted;
  world = 0;
}

waiting-Pending : Pending calls_vm places places-RefsLaws calls 2 V.timer noted 9 waiting
unfolding check_udata is_user_data object_registry_get
waiting-Pending = record {
  initialized = refl;
  checked = refl;
  stored = refl;
  pending = refl;
  found = refl;
}

abbrev renewed : Calls × Result Bool
renewed = pending_call_set_notify calls_vm places calls V.timer V.handler (some V.token) waiting

pending_call_set_notify-handler_example :
    (renewed.1 ≡ ok true)
    × (pending_call_handler calls_vm places calls (λ call s. s) 2 renewed.0 ≡ (renewed.0, ok tt))
pending_call_set_notify-handler_example =
    pending_call_set_notify-handler calls_vm places places-RefsLaws calls (λ call s. s) 2 V.timer
      V.handler (some V.token) waiting noted 9 waiting-Pending (tt, inl (λ e. cc e), inr (inl refl))
      refl refl

abbrev cancelled : Calls × Result (Unit {0})
cancelled = pending_call_cancel calls_vm places calls V.timer waiting

-- Other code gets the reference that was given back.
abbrev later : Calls
later = record cancelled.0 { refs = (places.take cancelled.0.refs (some V.token)).0 }

pending_call_cancel-dispose_example :
    (cancelled.1 ≡ ok tt)
    × (places.anchored cancelled.0.refs (pos 1) ≡ none)
    × ((pending_call_dispose calls_vm places calls V.timer later).1 ≡ ok tt)
    × (places.anchored (pending_call_dispose calls_vm places calls V.timer later).0.refs (pos 1)
        ≡ none)
unfolding pending_call_cancel check_module_initialized check_udata is_user_data callback_unref
pending_call_cancel-dispose_example =
    pending_call_cancel-dispose calls_vm places places-RefsLaws calls 2 V.timer waiting later noted
      9 waiting-Pending ((2, V.timer) ∷ []) refl refl
