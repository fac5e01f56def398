-- ===== src/Tests/ServiceObject.antt =====
-- The theorems about src/l2dbus_serviceobject.c at concrete values.
use Prim.Native.String.{String}
use text.Mathlib.Text.{◌==◌ as str_eq}
use l2dbus.Base.{ℕ, ◌+◌, ◌≡◌, refl, arith, true, none, some, [], ok, if◌then◌else◌}
use l2dbus.Base.Actions.{◌>>=◌}
use l2dbus.Base.Int.{ℤ, negsuc}
use l2dbus.Boxed.{check_udata}
use l2dbus.Lua.{Lua}
use l2dbus.RefList.Laws.{Holds}
use l2dbus.ServiceObject.{Objects, ServiceObjectUd, Host}
use l2dbus.ServiceObject.Held.{Accepted}
use l2dbus.ServiceObject.Members.{add_interface, remove_interface}
use l2dbus.ServiceObject.RoundTrip.{remove_interface-add_interface}
use l2dbus.Tests.Events.{V, events_vm, places, places-RefsLaws}
use l2dbus.Tests.RefList.{node_list, node_list-Documented, two, two_pairs, two-Holds}
use l2dbus.Util.{is_user_data}

-- The timer of the Lua state is an object here and the watch an interface.
abbrev class_of : String → V
class_of name =
    if str_eq name "l2dbus.service_object"
    then V.meta_timer
    else if str_eq name "l2dbus.interface"
    then V.meta_watch
    else V.nothing

abbrev objects_vm : Lua
objects_vm = record events_vm { registry = class_of }

-- An object that counts its interfaces.
abbrev objects : Objects
objects = record {
  World = ℕ;
  object_new = λ w path p. (w, some 1);
  object_unref = λ w h. w;
  object_path = λ w h. none;
  add_interface = λ w h i. (w + 1, true);
  remove_interface = λ w h n. (0, true);
  interface_name = λ w i. none;
  introspect = λ w h c path. [];
  validate_path = λ path. true;
  interface_of = λ q. some 7;
  connection_of = λ q. none;
}

-- The object at address 2 has two references already.
abbrev busy : ServiceObjectUd node_list
busy = record {
  obj = some 1;
  cb = record { func_ref = negsuc 1; user_ref = negsuc 1 };
  interfaces = two;
}

abbrev working : Host objects_vm places node_list objects
working = record {
  initialized = true;
  refs = [];
  registry = some [];
  objects = λ p. some busy;
  world = 0;
}

working-Accepted : Accepted objects_vm places node_list objects working V.timer V.watch 2 3 1 7 busy
unfolding check_udata is_user_data
working-Accepted = record {
  is_object = refl;
  is_interface = refl;
  initialized = refl;
  stored = refl;
  has_object = refl;
  has_interface = refl;
}

remove_interface-add_interface_example :
    let (s', result) =
      (add_interface objects_vm places node_list objects V.timer V.watch (some 5) >>= λ added.
      remove_interface objects_vm places node_list objects 1 V.timer V.watch)
        working in
    (result ≡ ok true)
    × ((ud' : ServiceObjectUd node_list) × (s'.objects 2 ≡ some ud')
        × Holds node_list node_list-Documented ud'.interfaces two_pairs)
    × ((r : ℤ) → places.anchored s'.refs r ≡ places.anchored working.refs r)
remove_interface-add_interface_example =
    remove_interface-add_interface objects_vm places node_list node_list-Documented objects
      places-RefsLaws 0 working V.timer V.watch 2 3 1 7 5 busy two_pairs tt working-Accepted refl
      two-Holds ((λ e. omega (arith, e)), ((λ e. omega (arith, e)), tt)) refl refl
