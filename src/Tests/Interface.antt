-- ===== src/Tests/Interface.antt =====
-- The theorems about src/l2dbus_interface.c at concrete values.
use Prim.Native.String.{String}
use text.Mathlib.Text.{◌==◌ as str_eq}
use l2dbus.Alloc.{dbus_calloc, dbus_alloc, dbus_free, str_dup}
use l2dbus.Base.{
  ℕ, ◌≡◌, refl, Bool, true, false, Option, none, some, [], ◌==◌, length, All, Result, ok,
  if◌then◌else◌,
}
use l2dbus.Interface.{Interfaces, Outside}
use l2dbus.Interface.Describe.{
  parse_items, parse_each, parse_item, parse_args, parse_arg, args_count, direction, is_table,
  destroy_items, destroy_each, destroy_item, destroy_args, destroy_arg,
}
use l2dbus.Interface.Frees.{SameBlocks, describe_items-SameBlocks}
use l2dbus.Interface.Outcome.{Described, list_of, describe_items}
use l2dbus.Interface.Valid.{IsValidItem, parse_items-IsValidItem}
use l2dbus.Lua.{Lua}
use l2dbus.Match.Rule.{string_field}
use l2dbus.Tests.Events.{places}
use l2dbus.Tests.Memory.{blocks, blocks-MemoryLaws}
use l2dbus.Tests.Vm.{V, vm}

-- A list of one method with one argument, which the dictionary describes both.
abbrev method_field : V → String → V
method_field V.dict f =
    if str_eq f "name"
    then V.zero_text
    else if str_eq f "sig"
    then V.zero_text
    else if str_eq f "args"
    then V.list
    else V.nothing
method_field v f = V.nothing

abbrev method_get_i : V → ℕ → V
method_get_i V.list i = if i == 1 then V.dict else V.nothing
method_get_i v i = V.nothing

abbrev method_vm : Lua
method_vm = record vm { get_field = method_field; raw_get_i = method_get_i }

-- An interface that registers everything.
abbrev bus : Interfaces
bus = record {
  World = ℕ;
  interface_new = λ w s p. (w, some 1);
  interface_unref = λ w h. w;
  interface_name = λ w h. none;
  register_items = λ w h m is. (length is, true);
  register_properties = λ w h ps. (length ps, true);
  clear = λ w h part. (0, true);
  introspect = λ w h. [];
  validate_interface = λ s. true;
  signature_validate = λ s. true;
  arg_size = 24;
  item_size = 32;
  property_size = 24;
}

abbrev before : Outside method_vm places blocks bus
before = record { heap = []; bus = 0 }

describe_items-SameBlocks_example :
    (d : Described method_vm places blocks bus) × (describe_items method_vm places blocks bus true 1
        V.list before
      ≡ ok d)
    × SameBlocks method_vm places blocks blocks-MemoryLaws bus [] d.0.heap
unfolding parse_items dbus_calloc parse_each parse_item args_count parse_args parse_arg direction
describe_items-SameBlocks_example =
    describe_items-SameBlocks method_vm places blocks blocks-MemoryLaws bus true 1 V.list before
      refl

-- What libcdbus has after it, here the number of methods, and why nothing is registered.
abbrev outcome : Result (Described method_vm places blocks bus) → Option (ℕ × Bool)
outcome (ok (o, none)) = some (o.bus, true)
outcome (ok (o, some why)) = some (o.bus, false)
outcome _ = none

method_is_registered :
    outcome (describe_items method_vm places blocks bus true 1 V.list before) ≡ some (1, true)
unfolding describe_items parse_items parse_each parse_item parse_args parse_arg args_count direction
    string_field str_dup dbus_alloc dbus_calloc destroy_items destroy_each destroy_item destroy_args
    destroy_arg dbus_free
method_is_registered = refl

method_is_read : (parse_items method_vm blocks (λ s. true) 24 32 true V.list []).1.1 ≡ none
unfolding parse_items parse_each parse_item parse_args parse_arg args_count direction string_field
    str_dup dbus_alloc dbus_calloc
method_is_read = refl

parse_items-IsValidItem_example :
    (is_table method_vm V.list ≡ true)
    × (length (list_of (parse_items method_vm blocks (λ s. true) 24 32 true V.list []).1.0) ≡ 1)
    × All
        (IsValidItem method_vm blocks (λ s. true) 24 32 true)
        (list_of (parse_items method_vm blocks (λ s. true) 24 32 true V.list []).1.0)
parse_items-IsValidItem_example =
    parse_items-IsValidItem method_vm blocks (λ s. true) 24 32 true V.list [] method_is_read
