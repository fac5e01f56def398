-- ===== src/Tests/Match.antt =====
-- The theorems about src/l2dbus_match.c at a rule with a filter for the first argument.
use Prim.Native.String.{String}
use text.Mathlib.Text.{◌==◌ as str_eq}
use l2dbus.Alloc.{str_dup, dbus_alloc, dbus_calloc, dbus_free}
use l2dbus.Callback.{callback_ref, slot}
use l2dbus.C.Words.{to_int32, to_uint32}
use l2dbus.Base.{
  ℕ, ◌+◌, ◌≡◌, refl, Bool, true, false, Option, none, some, [], ◌∷◌, ok, if◌then◌else◌,
}
use l2dbus.Base.Int.{pos}
use l2dbus.Lua.{Lua, LuaType, finite, Block}
use l2dbus.Match.{
  Connections, Message, State, new_match, dispose_match, register_match, leave, rule_raises,
  items_raise,
}
use l2dbus.Match.Life.{dispose_match-new_match}
use l2dbus.Match.Owns.{parse_rule-IsFreeable, IsFreeable}
use l2dbus.Match.Rule.{
  parse_rule, string_field, boolean_field, msg_type_field, filter_args_field, filter_items,
  filter_item, filter_type, match_free_rule, free_filter_args, free_values,
}
use l2dbus.Tests.Events.{places, places-RefsLaws}
use l2dbus.Tests.Memory.{blocks, blocks-MemoryLaws}

data V : Type 0 where
  nothing rule filters filter word zero_number connection handler : V

abbrev rule_type : V → LuaType
rule_type V.nothing = LuaType.nil
rule_type V.word = LuaType.string
rule_type V.zero_number = LuaType.number
rule_type V.connection = LuaType.userdata
rule_type V.handler = LuaType.function
rule_type _ = LuaType.table

abbrev rule_field : V → String → V
rule_field V.rule f =
    if str_eq f "member" then V.word else if str_eq f "filterArgs" then V.filters else V.nothing
rule_field V.filter f =
    if str_eq f "index" then V.zero_number else if str_eq f "value" then V.word else V.nothing
rule_field _ f = V.nothing

abbrev is_zero : V → Bool
is_zero V.zero_number = true
is_zero _ = false

abbrev rule_address : V → Option ℕ
rule_address V.connection = some 5
rule_address _ = none

abbrev rule_vm : Lua
rule_vm = record {
  Value = V;
  lua_type = rule_type;
  is_number = is_zero;
  to_number = λ v. finite false 0 0;
  to_integer = λ v. pos 0;
  to_boolean = λ v. true;
  to_string = λ v. b'm' ∷ [];
  entries = λ v. [];
  raw_len = λ v. 1;
  raw_get_i = λ v i. V.filter;
  get_field = rule_field;
  raises = λ v f. false;
  sets_einval = true;
  touserdata = rule_address;
  metatable = λ v. none;
  registry = λ name. V.nothing;
  raw_equal = λ v w. false;
  user_value = λ v. V.nothing;
  block = λ a. Block.foreign;
}

abbrev accepting : Connections
accepting = record {
  World = ℕ;
  register = λ w c m r. (w + 1, some w);
  unregister = λ w c h. (w, true);
  to_arg_n = λ z. z;
  filter_size = 24;
  match_size = 48;
}

abbrev Matches : Type 0
Matches = State rule_vm places blocks accepting

abbrev before : Matches
before = record { heap = true ∷ []; refs = []; matches = λ p. none; world = 0 }

quiet : rule_raises rule_vm places blocks accepting V.rule before ≡ false
unfolding rule_raises items_raise parse_rule string_field filter_args_field filter_items filter_item
    filter_type str_dup dbus_alloc dbus_calloc to_int32 to_uint32
quiet = refl

dispose_match-new_match_example :
    (s' : Matches) × (result : Option ℕ) × (message : Message) × (s'' : Matches) × (new_match
        rule_vm places blocks accepting
        (some true)
        V.rule
        V.handler
        V.connection
        none
        before
      ≡ ok (s', (result, message)))
    × (dispose_match rule_vm places blocks accepting result s' ≡ ok s'')
    × ((a : ℕ) → blocks.live s''.heap a ≡ blocks.live before.heap a)
dispose_match-new_match_example =
    dispose_match-new_match rule_vm places places-RefsLaws blocks blocks-MemoryLaws accepting true
      V.rule V.handler V.connection none before 5 tt (λ w c m r. (w, refl)) quiet refl refl

parse_rule-IsFreeable_example :
    IsFreeable (parse_rule rule_vm blocks (λ z. z) 24 V.rule []).1.0.filter_args
parse_rule-IsFreeable_example =
    parse_rule-IsFreeable rule_vm blocks blocks-MemoryLaws [] (λ z. z) 24 V.rule []

-- The match is created.
created :
    (r : Matches) × (new_match rule_vm places blocks accepting
        (some true)
        V.rule
        V.handler
        V.connection
        none
        before
      ≡ ok (r, (some 4, some none)))
unfolding new_match parse_rule string_field boolean_field msg_type_field filter_args_field
    filter_items filter_item filter_type str_dup dbus_alloc dbus_calloc dbus_free register_match
    leave match_free_rule free_filter_args free_values callback_ref slot to_int32 to_uint32
    rule_raises items_raise
created = (_, refl)
