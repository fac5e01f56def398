-- ===== src/Match/Rule.antt =====
-- The rule of a match (src/l2dbus_match.c): how it is read from a Lua table, and freed.
use Prim.Native.String.{String}
use l2dbus.Alloc.{Memory, Pointer, address_of, dbus_calloc, dbus_free, str_dup}
use l2dbus.Base.{
  ℕ, zero, suc, ◌+◌, Bool, true, false, not, ◌||◌, ◌&&◌, Option, none, some, List, [], ◌∷◌, ◌==◌,
  ltb, if◌then◌else◌, ◌⊎◌, inl, inr, Result, ok, undefined, Fault, ◌>>=◌,
}
use l2dbus.Base.Int.{ℤ, pos, negsuc, eqb_ℤ, ltb_ℤ}
use l2dbus.C.Words.{to_int32}
use l2dbus.Lua.{Lua, LuaType, Bytes}

-- DBUS_MAXIMUM_MATCH_RULE_ARG_NUMBER
abbrev pub max_arg_number : ℕ
max_arg_number = 63

-- The kinds of messages, `CDBUS_MATCH_MSG_...`.
pub data MsgType : Type 0 where
  any method_call method_return error signal : MsgType

-- `CDBUS_FILTER_ARG_INVALID` marks the end of an array of filters.
pub data FilterArgType : Type 0 where
  invalid arg arg_path : FilterArgType

pub record FilterArg : Type 0 where
  pub arg_type : FilterArgType
  pub arg_n : ℤ
  pub value : Option Pointer

-- A rule of libcdbus: a string that is NULL matches everything. The array of filters has an address;
-- what lies behind its mark is left out.
pub record MatchRule : Type 0 where
  pub msg_type : MsgType
  pub member : Option Pointer
  pub obj_interface : Option Pointer
  pub sender : Option Pointer
  pub path : Option Pointer
  pub treat_path_as_namespace : Bool
  pub arg0_namespace : Option Pointer
  pub eavesdrop : Bool
  pub filter_args : Option (ℕ × List FilterArg)

-- The texts that `*errMsg` is set to.
pub data Reason : Type 0 where
  no_memory_for_filters table_expected unknown_type index_missing index_range value_missing : Reason
  no_memory_for_match registration_failed : Reason

abbrev pub is_mark : FilterArgType → Bool
is_mark FilterArgType.invalid = true
is_mark _ = false

abbrev pub mark : FilterArg
mark = record { arg_type = FilterArgType.invalid; arg_n = pos 0; value = none }

-- strcmp
abbrev pub same_text : Bytes → Bytes → Bool
same_text [] [] = true
same_text (a ∷ s) (b ∷ t) = a == b && same_text s t
same_text _ _ = false

abbrev pub is_text_type : LuaType → Bool
is_text_type LuaType.string = true
is_text_type LuaType.number = true
is_text_type _ = false

abbrev pub named_type : Bytes → Option FilterArgType
named_type s =
    if same_text s (b's' ∷ b't' ∷ b'r' ∷ b'i' ∷ b'n' ∷ b'g' ∷ [])
    then some FilterArgType.arg
    else if same_text s (b'p' ∷ b'a' ∷ b't' ∷ b'h' ∷ [])
    then some FilterArgType.arg_path
    else none

abbrev pub msg_type_of : ℤ → MsgType
msg_type_of z =
    if eqb_ℤ z (pos 1)
    then MsgType.method_call
    else if eqb_ℤ z (pos 2)
    then MsgType.method_return
    else if eqb_ℤ z (pos 3)
    then MsgType.error
    else if eqb_ℤ z (pos 4)
    then MsgType.signal
    else MsgType.any

-- `nFilterArgs`, an `int`: none where it is not positive, and at most 64.
abbrev pub filter_count : ℤ → ℕ
filter_count (pos n) = if ltb (max_arg_number + 1) n then max_arg_number + 1 else n
filter_count (negsuc n) = 0

module _ (L : Lua) (M : Memory) where
  open L use {
    Value, lua_type, is_number, to_integer, to_boolean, to_string, get_field, raw_len, raw_get_i,
  }
  open M use {Heap}

  -- lua_isstring
  abbrev pub is_string : Value → Bool
  is_string v = is_text_type (lua_type v)

  -- A field of the table that is copied if it is a string or a number.
  unfoldable pub string_field : Value → String → Heap → Heap × Option Pointer
  string_field table name h =
      if is_string (get_field table name)
      then str_dup M (to_string (get_field table name)) h
      else (h, none)

  unfoldable pub boolean_field : Value → String → Bool
  boolean_field table name = elim (lua_type (get_field table name)) [
    | LuaType.boolean ↦ to_boolean (get_field table name)
    | _ ↦ false
  ]

  unfoldable pub msg_type_field : Value → MsgType
  msg_type_field table =
      let v = get_field table "msgType" in
      if is_number v then msg_type_of (to_integer v) else MsgType.any

  unfoldable pub filter_type : Value → Option FilterArgType
  filter_type item =
      let v = get_field item "type" in
      if is_string v
      then named_type (to_string v)
      else elim (lua_type v) [ LuaType.nil ↦ some FilterArgType.arg | _ ↦ none ]

  -- One turn of the loop over the filters.
  unfoldable pub filter_item : (to_arg_n : ℤ → ℤ) → Value → Heap → Heap × (Reason ⊎ FilterArg)
  filter_item to_arg_n item h = elim (lua_type item) [
    | LuaType.table ↦ elim (filter_type item) [
      | none ↦ (h, inl Reason.unknown_type)
      | some t ↦
          let index = get_field item "index" in
          let n = to_arg_n (to_integer index) in
          if not (is_number index)
          then (h, inl Reason.index_missing)
          else if ltb_ℤ n (pos 0) || ltb_ℤ (pos max_arg_number) n
          then (h, inl Reason.index_range)
          else if not (is_string (get_field item "value"))
          then (h, inl Reason.value_missing)
          else let (h', value) = str_dup M (to_string (get_field item "value")) h in
            (h', inr (record { arg_type = t; arg_n = n; value = value }))
    ]
    | _ ↦ (h, inl Reason.table_expected)
  ]

  -- The loop goes on after an item that is read.
  abbrev pub add_item :
      Reason ⊎ FilterArg
      → Heap
      → Heap × (List FilterArg × Option Reason)
      → Heap × (List FilterArg × Option Reason)
  add_item (inl reason) h rest = (h, (mark ∷ [], some reason))
  add_item (inr item) h rest = (rest.0, (item ∷ rest.1.0, rest.1.1))

  -- The loop, which `left` more items are for, and the mark that is set where it ends.
  unfoldable pub filter_items :
      (ℤ → ℤ) → (left idx : ℕ) → Value → Heap → Heap × (List FilterArg × Option Reason)
  filter_items to_arg_n zero idx array h = (h, (mark ∷ [], none))
  filter_items to_arg_n (suc left) idx array h =
      let (h', r) = filter_item to_arg_n (raw_get_i array (idx + 1)) h in
      let rest = filter_items to_arg_n left (suc idx) array h' in add_item r h' rest

  unfoldable pub filter_args_field :
      (ℤ → ℤ) → (size : ℕ) → Value → Heap → Heap × (Option (ℕ × List FilterArg) × Option Reason)
  filter_args_field to_arg_n size array h = elim (lua_type array) [
    | LuaType.table ↦
        let n = filter_count (to_int32 (pos (raw_len array))) in
        let (h', place) = dbus_calloc M (n + 1) size h in
        let (h'', (items, failed)) = filter_items to_arg_n n 0 array h' in
        if n == 0 then (h, (none, none)) else elim place [
          | none ↦ (h', (none, some Reason.no_memory_for_filters))
          | some p ↦ (h'', (some (p, items), failed))
        ]
    | _ ↦ (h, (none, none))
  ]

  unfoldable pub parse_rule :
      (ℤ → ℤ) → (size : ℕ) → Value → Heap → Heap × (MatchRule × Option Reason)
  parse_rule to_arg_n size table h =
      let (h1, member) = string_field table "member" h in
      let (h2, obj_interface) = string_field table "interface" h1 in
      let (h3, sender) = string_field table "sender" h2 in
      let (h4, path) = string_field table "path" h3 in
      let (h5, arg0) = string_field table "arg0Namespace" h4 in
      let (h6, (filters, failed)) =
        filter_args_field to_arg_n size (get_field table "filterArgs") h5 in
      (
        h6,
        (
          record {
            msg_type = msg_type_field table;
            member = member;
            obj_interface = obj_interface;
            sender = sender;
            path = path;
            treat_path_as_namespace = boolean_field table "treatPathAsNamespace";
            arg0_namespace = arg0;
            eavesdrop = boolean_field table "eavesdrop";
            filter_args = filters;
          },
          failed,
        ),
      )

module _ (M : Memory) where
  open M use {Heap}

  -- The loop frees values until the mark, or until all that a rule can have.
  unfoldable pub free_values : (left : ℕ) → List FilterArg → Heap → Result Heap
  free_values zero items h = ok h
  free_values (suc left) [] h = undefined Fault.out_of_bounds_read
  free_values (suc left) (item ∷ items) h =
      let next = dbus_free M (address_of item.value) h >>= λ h'. free_values left items h' in
      if is_mark item.arg_type then ok h else next

  unfoldable pub free_filter_args : Option (ℕ × List FilterArg) → Heap → Result Heap
  unfolding free_values
  free_filter_args none h = ok h
  free_filter_args (some (p, items)) h = do
    h' ← free_values (max_arg_number + 1) items h
    dbus_free M (some p) h'

  unfoldable pub match_free_rule : MatchRule → Heap → Result Heap
  match_free_rule rule h = do
    h1 ← dbus_free M (address_of rule.member) h
    h2 ← dbus_free M (address_of rule.obj_interface) h1
    h3 ← dbus_free M (address_of rule.sender) h2
    h4 ← dbus_free M (address_of rule.path) h3
    h5 ← dbus_free M (address_of rule.arg0_namespace) h4
    free_filter_args rule.filter_args h5
