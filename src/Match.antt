-- ===== src/Match.antt =====
-- src/l2dbus_match.c: rules that say which messages a handler gets, read from a Lua table, and the
-- match objects that keep the handler.
pub mod Filters
pub mod Owns
pub mod Accepts
pub mod Life
pub mod Rule
use Prim.Native.String.{String}
use l2dbus.Alloc.{Memory, Pointer, dbus_calloc, dbus_free}
use l2dbus.Base.{
  ℕ, Bool, Option, none, some, ◌==◌, if◌then◌else◌, Result, ok, lua_error, undefined, out_of_fuel,
  Fault, ◌>>=◌, List, suc, zero, [], ◌∷◌, true, false, ◌||◌, ◌&&◌, not, ◌+◌, Error, ◌⊎◌, inl, inr,
}
use l2dbus.Base.Int.{ℤ, pos, ltb_ℤ}
use l2dbus.Callback.{CallbackCtx, callback_init, callback_ref, callback_unref}
use l2dbus.C.Words.{to_int32}
use l2dbus.Lua.{Lua, LuaType}
use l2dbus.Lua.Refs.{Refs}
use l2dbus.Match.Rule.{
  MatchRule, FilterArg, Reason, max_arg_number, filter_count, filter_type, filter_item, parse_rule,
  match_free_rule,
}
use l2dbus.Userdata.{to_ref, optional_ref}

-- `l2dbus_Match`, without the links of the list of its connection.
pub record MatchUd : Type 0 where
  pub conn_ref : ℤ
  pub cb : CallbackCtx
  pub match_hnd : ℕ

-- The connections of libcdbus: a handle is `none` for `CDBUS_INVALID_HANDLE`. The rule is copied.
pub record Connections : Type 1 where
  pub World : Type 0
  pub register : World → (connection match : ℕ) → MatchRule → World × Option ℕ
  pub unregister : World → (connection handle : ℕ) → World × Bool
  -- the conversion to the type of `argN`
  pub to_arg_n : ℤ → ℤ
  -- the sizes of a filter and of a match object
  pub filter_size : ℕ
  pub match_size : ℕ

abbrev pub is_some : {A : Type 0} → Option A → Bool
is_some none = false
is_some (some a) = true

abbrev pub is_read : {A B : Type 0} → A ⊎ B → Bool
is_read (inl a) = false
is_read (inr b) = true

-- What `*errMsg` is set to: `some none` is the empty text.
abbrev pub Message : Type 0
Message = Option (Option Reason)

module _ (L : Lua) (R : Refs L.Value) (M : Memory) (C : Connections) where
  open L use {
    Value, lua_type, is_number, to_integer, get_field, raises, raw_len, raw_get_i, touserdata,
  }
  open R use {Table, take, release, anchored}
  open C use {World, register, unregister, to_arg_n, filter_size, match_size}

  abbrev pub any_raises : Value → List String → Bool
  any_raises table [] = false
  any_raises table (f ∷ fs) = raises table f || any_raises table fs

  pub record State : Type 0 where
    pub heap : M.Heap
    pub refs : Table
    pub matches : ℕ → Option MatchUd
    pub world : World

  -- The end of the constructor: the message is set where `*errMsg` is not NULL, the match object that is
  -- given up is freed, and the rule is. `errMsg` itself is `none` for NULL, and read through all the
  -- same. The match object comes from libdbus, but goes to `free` of C, unless it is NULL.
  unfoldable pub leave :
      (err_msg : Option Bool)
      → MatchRule
      → (result freed : Option ℕ) → Option Reason
      → State
      → Result (State × (Option ℕ × Message))
  leave none rule result freed reason s = undefined Fault.null_pointer
  leave (some asked) rule result (some match) reason s = undefined Fault.mismatched_free
  leave (some asked) rule result none reason s = do
    h ← match_free_rule M rule s.heap
    ok (record s { heap = h }, (result, if asked then some reason else none))

  unfoldable pub register_match :
      (err_msg : Option Bool)
      → MatchRule
      → (func conn : Value) → (user : Option Value) → (match : ℕ) → State
      → Result (State × (Option ℕ × Message))
  register_match err_msg rule func conn user match s = elim (touserdata conn) [
    | none ↦ undefined Fault.null_pointer
    | some connection ↦
        let (w, handle) = register s.world connection match rule in
        elim handle [
          | none ↦
              leave err_msg rule none (some match) (some Reason.registration_failed)
                (record s { world = w })
          | some hnd ↦
              let (t, conn_ref) = take s.refs (to_ref L conn) in
              let (t', ctx) = callback_ref Value R t (some (to_ref L func)) (optional_ref L user) in
              let ud : MatchUd = record { conn_ref = conn_ref; cb = ctx; match_hnd = hnd } in
              leave err_msg rule (some match) none none (record s {
                refs = t';
                world = w;
                matches = λ p. if p == match then some ud else s.matches p;
              })
        ]
  ]

  -- An error that a metamethod raises while a filter is read, up to the first filter that is refused.
  abbrev pub item_raises : Value → Bool
  item_raises item = elim (lua_type item) [
    | LuaType.table ↦
        raises item "type"
        || (is_some (filter_type L M item)
            && (raises item "index" || (is_index item && raises item "value")))
    | _ ↦ false
  ]
    where
      is_index : Value → Bool
      is_index item =
          let n = to_arg_n (to_integer (get_field item "index")) in
          is_number (get_field item "index")
          && not (ltb_ℤ n (pos 0) || ltb_ℤ (pos max_arg_number) n)

  unfoldable pub items_raise : M.Heap → (left idx : ℕ) → Value → Bool
  items_raise h zero idx array = false
  items_raise h (suc left) idx array =
      let item = raw_get_i array (idx + 1) in
      let rest = items_raise h left (suc idx) array in
      item_raises item || (is_read (filter_item L M to_arg_n item h).1 && rest)

  abbrev pub filters_raise : M.Heap → Option (ℕ × List FilterArg) → Value → Bool
  filters_raise h none array = false
  filters_raise h (some filters) array =
      items_raise h (filter_count (to_int32 (pos (raw_len array)))) 0 array

  -- An error that a metamethod raises while the rule is read.
  unfoldable pub rule_raises : Value → State → Bool
  rule_raises table s =
      let (h, (rule, failed)) = parse_rule L M to_arg_n filter_size table s.heap in
      any_raises table (
        "msgType" ∷ "member" ∷ "interface" ∷ "sender" ∷ "path" ∷ "treatPathAsNamespace"
        ∷ "arg0Namespace" ∷ "eavesdrop" ∷ "filterArgs" ∷ [])
      || filters_raise s.heap rule.filter_args (get_field table "filterArgs")

  -- Such an error leaves the function at once, with the strings that were copied.
  unfoldable pub new_match :
      (err_msg : Option Bool)
      → (rule func conn : Value) → (user : Option Value) → State
      → Result (State × (Option ℕ × Message))
  new_match err_msg table func conn user s =
      let (h, (rule, failed)) = parse_rule L M to_arg_n filter_size table s.heap in
      if rule_raises table s then lua_error Error.raised else elim failed [
        | some reason ↦ leave err_msg rule none none (some reason) (record s { heap = h })
        | none ↦
            let (h', place) = dbus_calloc M 1 match_size h in
            elim place [
              | none ↦
                  leave err_msg rule none none (some Reason.no_memory_for_match)
                    (record s { heap = h' })
              | some match ↦
                  register_match err_msg rule func conn user match (record s { heap = h' })
            ]
      ]

  -- The connection that the reference anchors is used without a test, and whether the handler was
  -- registered is only traced.
  unfoldable pub dispose_match : Option ℕ → State → Result State
  dispose_match none s = ok s
  dispose_match (some match) s = elim (s.matches match) [
    | none ↦ undefined Fault.dangling_pointer
    | some ud ↦ elim (connection_of (anchored s.refs ud.conn_ref)) [
      | none ↦ undefined Fault.null_pointer
      | some connection ↦ do
        h ← dbus_free M (some match) s.heap
        ok (record s {
          heap = h;
          refs = release (callback_unref Value R s.refs ud.cb) ud.conn_ref;
          matches = λ p. if p == match then none else s.matches p;
          world = (unregister s.world connection ud.match_hnd).0;
        })
    ]
  ]
    where
      connection_of : Option Value → Option ℕ
      connection_of none = none
      connection_of (some v) = touserdata v

  -- The function and the two values that a handler is called with beside the match itself: `wrapped` is
  -- the userdata that l2dbus_messageWrap makes of the message.
  unfoldable pub match_handler :
      (match : Option ℕ)
      → (wrapped : Value) → State
      → Result (Option (Option Value × (ℕ × (Value × Option Value))))
  match_handler none wrapped s = ok none
  match_handler (some match) wrapped s = elim (s.matches match) [
    | none ↦ undefined Fault.dangling_pointer
    | some ud ↦
        ok (
          some (anchored s.refs ud.cb.func_ref, (match, (wrapped, anchored s.refs ud.cb.user_ref))))
  ]
