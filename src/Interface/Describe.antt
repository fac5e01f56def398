-- ===== src/Interface/Describe.antt =====
-- The descriptions of methods, signals and properties that src/l2dbus_interface.c reads from Lua tables
-- and frees after they are registered.
use l2dbus.Alloc.{Memory, Pointer, address_of, dbus_calloc, dbus_free, str_dup}
use l2dbus.Base.{
  ℕ, zero, suc, ◌+◌, Bool, true, false, not, ◌&&◌, Option, none, some, List, [], ◌∷◌, ◌==◌,
  if◌then◌else◌, Result, ok, ◌>>=◌,
}
use l2dbus.Lua.{Lua, LuaType, Bytes}
use l2dbus.Match.Rule.{is_text_type, same_text, string_field}

-- `CDBUS_XFER_IN` and `CDBUS_XFER_OUT`; a block of zeros has none.
pub data Direction : Type 0 where
  unset in_arg out_arg : Direction

-- The structures of libcdbus that are filled. A structure of zeros has no strings.
pub record Arg : Type 0 where
  pub name : Option Pointer
  pub signature : Option Pointer
  pub xfer_dir : Direction

pub record Item : Type 0 where
  pub name : Option Pointer
  pub args : Option ℕ
  pub arg_list : List Arg

pub record Property : Type 0 where
  pub name : Option Pointer
  pub signature : Option Pointer
  pub readable : Bool
  pub writable : Bool

abbrev pub zero_arg : Arg
zero_arg = record { name = none; signature = none; xfer_dir = Direction.unset }

abbrev pub zero_item : Item
zero_item = record { name = none; args = none; arg_list = [] }

abbrev pub zero_property : Property
zero_property = record { name = none; signature = none; readable = false; writable = false }

-- The texts that say why a description is refused.
pub data Refusal : Type 0 where
  table_expected no_items_memory not_a_table name_missing no_args_memory : Refusal
  arg_table_expected signature_missing bad_signature bad_direction : Refusal
  access_missing no_access not_registered unknown_failure : Refusal
  -- no text of the code: a metamethod raised an error
  raised : Refusal

abbrev pub was_raised : Option Refusal → Bool
was_raised (some Refusal.raised) = true
was_raised _ = false

abbrev pub replicate {ℓ} : {A : Type ℓ} → ℕ → A → List A
replicate zero a = []
replicate (suc n) a = a ∷ replicate n a

-- What the loop leaves: the structures that it filled, and the zeros behind the one that it stops at.
abbrev pub continue {ℓ₁ ℓ₂} :
    {A : Type ℓ₁} {H : Type ℓ₂}
    → H
    → A
    → Option Refusal
    → (zeros : List A) → H × (List A × Option Refusal)
    → H × (List A × Option Refusal)
continue h a (some why) zeros rest = (h, (a ∷ zeros, some why))
continue h a none zeros rest = (rest.0, (a ∷ rest.1.0, rest.1.1))

abbrev text_in : Bytes
text_in = b'i' ∷ b'n' ∷ []

abbrev text_out : Bytes
text_out = b'o' ∷ b'u' ∷ b't' ∷ []

-- strncmp of the first bytes
abbrev pub starts_with : Bytes → Bytes → Bool
starts_with [] s = true
starts_with (c ∷ cs) [] = false
starts_with (c ∷ cs) (d ∷ s) = c == d && starts_with cs s

abbrev pub is_table : (L : Lua) → L.Value → Bool
is_table L v = elim (L.lua_type v) [ LuaType.table ↦ true | _ ↦ false ]

-- `validate` is dbus_signature_validate; the sizes are those of the structures.
module _ (L : Lua) (M : Memory) (validate : Bytes → Bool) (arg_size item_size : ℕ) where
  open L use {Value, lua_type, to_string, get_field, raises, raw_len, raw_get_i}
  open M use {Heap}

  -- Arguments of signals are always out; those of methods are in where nothing is said.
  unfoldable pub direction : (methods : Bool) → Value → Option Direction
  direction false v = some Direction.out_arg
  direction true v =
      let dir = get_field v "dir" in
      if not (is_text_type (lua_type dir))
      then some Direction.in_arg
      else if same_text (to_string dir) text_in
      then some Direction.in_arg
      else if same_text (to_string dir) text_out
      then some Direction.out_arg
      else none

  -- The end of one turn of the loop over the arguments.
  abbrev pub directed : Option Direction → (name signature : Option Pointer) → Arg × Option Refusal
  directed none name sig = (
    record { name = name; signature = sig; xfer_dir = Direction.unset },
    some Refusal.bad_direction,
  )
  directed (some d) name sig = (record { name = name; signature = sig; xfer_dir = d }, none)

  unfoldable pub parse_arg : (methods : Bool) → Value → Heap → Heap × (Arg × Option Refusal)
  parse_arg methods v h =
      let (h1, name) = string_field L M v "name" h in
      let sig = get_field v "sig" in
      let (h2, copy) = str_dup M (to_string sig) h1 in
      let named : Arg = record { name = name; signature = none; xfer_dir = Direction.unset } in
      if not (is_table L v)
      then (h, (zero_arg, some Refusal.arg_table_expected))
      else if raises v "name"
      then (h, (zero_arg, some Refusal.raised))
      else if raises v "sig"
      then (h1, (named, some Refusal.raised))
      else if not (is_text_type (lua_type sig))
      then (h1, (named, some Refusal.signature_missing))
      else if not (validate (to_string sig))
      then (h1, (named, some Refusal.bad_signature))
      else if methods && raises v "dir"
      then (h2, (record named { signature = copy }, some Refusal.raised))
      else (h2, directed (direction methods v) name copy)

  -- The arguments from `idx` on.
  unfoldable pub parse_args :
      (methods : Bool) → (left idx : ℕ) → Value → Heap → Heap × (List Arg × Option Refusal)
  parse_args methods zero idx v h = (h, ([], none))
  parse_args methods (suc left) idx v h =
      let (h', (a, failed)) = parse_arg methods (raw_get_i v (idx + 1)) h in
      let rest = parse_args methods left (suc idx) v h' in
      continue h' a failed (replicate left zero_arg) rest

  unfoldable pub args_count : Value → ℕ
  args_count v = if is_table L v then raw_len v else 0

  unfoldable pub parse_item : (methods : Bool) → Value → Heap → Heap × (Item × Option Refusal)
  parse_item methods v h =
      let field = get_field v "name" in
      let (h1, name) = str_dup M (to_string field) h in
      let table = get_field v "args" in
      let n = args_count table in
      let (h2, place) = dbus_calloc M n arg_size h1 in
      let (h3, (args, failed)) = parse_args methods n 0 table h2 in
      let named : Item = record { name = name; args = none; arg_list = [] } in
      if not (is_table L v)
      then (h, (zero_item, some Refusal.not_a_table))
      else if raises v "name"
      then (h, (zero_item, some Refusal.raised))
      else if not (is_text_type (lua_type field))
      then (h, (zero_item, some Refusal.name_missing))
      else if raises v "args"
      then (h1, (named, some Refusal.raised))
      else if n == 0
      then (h1, (named, none))
      else elim place [
        | none ↦ (h2, (named, some Refusal.no_args_memory))
        | some p ↦ (h3, (record { name = name; args = some p; arg_list = args }, failed))
      ]

  unfoldable pub parse_each :
      (methods : Bool) → (left idx : ℕ) → Value → Heap → Heap × (List Item × Option Refusal)
  parse_each methods zero idx v h = (h, ([], none))
  parse_each methods (suc left) idx v h =
      let (h', (i, failed)) = parse_item methods (raw_get_i v (idx + 1)) h in
      let rest = parse_each methods left (suc idx) v h' in
      continue h' i failed (replicate left zero_item) rest

  -- The array of the items, where there are any, and why they are refused.
  abbrev pub Parsed : Type 0
  Parsed = Option (ℕ × List Item) × Option Refusal

  unfoldable pub parse_items : (methods : Bool) → Value → Heap → Heap × Parsed
  parse_items methods v h =
      let n = raw_len v in
      let (h1, place) = dbus_calloc M n item_size h in
      let (h2, (items, failed)) = parse_each methods n 0 v h1 in
      if not (is_table L v)
      then (h, (none, some Refusal.table_expected))
      else if n == 0
      then (h, (none, none))
      else elim place [
        | none ↦ (h1, (none, some Refusal.no_items_memory))
        | some p ↦ (h2, (some (p, items), failed))
      ]

module _ (M : Memory) where
  open M use {Heap}

  unfoldable pub destroy_arg : Arg → Heap → Result Heap
  destroy_arg a h = do
    h' ← dbus_free M (address_of a.name) h
    dbus_free M (address_of a.signature) h'

  unfoldable pub destroy_args : List Arg → Heap → Result Heap
  destroy_args [] h = ok h
  destroy_args (a ∷ rest) h = destroy_arg a h >>= λ h'. destroy_args rest h'

  unfoldable pub destroy_item : Item → Heap → Result Heap
  destroy_item i h = do
    h1 ← dbus_free M (address_of i.name) h
    h2 ← destroy_args i.arg_list h1
    dbus_free M i.args h2

  unfoldable pub destroy_each : List Item → Heap → Result Heap
  destroy_each [] h = ok h
  destroy_each (i ∷ is) h = destroy_item i h >>= λ h'. destroy_each is h'

  -- The freeing at the end of a registration.
  unfoldable pub destroy_items : Option (ℕ × List Item) → Heap → Result Heap
  destroy_items none h = ok h
  destroy_items (some (p, items)) h = do h' ← destroy_each items h; dbus_free M (some p) h'
