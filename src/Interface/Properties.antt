-- ===== src/Interface/Properties.antt =====
-- The descriptions of properties that `l2dbus_interfaceRegisterProperties` of src/l2dbus_interface.c
-- reads and frees.
use l2dbus.Alloc.{Memory, Pointer, address_of, dbus_calloc, dbus_free, str_dup}
use l2dbus.Base.{
  ℕ, zero, suc, ◌+◌, Bool, false, not, ◌&&◌, ◌||◌, Option, none, some, List, [], ◌∷◌, ◌==◌,
  if◌then◌else◌, Result, ok, undefined, Fault, ◌>>=◌,
}
use l2dbus.Interface.Describe.{Property, zero_property, Refusal, replicate, starts_with, is_table}
use l2dbus.Lua.{Lua, Bytes}
use l2dbus.Match.Rule.{is_text_type}

-- The letters of the access rights, in front of the text.
abbrev pub reads : Bytes → Bool
reads s =
    starts_with (b'r' ∷ []) s
    || starts_with (b'r' ∷ b'w' ∷ []) s
    || starts_with (b'w' ∷ b'r' ∷ []) s

abbrev pub writes : Bytes → Bool
writes s =
    starts_with (b'w' ∷ []) s
    || starts_with (b'r' ∷ b'w' ∷ []) s
    || starts_with (b'w' ∷ b'r' ∷ []) s

module _ (L : Lua) (M : Memory) (validate : Bytes → Bool) (property_size : ℕ) where
  open L use {Value, lua_type, to_string, get_field, raises, raw_len, raw_get_i}
  open M use {Heap}

  -- A turn of the loop: the heap, the structure and why it stops.
  abbrev pub Turn : Type 0
  Turn = Heap × (Property × Option Refusal)

  abbrev pub is_string : Value → Bool
  is_string v = is_text_type (lua_type v)

  -- The access rights of a property with a name and a valid signature.
  unfoldable pub parse_access : Value → Property → Property × Option Refusal
  parse_access v named =
      let access = get_field v "access" in
      let text = to_string access in
      let whole = record named { readable = reads text; writable = writes text } in
      if raises v "access"
      then (named, some Refusal.raised)
      else if not (is_string access)
      then (named, some Refusal.access_missing)
      else if not (writes text) && not (reads text)
      then (whole, some Refusal.no_access)
      else (whole, none)

  -- The copy of the signature is validated, also where the allocation failed.
  unfoldable pub parse_signature : Value → Option Pointer → Heap → Result Turn
  parse_signature v name h =
      let sig = get_field v "sig" in
      let (h', copy) = str_dup M (to_string sig) h in
      let named : Option Pointer → Property =
        λ s. record { name = name; signature = s; readable = false; writable = false } in
      if raises v "sig"
      then ok (h, (named none, some Refusal.raised))
      else if not (is_string sig)
      then ok (h, (named none, some Refusal.signature_missing))
      else elim copy [
        | none ↦ undefined Fault.null_pointer
        | some s ↦
            if validate s.text
            then ok (h', parse_access v (named (some s)))
            else ok (h', (named (some s), some Refusal.bad_signature))
      ]

  unfoldable pub parse_property : Value → Heap → Result Turn
  parse_property v h =
      let field = get_field v "name" in
      let (h', name) = str_dup M (to_string field) h in
      if not (is_table L v)
      then ok (h, (zero_property, some Refusal.not_a_table))
      else if raises v "name"
      then ok (h, (zero_property, some Refusal.raised))
      else if not (is_string field)
      then ok (h, (zero_property, some Refusal.name_missing))
      else parse_signature v name h'

  -- The properties from `idx` on.
  unfoldable pub parse_each_property :
      (left idx : ℕ) → Value → Heap → Result (Heap × (List Property × Option Refusal))
  parse_each_property zero idx v h = ok (h, ([], none))
  parse_each_property (suc left) idx v h = do
    (h', (p, failed)) ← parse_property (raw_get_i v (idx + 1)) h
    elim failed [
      | some why ↦ ok (h', (p ∷ replicate left zero_property, some why))
      | none ↦ do
        (h'', (ps, failed')) ← parse_each_property left (suc idx) v h'
        ok (h'', (p ∷ ps, failed'))
    ]

  -- The array of the properties, where there are any, and why they are refused.
  unfoldable pub parse_properties :
      Value → Heap → Result (Heap × (Option (ℕ × List Property) × Option Refusal))
  parse_properties v h =
      let n = raw_len v in
      let (h1, place) = dbus_calloc M n property_size h in
      if n == 0 then ok (h, (none, none)) else elim place [
        | none ↦ ok (h1, (none, some Refusal.no_items_memory))
        | some p ↦ do
          (h2, (ps, failed)) ← parse_each_property n 0 v h1
          ok (h2, (some (p, ps), failed))
      ]

module _ (M : Memory) where
  open M use {Heap}

  unfoldable pub destroy_property : Property → Heap → Result Heap
  destroy_property p h = do
    h' ← dbus_free M (address_of p.name) h
    dbus_free M (address_of p.signature) h'

  unfoldable pub destroy_each_property : List Property → Heap → Result Heap
  destroy_each_property [] h = ok h
  destroy_each_property (p ∷ ps) h = destroy_property p h >>= λ h'. destroy_each_property ps h'

  unfoldable pub destroy_properties : Option (ℕ × List Property) → Heap → Result Heap
  destroy_properties none h = ok h
  destroy_properties (some (a, ps)) h = do h' ← destroy_each_property ps h; dbus_free M (some a) h'
