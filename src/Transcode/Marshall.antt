-- ===== src/Transcode/Marshall.antt =====
-- `l2dbus_transcodeMarshallAsType` of src/l2dbus_transcode.c: a Lua value is appended to a message by
-- the type that the signature iterator stands on. The types of a signature are a tree, which the
-- recursion follows; a variant goes on with the signature of its own value, by fuel.
pub mod Typed
pub mod Ends
use l2dbus.Base.{
  ℕ, zero, suc, ◌+◌, Bool, true, false, ◌&&◌, Option, none, some, List, [], ◌∷◌, ◌==◌,
  if◌then◌else◌, Result, ok, lua_error, undefined, out_of_fuel, Error, Fault, ◌>>=◌, ◌>>◌,
}
use l2dbus.Boxed.{check_type}
use l2dbus.Dbus.{DbusType, code}
use l2dbus.Lua.{Lua, LuaType, Bytes}
use l2dbus.Transcode.Message.{Sig, Sigs, end, followed, Item, Items, item, Library}
use l2dbus.Transcode.Scalars.{
  marshall_byte, marshall_boolean, marshall_int16, marshall_uint16, marshall_int32, marshall_uint32,
  marshall_int64, marshall_uint64, marshall_double, marshall_string, marshall_object_path,
  marshall_signature, marshall_unix_fd,
}
use l2dbus.Transcode.Signature.{StringBuffer, compute_signature, maximum_type_recursion_depth}
use l2dbus.Transcode.Wrapper.{get_cached_signature, get_value, is_found}

-- `cdbus_stringBufferNew`, `...Copy` and `...Clear`; `none` where memory is short.
pub record Buffers (S : StringBuffer) : Type 0 where
  pub new_buffer : Option S.Buffer
  pub copy_buffer : Bytes → Option S.Buffer
  pub clear_buffer : S.Buffer → S.Buffer

-- For a variant only the signature behind the letter is of interest.
abbrev pub strip_variant : Bytes → Bytes
strip_variant [] = []
strip_variant (c ∷ s) = if c == code DbusType.variant then s else c ∷ s

-- luaL_checkstring turns a number in its place on the stack into a string.
abbrev pub makes_string : Sig → Bool
makes_string Sig.string = true
makes_string Sig.object_path = true
makes_string Sig.signature = true
makes_string _ = false

module _ (L : Lua) (S : StringBuffer) (P : Buffers S) (B : Library) (fuel : ℕ) where
  open L use {Value, lua_type, raw_len, raw_get_i, entries}
  open S use {Buffer, contents}
  open P use {new_buffer, copy_buffer}
  open B use {parse, contained, open_container, close_container}

  -- The level at which the computation of a signature stops cuts its recursion.
  unfoldable pub signature_of : Buffer → Value → Result (Bool × Buffer)
  signature_of b v = compute_signature L S fuel (maximum_type_recursion_depth + 2) 0 b v

  -- The cached signature of a userdata, and the value that it wraps.
  unfoldable pub unwrapped : Value → Result (Option Bytes × Value)
  unwrapped v = elim (lua_type v) [
    | LuaType.userdata ↦ do cached ← get_cached_signature L v; u ← get_value L v; ok (cached, u)
    | _ ↦ ok (none, v)
  ]

  abbrev pub Append : Type 0
  Append = Value → Result Item

  abbrev pub unwrapping : (Option Bytes × Value → Result Item) → Append
  unwrapping switch v = unwrapped v >>= switch

  unfoldable pub opened : DbusType → Result (Unit {0})
  opened t = if open_container t then ok tt else lua_error Error.cannot_open

  unfoldable pub closed : DbusType → Item → Result Item
  closed t i = if close_container t then ok i else lua_error Error.cannot_close

  -- The elements `idx` to `idx + count - 1` of an array, all of the same type.
  unfoldable pub elements : Append → Value → ℕ → ℕ → Result Items
  elements one u zero idx = ok Items.end
  elements one u (suc count) idx = do
    i ← one (raw_get_i u idx)
    is ← elements one u count (idx + 1)
    ok (item i is)

  unfoldable pub marshall_array : Sig → Append → Value → Result Item
  marshall_array element one u = do
    check_type L u LuaType.table
    opened DbusType.array
    is ← elements one u (raw_len u) 1
    closed DbusType.array (Item.array element is)

  unfoldable pub dict_pair : (one_key one_value : Append) → Value → Value → Result Item
  dict_pair one_key one_value k w = do
    opened DbusType.dict_entry
    i ← one_key k
    j ← one_value w
    closed DbusType.dict_entry (Item.dict_entry i j)

  -- `lua_next` goes on from a key, which may be a number that has become a string.
  unfoldable pub next_key : Sig → Value → Result (Unit {0})
  next_key key k = elim (lua_type k) [
    | LuaType.number ↦ if makes_string key then undefined Fault.confused_next else ok tt
    | _ ↦ ok tt
  ]

  unfoldable pub dict_items :
      (key : Sig) (one_key one_value : Append) → List (Value × Value) → Result Items
  dict_items key one_key one_value [] = ok Items.end
  dict_items key one_key one_value ((k, w) ∷ es) = do
    pair ← dict_pair one_key one_value k w
    next_key key k
    is ← dict_items key one_key one_value es
    ok (item pair is)

  unfoldable pub marshall_dict : (key value : Sig) → Append → Append → Value → Result Item
  marshall_dict key value one_key one_value u = do
    check_type L u LuaType.table
    opened DbusType.array
    is ← dict_items key one_key one_value (entries u)
    closed DbusType.array (Item.dict key value is)

  -- The signature of the value of a variant: the cached one, or one that is computed.
  unfoldable pub variant_signature : Option Bytes → Value → Result Bytes
  variant_signature (some cached) u = elim (copy_buffer (strip_variant cached)) [
    | none ↦ lua_error Error.no_memory
    | some b ↦ ok (contents b)
  ]
  variant_signature none u = elim new_buffer [
    | none ↦ lua_error Error.no_memory
    | some b ↦ do
      (valid, b') ← signature_of b u
      if valid && is_found (parse (contents b'))
          then ok (contents b')
          else lua_error Error.no_variant_signature
  ]

  -- `deep` is the protected recursive call, whose error is raised again.
  unfoldable pub marshall_variant : (deep : Sig → Append) → Option Bytes → Value → Result Item
  marshall_variant deep cached u = do
    s ← variant_signature cached u
    elim (contained s) [
      | none ↦ lua_error Error.cannot_open
      | some t ↦ do i ← deep t u; closed DbusType.variant (Item.variant t i)
    ]

  module _ (deep : Sig → Append) where
    unfoldable mutual
      -- The switch on the type.
      pub marshall_unwrapped : Sig → Option Bytes × Value → Result Item
      marshall_unwrapped Sig.byte (cached, u) = marshall_byte L B u
      marshall_unwrapped Sig.boolean (cached, u) = marshall_boolean L B u
      marshall_unwrapped Sig.int16 (cached, u) = marshall_int16 L B u
      marshall_unwrapped Sig.uint16 (cached, u) = marshall_uint16 L B u
      marshall_unwrapped Sig.int32 (cached, u) = marshall_int32 L B u
      marshall_unwrapped Sig.uint32 (cached, u) = marshall_uint32 L B u
      marshall_unwrapped Sig.int64 (cached, u) = marshall_int64 L B u
      marshall_unwrapped Sig.uint64 (cached, u) = marshall_uint64 L B u
      marshall_unwrapped Sig.double (cached, u) = marshall_double L B u
      marshall_unwrapped Sig.string (cached, u) = marshall_string L B u
      marshall_unwrapped Sig.object_path (cached, u) = marshall_object_path L B u
      marshall_unwrapped Sig.signature (cached, u) = marshall_signature L B u
      marshall_unwrapped Sig.unix_fd (cached, u) = marshall_unix_fd L B u
      marshall_unwrapped Sig.variant (cached, u) = marshall_variant deep cached u
      marshall_unwrapped (Sig.array element) (cached, u) =
          marshall_array element (unwrapping (marshall_unwrapped element)) u
      marshall_unwrapped (Sig.dict key value) (cached, u) =
          marshall_dict key value (unwrapping (marshall_unwrapped key))
            (unwrapping (marshall_unwrapped value)) u
      marshall_unwrapped (Sig.struct fields) (cached, u) = do
        check_type L u LuaType.table
        opened DbusType.struct
        is ← marshall_fields fields u (raw_len u) 1
        closed DbusType.struct (Item.struct is)

      -- The fields from `idx` on, while there are elements and types: at the end of a structure libdbus
      -- documents the type DBUS_TYPE_INVALID, which ends the loop.
      pub marshall_fields : Sigs → Value → ℕ → ℕ → Result Items
      marshall_fields Sigs.end u count idx = ok Items.end
      marshall_fields (followed s ss) u zero idx = ok Items.end
      marshall_fields (followed s ss) u (suc count) idx = do
        i ← unwrapping (marshall_unwrapped s) (raw_get_i u idx)
        is ← marshall_fields ss u count (idx + 1)
        ok (item i is)

    unfoldable pub marshall_value : Sig → Append
    marshall_value sig = unwrapping (marshall_unwrapped sig)

  -- `nesting` bounds how deep variants stand in each other.
  unfoldable pub marshall_as_type : ℕ → Sig → Value → Result Item
  marshall_as_type zero sig v = out_of_fuel
  marshall_as_type (suc nesting) sig v = marshall_value (marshall_as_type nesting) sig v
