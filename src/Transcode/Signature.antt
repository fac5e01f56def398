-- ===== src/Transcode/Signature.antt =====
-- `l2dbus_dbusComputeSignature` of src/l2dbus_transcode.c. The string buffer of libcdbus is not part
-- of the repository: it is the parameter `StringBuffer`.
pub mod Grammar
pub mod Complete
pub mod Levels
pub mod Variant
use l2dbus.Base.{
  ℕ, zero, suc, ◌+◌, Bool, true, false, none, some, List, [], ◌∷◌, ltb, leb, ◌==◌, if◌then◌else◌,
  length, Result, ok, out_of_fuel, ◌>>=◌,
}
use l2dbus.Dbus.{DbusType, code}
use l2dbus.Lua.{Lua, Bytes}
use l2dbus.Transcode.Tables.{map_lua_to_dbus_type}
use l2dbus.Transcode.Wrapper.{get_cached_signature, get_value}

-- `cdbus_stringBufferAppend` returns the number of bytes that it appended.
pub record StringBuffer : Type 1 where
  pub Buffer : Type 0
  pub buffer_length : Buffer → ℕ
  pub contents : Buffer → Bytes
  pub append : Buffer → Bytes → Buffer × ℕ

abbrev pub maximum_signature_length : ℕ
maximum_signature_length = 255

abbrev pub maximum_type_recursion_depth : ℕ
maximum_type_recursion_depth = 32

module _ (L : Lua) (S : StringBuffer) (fuel : ℕ) where
  open L use {Value, raw_len, raw_get_i, entries}
  open S use {Buffer, buffer_length, append}

  -- Whether the signature so far is valid, and the buffer.
  abbrev pub Outcome : Type 0
  Outcome = Bool × Buffer

  unfoldable pub append_all : Buffer → Bytes → Outcome
  append_all b s = let (b', n) = append b s in (length s == n, b')

  -- The rest is run where the signature is valid so far.
  abbrev pub if_valid : Outcome → (Buffer → Result Outcome) → Result Outcome
  if_valid (true, b) next = next b
  if_valid (false, b) next = ok (false, b)

  -- The recursive call, one level down.
  abbrev pub Recur : Type 0
  Recur = Buffer → Value → Result Outcome

  -- A container: the signature that its wrapper keeps, or its opening and what `body` adds for the
  -- wrapped value.
  unfoldable pub container :
      Buffer → Value → Bytes → (Value → Buffer → Result Outcome) → Result Outcome
  container b v opening body = do
    cached ← get_cached_signature L v
    elim cached [
      | some s ↦ ok (append_all b s)
      | none ↦ if_valid (append_all b opening) (λ b'. get_value L v >>= λ u. body u b')
    ]

  -- The first element stands for every element.
  unfoldable pub first_element : Recur → Value → Buffer → Result Outcome
  first_element recur u b = if raw_len u == 0 then ok (false, b) else recur b (raw_get_i u 1)

  -- The elements `idx` to `idx + count - 1` of a structure.
  unfoldable pub fields : Recur → Value → ℕ → ℕ → Buffer → Result Outcome
  fields recur u zero idx b = ok (true, b)
  fields recur u (suc count) idx b = do
    o ← recur b (raw_get_i u idx)
    if_valid o (λ b'. fields recur u count (idx + 1) b')

  unfoldable pub structure : Recur → Value → Buffer → Result Outcome
  structure recur u b = do
    o ← fields recur u (raw_len u) 1 b
    if_valid o (λ b'. ok (append_all b' (b')' ∷ [])))

  -- The first key stands for every key; the values are sent as variants.
  unfoldable pub first_entry : Recur → List (Value × Value) → Buffer → Result Outcome
  first_entry recur [] b = ok (true, b)
  first_entry recur ((k, w) ∷ es) b = do
    o ← recur b k
    if_valid o (λ b'. ok (append_all b' (code DbusType.variant ∷ [])))

  unfoldable pub dictionary : Recur → Value → Buffer → Result Outcome
  dictionary recur u b = do
    o ← first_entry recur (entries u) b
    if_valid o (λ b'. ok (append_all b' (b'}' ∷ [])))

  unfoldable pub by_type : Recur → DbusType → Buffer → Value → Result Outcome
  by_type recur DbusType.array b v = container b v (b'a' ∷ []) (first_element recur)
  by_type recur DbusType.struct b v = container b v (b'(' ∷ []) (structure recur)
  by_type recur DbusType.variant b v = container b v (b'v' ∷ []) (λ u b'. recur b' u)
  by_type recur DbusType.dict_entry b v = container b v (b'a' ∷ b'{' ∷ []) (dictionary recur)
  by_type recur DbusType.invalid b v = ok (false, b)
  by_type recur t b v = ok (append_all b (code t ∷ []))

  -- `levels` bounds the recursion, which the test of `level` ends.
  unfoldable pub compute_signature : (levels level : ℕ) → Buffer → Value → Result Outcome
  compute_signature zero level b v = out_of_fuel
  compute_signature (suc levels) level b v =
      let deeper = by_type (compute_signature levels (level + 1)) in
      if leb maximum_signature_length (buffer_length b)
      then ok (false, b)
      else if ltb maximum_type_recursion_depth level
      then ok (false, b)
      else elim (map_lua_to_dbus_type L fuel v) [ none ↦ out_of_fuel | some t ↦ deeper t b v ]
