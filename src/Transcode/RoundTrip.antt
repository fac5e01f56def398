-- ===== src/Transcode/RoundTrip.antt =====
-- What `l2dbus_transcodeLuaArgsToDbusBySignature` of src/l2dbus_transcode.c sends is what
-- `l2dbus_transcodeDbusArgsToLua` returns: the Lua values that a type carries without a loss.
pub mod Basic
pub mod Containers
pub mod Arguments
use l2dbus.Base.{ℕ, zero, suc, ◌+◌, ◌^◌, ◌<◌, ◌≡◌, true, Bool, List, [], ◌∷◌, length, some, none}
use l2dbus.Base.Int.{ℤ}
use l2dbus.C.Words.{fits}
use l2dbus.Dbus.{DbusType}
use l2dbus.Boxed.{c_string}
use l2dbus.Lua.{Lua, LuaType, Bytes}
use l2dbus.Transcode.Message.{Sig, Sigs, followed, Item, Library}
use l2dbus.Transcode.Scalars.{in_half}
use l2dbus.Transcode.Unmarshall.{Term, of_nat, of_int}
use l2dbus.Transcode.Unmarshall.Sequence.{sequence}

-- A basic value that libdbus takes. A descriptor is left out: libdbus duplicates it.
abbrev pub IsSendable : Library → Item → Type 0
IsSendable B (Item.string s) = B.valid_text s ≡ true
IsSendable B (Item.object_path s) = B.valid_path s ≡ true
IsSendable B (Item.signature s) = B.valid_signature s ≡ true
IsSendable B (Item.unix_fd z) = ⊥
IsSendable B _ = Unit

-- libdbus takes every such value, and has the memory to open and close every container.
pub record Accepting (B : Library) : Type 0 where
  pub appends : (i : Item) → IsSendable B i → B.append_basic i ≡ true
  pub opens : (t : DbusType) → B.open_container t ≡ true
  pub closes : (t : DbusType) → B.close_container t ≡ true

module _ (L : Lua) (B : Library) where
  open L use {Value, lua_type, is_number, to_number, to_boolean, to_string, raw_len, raw_get_i}

  -- A string without a NUL that libdbus takes.
  abbrev pub IsString : (Bytes → Bool) → Value → Term → Type 0
  IsString valid v t =
      (lua_type v ≡ LuaType.string)
      × (c_string (to_string v) ≡ to_string v)
      × (valid (to_string v) ≡ true)
      × (t ≡ Term.string (to_string v))

  -- A whole number that is not negative, or any one.
  abbrev pub IsCount : ℕ → Value → Term → Type 0
  IsCount range v t =
      (lua_type v ≡ LuaType.number)
      × (is_number v ≡ true)
      × (n : ℕ) × (n < range)
      × (to_number v ≡ of_nat n)
      × (t ≡ Term.number (of_nat n))

  abbrev pub IsWhole : ℕ → Value → Term → Type 0
  IsWhole half v t =
      (lua_type v ≡ LuaType.number)
      × (is_number v ≡ true)
      × (z : ℤ) × (in_half half z ≡ true)
      × (to_number v ≡ of_int z)
      × (t ≡ Term.number (of_int z))

  -- The elements from `idx` on.
  abbrev pub ReadEach : (Value → Term → Type 0) → Value → ℕ → List Term → Type 0
  ReadEach R u idx [] = Unit
  ReadEach R u idx (t ∷ ts) = R (raw_get_i u idx) t × ReadEach R u (idx + 1) ts

  -- The value is the Lua value `t`, of a form that the type carries: tables of such values, as long as
  -- their type where it is a structure.
  unfoldable mutual
    pub Reads : Sig → Value → Term → Type 0
    Reads Sig.boolean v t = (lua_type v ≡ LuaType.boolean) × (t ≡ Term.boolean (to_boolean v))
    Reads Sig.byte v t = IsCount (2 ^ 8) v t
    Reads Sig.uint16 v t = IsCount (2 ^ 16) v t
    Reads Sig.uint32 v t = IsCount (2 ^ 32) v t
    Reads Sig.int16 v t = IsWhole (2 ^ 15) v t
    Reads Sig.int32 v t = IsWhole (2 ^ 31) v t
    Reads Sig.double v t =
        (lua_type v ≡ LuaType.number) × (is_number v ≡ true) × (t ≡ Term.number (to_number v))
    Reads Sig.string v t = IsString B.valid_text v t
    Reads Sig.object_path v t = IsString B.valid_path v t
    Reads Sig.signature v t = IsString B.valid_signature v t
    Reads (Sig.array s) v t =
        (lua_type v ≡ LuaType.table)
        × (ts : List Term) × (t ≡ Term.table (sequence 1 ts))
        × (raw_len v ≡ length ts)
        × ReadEach (Reads s) v 1 ts
    Reads (Sig.struct ss) v t =
        (lua_type v ≡ LuaType.table)
        × (ts : List Term) × (t ≡ Term.table (sequence 1 ts))
        × (raw_len v ≡ length ts)
        × ReadFields ss v 1 ts
    Reads _ v t = ⊥

    pub ReadFields : Sigs → Value → ℕ → List Term → Type 0
    ReadFields Sigs.end u idx [] = Unit
    ReadFields Sigs.end u idx (t ∷ ts) = ⊥
    ReadFields (followed s ss) u idx [] = ⊥
    ReadFields (followed s ss) u idx (t ∷ ts) =
        Reads s (raw_get_i u idx) t × ReadFields ss u (idx + 1) ts

  -- The arguments of a call, one for each type.
  unfoldable pub ReadArguments : Sigs → List Value → List Term → Type 0
  ReadArguments Sigs.end [] [] = Unit
  ReadArguments (followed s ss) (v ∷ vs) (t ∷ ts) = Reads s v t × ReadArguments ss vs ts
  ReadArguments _ _ _ = ⊥
