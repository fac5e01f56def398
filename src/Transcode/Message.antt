-- ===== src/Transcode/Message.antt =====
-- What the code of src/l2dbus_transcode.c sees of libdbus, which is not part of the repository: the
-- types that a signature iterator visits, the arguments of a message, and the parameter `Library`.
pub mod Typing
use l2dbus.Base.{ℕ, suc, Bool, Option, none, some, List, [], ◌∷◌, ◌==◌, if◌then◌else◌}
use l2dbus.Base.Int.{ℤ}
use l2dbus.Dbus.{DbusType}
use l2dbus.Lua.{Bytes, LuaNumber}

-- A complete type by the iterators that stand on it: `dbus_signature_iter_recurse` on an array or a
-- structure visits the types that it holds. In a valid signature a dictionary entry is the element of
-- an array and holds a key and a value: `dict` is such an array.
mutual
  pub data Sig : Type 0 where
    byte boolean int16 uint16 int32 uint32 int64 uint64 double : Sig
    string object_path signature unix_fd variant : Sig
    array : Sig → Sig
    dict : (key value : Sig) → Sig
    struct : Sigs → Sig

  pub data Sigs : Type 0 where
    end : Sigs
    followed : Sig → Sigs → Sigs

-- `dbus_signature_iter_get_current_type`
abbrev pub current_type : Sig → DbusType
current_type Sig.byte = DbusType.byte
current_type Sig.boolean = DbusType.boolean
current_type Sig.int16 = DbusType.int16
current_type Sig.uint16 = DbusType.uint16
current_type Sig.int32 = DbusType.int32
current_type Sig.uint32 = DbusType.uint32
current_type Sig.int64 = DbusType.int64
current_type Sig.uint64 = DbusType.uint64
current_type Sig.double = DbusType.double
current_type Sig.string = DbusType.string
current_type Sig.object_path = DbusType.object_path
current_type Sig.signature = DbusType.signature
current_type Sig.unix_fd = DbusType.unix_fd
current_type Sig.variant = DbusType.variant
current_type (Sig.array element) = DbusType.array
current_type (Sig.dict key value) = DbusType.array
current_type (Sig.struct fields) = DbusType.struct

-- The arguments of a message, as a message iterator appends them and visits them. An array keeps the
-- type of its elements, a variant the type of its value. A file descriptor is the number that is handed to
-- the append call, or the one that the read call returns: libdbus duplicates it in both, so what is
-- appended is not what is read.
mutual
  pub data Item : Type 0 where
    byte uint16 uint32 uint64 : ℕ → Item
    boolean int16 int32 int64 unix_fd : ℤ → Item
    double : LuaNumber → Item
    string object_path signature : Bytes → Item
    array : Sig → Items → Item
    dict : (key value : Sig) → Items → Item
    struct : Items → Item
    dict_entry : (key value : Item) → Item
    variant : Sig → Item → Item

  pub data Items : Type 0 where
    end : Items
    item : Item → Items → Items

abbrev pub sigs_length : Sigs → ℕ
sigs_length Sigs.end = 0
sigs_length (Sigs.followed s ss) = suc (sigs_length ss)

abbrev pub items_length : Items → ℕ
items_length Items.end = 0
items_length (Items.item i is) = suc (items_length is)

-- `parse` is `dbus_signature_validate` with the types that an iterator on a valid signature visits;
-- `contained` is what `dbus_message_iter_open_container` makes of the signature of a variant's value,
-- `none` where it fails. The other tests are the results of the functions that append to a message,
-- which fail where memory is short or the argument is not valid.
pub record Library : Type 0 where
  pub parse : Bytes → Option Sigs
  pub contained : Bytes → Option Sig
  pub append_basic : Item → Bool
  -- what libdbus takes as a string, an object path and a signature
  pub valid_text : Bytes → Bool
  pub valid_path : Bytes → Bool
  pub valid_signature : Bytes → Bool
  pub open_container : DbusType → Bool
  pub close_container : DbusType → Bool
  -- the C conversion of an integer to a `double`, which rounds
  pub to_double : ℤ → LuaNumber
