-- ===== src/Transcode/Message/Typing.antt =====
-- The values that have a type of the D-Bus specification, as the messages of src/l2dbus_transcode.c hold
-- them.
use l2dbus.Base.{◌^◌, ◌<◌, ◌≡◌, true}
use l2dbus.C.Words.{fits, u64_mod}
use l2dbus.Transcode.Message.{Sig, Sigs, followed, Item, Items, item}
use l2dbus.Transcode.Scalars.{in_half}

-- A value of a type, its numbers in their ranges. A structure may end before its types do.
unfoldable mutual
  pub HasType : Item → Sig → Type 0
  HasType (Item.byte n) Sig.byte = n < 2 ^ 8
  HasType (Item.uint16 n) Sig.uint16 = n < 2 ^ 16
  HasType (Item.uint32 n) Sig.uint32 = n < 2 ^ 32
  HasType (Item.uint64 n) Sig.uint64 = n < u64_mod
  HasType (Item.boolean z) Sig.boolean = in_half (2 ^ 31) z ≡ true
  HasType (Item.int16 z) Sig.int16 = in_half (2 ^ 15) z ≡ true
  HasType (Item.int32 z) Sig.int32 = in_half (2 ^ 31) z ≡ true
  HasType (Item.int64 z) Sig.int64 = fits z ≡ true
  HasType (Item.unix_fd z) Sig.unix_fd = in_half (2 ^ 31) z ≡ true
  HasType (Item.double d) Sig.double = Unit
  HasType (Item.string s) Sig.string = Unit
  HasType (Item.object_path s) Sig.object_path = Unit
  HasType (Item.signature s) Sig.signature = Unit
  HasType (Item.array t is) (Sig.array element) = (t ≡ element) × HaveType is element
  HasType (Item.dict k w is) (Sig.dict key value) =
      (k ≡ key) × (w ≡ value) × HavePairType is key value
  HasType (Item.struct is) (Sig.struct fields) = HaveTypes is fields
  HasType (Item.variant t i) Sig.variant = HasType i t
  HasType _ _ = ⊥

  pub HaveType : Items → Sig → Type 0
  HaveType Items.end s = Unit
  HaveType (item i is) s = HasType i s × HaveType is s

  pub HavePairType : Items → Sig → Sig → Type 0
  HavePairType Items.end key value = Unit
  HavePairType (item i is) key value = IsPair i key value × HavePairType is key value

  pub IsPair : Item → Sig → Sig → Type 0
  IsPair (Item.dict_entry i j) key value = HasType i key × HasType j value
  IsPair _ key value = ⊥

  pub HaveTypes : Items → Sigs → Type 0
  HaveTypes Items.end ss = Unit
  HaveTypes (item i is) Sigs.end = ⊥
  HaveTypes (item i is) (followed s ss) = HasType i s × HaveTypes is ss
