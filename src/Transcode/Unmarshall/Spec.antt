-- ===== src/Transcode/Unmarshall/Spec.antt =====
-- What a message stands for in Lua, independently of the tables that src/l2dbus_transcode.c fills, and
-- that its functions give it.
use l2dbus.Base.{
  ℕ, ◌≡◌, ap, ◌∙◌, refl, not, List, [], ◌∷◌, Result, ok, lua_error, undefined, out_of_fuel, Error,
  ◌>>=◌,
}
use l2dbus.Base.Int.{pos, eqb_ℤ}
use l2dbus.Transcode.Message.{Item, Items, item}
use l2dbus.Transcode.Unmarshall.{
  Term, Fields, of_nat, of_int, Array, empty_array, push, raw_get, raw_set, settable, set_entry,
  push_table, unmarshall, unmarshall_items,
}
use l2dbus.Transcode.Unmarshall.Sequence.{sequence, push_all, push_all-sequence}

-- An array and a structure stand for a list, a dictionary for a table with its keys, in which a later
-- entry replaces an earlier one, and a variant for what it holds.
unfoldable mutual
  pub term_of : Item → Result Term
  term_of (Item.byte n) = ok (Term.number (of_nat n))
  term_of (Item.boolean z) = ok (Term.boolean (not (eqb_ℤ z (pos 0))))
  term_of (Item.int16 z) = ok (Term.number (of_int z))
  term_of (Item.uint16 n) = ok (Term.number (of_nat n))
  term_of (Item.int32 z) = ok (Term.number (of_int z))
  term_of (Item.uint32 n) = ok (Term.number (of_nat n))
  term_of (Item.int64 z) = ok (Term.int64 z)
  term_of (Item.uint64 n) = ok (Term.uint64 n)
  term_of (Item.double d) = ok (Term.number d)
  term_of (Item.string s) = ok (Term.string s)
  term_of (Item.object_path s) = ok (Term.string s)
  term_of (Item.signature s) = ok (Term.string s)
  term_of (Item.unix_fd z) = ok (Term.number (of_int z))
  term_of (Item.array t is) = do ts ← terms_of is; ok (Term.table (sequence 1 ts))
  term_of (Item.struct is) = do ts ← terms_of is; ok (Term.table (sequence 1 ts))
  term_of (Item.dict k w is) = do fs ← fields_of is Fields.empty; ok (Term.table fs)
  term_of (Item.variant t i) = term_of i
  term_of (Item.dict_entry i j) = lua_error Error.mismatch

  pub terms_of : Items → Result (List Term)
  terms_of Items.end = ok []
  terms_of (item i is) = do t ← term_of i; ts ← terms_of is; ok (t ∷ ts)

  pub fields_of : Items → Fields → Result Fields
  fields_of Items.end fs = ok fs
  fields_of (item i is) fs = entry_of i fs >>= λ fs'. fields_of is fs'

  pub entry_of : Item → Fields → Result Fields
  entry_of (Item.dict_entry i j) fs = do k ← term_of i; w ← term_of j; settable fs k w
  entry_of _ fs = lua_error Error.mismatch

-- Dictionary entries stand in dictionaries, which hold nothing else.
unfoldable mutual
  pub WellFormed : Item → Type 0
  WellFormed (Item.array t is) = AllWellFormed is
  WellFormed (Item.struct is) = AllWellFormed is
  WellFormed (Item.dict k w is) = AllEntries is
  WellFormed (Item.variant t i) = WellFormed i
  WellFormed (Item.dict_entry i j) = ⊥
  WellFormed _ = Unit

  pub AllWellFormed : Items → Type 0
  AllWellFormed Items.end = Unit
  AllWellFormed (item i is) = WellFormed i × AllWellFormed is

  pub AllEntries : Items → Type 0
  AllEntries Items.end = Unit
  AllEntries (item i is) = IsEntry i × AllEntries is

  pub IsEntry : Item → Type 0
  IsEntry (Item.dict_entry i j) = WellFormed i × WellFormed j
  IsEntry _ = ⊥

-- The value of one argument is appended, and the values of several.
abbrev pub pushed : Result Term → Array → Result Array
pushed r a = r >>= λ t. ok (push t a)

abbrev pub all_pushed : Result (List Term) → Array → Result Array
all_pushed r a = r >>= λ ts. ok (push_all ts a)

pushed-list :
    (r : Result (List Term)) (a : Array)
    → all_pushed r empty_array >>= push_table a
      ≡ pushed (r >>= λ ts. ok (Term.table (sequence 1 ts))) a
unfolding push_table
pushed-list (ok ts) a = ap (λ fs. ok (push (Term.table fs) a)) (push_all-sequence ts)
pushed-list (lua_error e) a = refl
pushed-list (undefined u) a = refl
pushed-list out_of_fuel a = refl

pushed-fields :
    (r : Result Fields) (a : Array) (i : ℕ)
    → (r >>= λ fs. ok (fs, i)) >>= push_table a ≡ pushed (r >>= λ fs. ok (Term.table fs)) a
unfolding push_table
pushed-fields (ok fs) a i = refl
pushed-fields (lua_error e) a i = refl
pushed-fields (undefined u) a i = refl
pushed-fields out_of_fuel a i = refl

pushed-cons :
    (r : Result Term) (q : Result (List Term)) (a : Array) (rest : Array → Result Array)
    → ((b : Array) → rest b ≡ all_pushed q b)
    → pushed r a >>= rest ≡ all_pushed (r >>= λ t. q >>= λ ts. ok (t ∷ ts)) a
unfolding push_all
pushed-cons (ok t) (ok ts) a rest h = h (push t a)
pushed-cons (ok t) (lua_error e) a rest h = h (push t a)
pushed-cons (ok t) (undefined u) a rest h = h (push t a)
pushed-cons (ok t) out_of_fuel a rest h = h (push t a)
pushed-cons (lua_error e) q a rest h = refl
pushed-cons (undefined u) q a rest h = refl
pushed-cons out_of_fuel q a rest h = refl

pushed-entry :
    (r q : Result Term) (fs : Fields) (i : ℕ) (value : Array → Result Array)
    → ((b : Array) → value b ≡ pushed q b)
    → (pushed r empty_array >>= λ keyed. value keyed >>= set_entry (fs, i))
      ≡ ((r >>= λ k. q >>= λ w. settable fs k w) >>= λ fs'. ok (fs', i))
unfolding set_entry push raw_set raw_get
pushed-entry (ok k) (ok w) fs i value h = ap (λ m. m >>= set_entry (fs, i)) (h _)
pushed-entry (ok k) (lua_error e) fs i value h = ap (λ m. m >>= set_entry (fs, i)) (h _)
pushed-entry (ok k) (undefined u) fs i value h = ap (λ m. m >>= set_entry (fs, i)) (h _)
pushed-entry (ok k) out_of_fuel fs i value h = ap (λ m. m >>= set_entry (fs, i)) (h _)
pushed-entry (lua_error e) q fs i value h = refl
pushed-entry (undefined u) q fs i value h = refl
pushed-entry out_of_fuel q fs i value h = refl

fields-cons :
    (r : Result Fields) (i : ℕ) (rest : Array → Result Array) (next : Fields → Result Fields)
    → ((fs : Fields) → rest (fs, i) ≡ (next fs >>= λ fs'. ok (fs', i)))
    → (r >>= λ fs. ok (fs, i)) >>= rest ≡ ((r >>= next) >>= λ fs'. ok (fs', i))
fields-cons (ok fs) i rest next h = h fs
fields-cons (lua_error e) i rest next h = refl
fields-cons (undefined u) i rest next h = refl
fields-cons out_of_fuel i rest next h = refl

mutual
  unfolding unmarshall term_of WellFormed push_all

  unmarshall_lem : (i : Item) → WellFormed i → (a : Array) → unmarshall i a ≡ pushed (term_of i) a
  unmarshall_lem (Item.byte n) h a = refl
  unmarshall_lem (Item.boolean z) h a = refl
  unmarshall_lem (Item.int16 z) h a = refl
  unmarshall_lem (Item.uint16 n) h a = refl
  unmarshall_lem (Item.int32 z) h a = refl
  unmarshall_lem (Item.uint32 n) h a = refl
  unmarshall_lem (Item.int64 z) h a = refl
  unmarshall_lem (Item.uint64 n) h a = refl
  unmarshall_lem (Item.double d) h a = refl
  unmarshall_lem (Item.string s) h a = refl
  unmarshall_lem (Item.object_path s) h a = refl
  unmarshall_lem (Item.signature s) h a = refl
  unmarshall_lem (Item.unix_fd z) h a = refl
  unmarshall_lem (Item.array t is) h a =
      ap (λ r. r >>= push_table a) (unmarshall_items-all is h empty_array)
      ∙ pushed-list (terms_of is) a
  unmarshall_lem (Item.struct is) h a =
      ap (λ r. r >>= push_table a) (unmarshall_items-all is h empty_array)
      ∙ pushed-list (terms_of is) a
  unmarshall_lem (Item.dict k w is) h a =
      ap (λ r. r >>= push_table a) (unmarshall_items-entries is h Fields.empty 1)
      ∙ pushed-fields (fields_of is Fields.empty) a 1
  unmarshall_lem (Item.variant t i) h a = unmarshall_lem i h a
  unmarshall_lem (Item.dict_entry i j) h a = absurd h

  pub unmarshall_items-all :
      (is : Items)
      → AllWellFormed is
      → (a : Array) → unmarshall_items is a ≡ all_pushed (terms_of is) a
  unmarshall_items-all Items.end h a = refl
  unmarshall_items-all (item i is) (h, hs) a =
      ap (λ r. r >>= unmarshall_items is) (unmarshall_lem i h a)
      ∙ pushed-cons (term_of i) (terms_of is) a (unmarshall_items is) (unmarshall_items-all is hs)

  unmarshall_items-entries :
      (is : Items)
      → AllEntries is
      → (fs : Fields) (i : ℕ)
      → unmarshall_items is (fs, i) ≡ (fields_of is fs >>= λ fs'. ok (fs', i))
  unmarshall_items-entries Items.end h fs i = refl
  unmarshall_items-entries (item e is) (h, hs) fs i =
      ap (λ r. r >>= unmarshall_items is) (unmarshall-entry e h fs i)
      ∙ fields-cons (entry_of e fs) i (unmarshall_items is) (fields_of is)
          (λ fs'. unmarshall_items-entries is hs fs' i)

  unmarshall-entry :
      (e : Item)
      → IsEntry e
      → (fs : Fields) (i : ℕ) → unmarshall e (fs, i) ≡ (entry_of e fs >>= λ fs'. ok (fs', i))
  unmarshall-entry (Item.dict_entry k w) (hk, hw) fs i =
      ap (λ r. r >>= λ keyed. unmarshall w keyed >>= set_entry (fs, i))
        (unmarshall_lem k hk empty_array)
      ∙ pushed-entry (term_of k) (term_of w) fs i (unmarshall w) (unmarshall_lem w hw)
  unmarshall-entry _ h fs i = absurd h
