-- ===== src/Tests/Messages.antt =====
-- The theorems about the messages of src/l2dbus_transcode.c at concrete values.
use l2dbus.Base.{◌≡◌, refl, arith, true, false, none, some, List, [], ◌∷◌, ◌++◌, length, ok}
use l2dbus.Boxed.{check_type, check_string}
use l2dbus.C.Words.{double_to_uint64}
use l2dbus.Lua.{Bytes, finite}
use l2dbus.Tests.Vm.{V, vm, vm-HoldsWords}
use l2dbus.Transcode.Arguments.{
  marshall_at, next_argument, marshall_arguments, lua_args_to_dbus_by_signature,
}
use l2dbus.Transcode.Arguments.Count.{Covers, lua_args_to_dbus_by_signature-Covers}
use l2dbus.Transcode.Constructors.{
  Wrapped, given, new_container, wrap, new_userdata, opt_string, describes,
}
use l2dbus.Transcode.Constructors.Stored.{IsDescribed, new_container-IsDescribed}
use l2dbus.Transcode.Tables.{is_table_array, array_entries, array_item}
use l2dbus.Types.{dbus_array_type_id}
use l2dbus.Transcode.Marshall.{
  Buffers, unwrapped, opened, closed, elements, marshall_array, marshall_unwrapped, marshall_value,
  marshall_as_type,
}
use l2dbus.Transcode.Marshall.Typed.{marshall_as_type-HasType}
use l2dbus.Transcode.Message.{Sig, Sigs, followed, Item, Items, item, Library}
use l2dbus.Transcode.Message.Typing.{HasType}
use l2dbus.Transcode.RoundTrip.{Accepting, Reads, ReadArguments}
use l2dbus.Transcode.RoundTrip.Arguments.{dbus_args_to_lua-lua_args_to_dbus_by_signature}
use l2dbus.Transcode.Scalars.{number_argument, unsigned_argument, append, marshall_byte}
use l2dbus.Transcode.Signature.{StringBuffer}
use l2dbus.Transcode.Unmarshall.{Term, of_nat, dbus_args_to_lua}
use l2dbus.Transcode.Unmarshall.Returns.{dbus_args_to_lua-terms_of}
use l2dbus.Transcode.Unmarshall.Sequence.{sequence}
use l2dbus.Transcode.Unmarshall.Spec.{terms_of, WellFormed, AllWellFormed}

abbrev bytes_buffer : StringBuffer
bytes_buffer = record {
  Buffer = Bytes;
  buffer_length = length;
  contents = λ b. b;
  append = λ b s. (b ++ s, length s);
}

abbrev bytes_buffers : Buffers bytes_buffer
bytes_buffers = record { new_buffer = some []; copy_buffer = λ s. some s; clear_buffer = λ b. [] }

-- The one signature of these tests is "ay".
abbrev list_type : Sigs
list_type = followed (Sig.array Sig.byte) Sigs.end

abbrev bus : Library
bus = record {
  parse = λ s. some list_type;
  contained = λ s. none;
  append_basic = λ i. true;
  valid_text = λ s. true;
  valid_path = λ s. true;
  valid_signature = λ s. true;
  open_container = λ t. true;
  close_container = λ t. true;
  to_double = λ z. finite false 0 0;
}

bus-Accepting : Accepting bus
bus-Accepting = record { appends = λ i h. refl; opens = λ t. refl; closes = λ t. refl }

abbrev sent_list : Item
sent_list = Item.array Sig.byte (item (Item.byte 7) Items.end)

list_is_sent :
    marshall_as_type vm bytes_buffer bytes_buffers bus 3 1 (Sig.array Sig.byte) V.list
    ≡ ok sent_list
unfolding marshall_as_type marshall_value marshall_unwrapped marshall_array elements unwrapped
    opened closed check_type marshall_byte unsigned_argument number_argument append double_to_uint64
list_is_sent = refl

marshall_as_type-HasType_example : HasType sent_list (Sig.array Sig.byte)
marshall_as_type-HasType_example =
    marshall_as_type-HasType vm bytes_buffer bytes_buffers bus 3 vm-HoldsWords 1
      (Sig.array Sig.byte) V.list sent_list list_is_sent

arguments_are_sent :
    lua_args_to_dbus_by_signature vm bytes_buffer bytes_buffers bus 3 1 true
      (V.list ∷ [])
      (some (b'a' ∷ b'y' ∷ []))
    ≡ ok (item sent_list Items.end)
unfolding lua_args_to_dbus_by_signature marshall_arguments marshall_at next_argument
arguments_are_sent = rw list_is_sent refl

lua_args_to_dbus_by_signature-Covers_example :
    (true ≡ true)
    × (s : Bytes) × (some (b'a' ∷ b'y' ∷ []) ≡ some s)
    × (ss : Sigs) × (some list_type ≡ some ss)
    × Covers vm bytes_buffer bytes_buffers bus 3 1 vm-HoldsWords
        (V.list ∷ [])
        ss
        (item sent_list Items.end)
lua_args_to_dbus_by_signature-Covers_example =
    lua_args_to_dbus_by_signature-Covers vm bytes_buffer bytes_buffers bus 3 1 vm-HoldsWords true
      (V.list ∷ []) (some (b'a' ∷ b'y' ∷ [])) (item sent_list Items.end) arguments_are_sent

abbrev read_list : Term
read_list = Term.table (sequence 1 (Term.number (of_nat 7) ∷ []))

list-ReadArguments : ReadArguments vm bus list_type (V.list ∷ []) (read_list ∷ [])
unfolding ReadArguments Reads
list-ReadArguments = (
  (refl, Term.number (of_nat 7) ∷ [], refl, refl, ((refl, refl, 7, omega arith, refl, refl), tt)),
  tt,
)

dbus_args_to_lua-lua_args_to_dbus_by_signature_example :
    (is : Items) × (lua_args_to_dbus_by_signature vm bytes_buffer bytes_buffers bus 3 1 true
        (V.list ∷ [])
        (some (b'a' ∷ b'y' ∷ []))
      ≡ ok is)
    × (dbus_args_to_lua (λ n. true) (some is) ≡ ok (read_list ∷ []))
dbus_args_to_lua-lua_args_to_dbus_by_signature_example =
    dbus_args_to_lua-lua_args_to_dbus_by_signature vm bytes_buffer bytes_buffers bus 3 0
      bus-Accepting (λ n. true) (λ n. refl) (b'a' ∷ b'y' ∷ []) list_type refl (V.list ∷ [])
      (read_list ∷ []) list-ReadArguments

sent_list-WellFormed : WellFormed sent_list
unfolding WellFormed
sent_list-WellFormed = (tt, tt)

dbus_args_to_lua-terms_of_example :
    dbus_args_to_lua (λ n. true) (some (item sent_list Items.end))
    ≡ terms_of (item sent_list Items.end)
unfolding AllWellFormed
dbus_args_to_lua-terms_of_example =
    dbus_args_to_lua-terms_of (λ n. true) (item sent_list Items.end) (λ n. refl)
      (sent_list-WellFormed, tt)

abbrev array_wrapper : Wrapped V
array_wrapper = record {
  type_id = dbus_array_type_id;
  signature = some (b'0' ∷ []);
  content = given V.list;
}

array_is_wrapped :
    new_container vm bus
      (λ s. true)
      3
      dbus_array_type_id
      (is_table_array vm 3)
      (V.list ∷ V.zero_text ∷ [])
    ≡ ok array_wrapper
unfolding new_container wrap new_userdata opt_string describes check_string is_table_array
    array_entries array_item
array_is_wrapped = refl

new_container-IsDescribed_example :
    (v : V) × (more : List V) × ((V.list ∷ V.zero_text ∷ []) ≡ v ∷ more)
    × (is_table_array vm 3 v ≡ some true)
    × (array_wrapper.content ≡ given v)
    × (array_wrapper.type_id ≡ dbus_array_type_id)
    × (opt_string vm bus (λ s. true) 3 more ≡ ok array_wrapper.signature)
    × IsDescribed vm bus (λ s. true) 3 dbus_array_type_id array_wrapper.signature
new_container-IsDescribed_example =
    new_container-IsDescribed vm bus (λ s. true) 3 dbus_array_type_id (is_table_array vm 3)
      (V.list ∷ V.zero_text ∷ []) array_wrapper array_is_wrapped
