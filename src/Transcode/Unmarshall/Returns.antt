-- ===== src/Transcode/Unmarshall/Returns.antt =====
-- What `l2dbus_transcodeDbusArgsToLua` of src/l2dbus_transcode.c returns.
use l2dbus.Base.{
  ℕ, ◌≡◌, ap, ◌∙◌, refl, arith, Bool, true, false, some, List, [], ◌∷◌, length, All, Result, ok,
  lua_error, undefined, out_of_fuel, ◌>>=◌, >>=-eq-ok,
}
use l2dbus.Transcode.Message.{Item, Items, item}
use l2dbus.Transcode.Unmarshall.{
  Term, Fields, empty_array, dbus_args_to_lua_array, is_nil, push_elements, Array, dbus_args_to_lua,
}
use l2dbus.Transcode.Unmarshall.Sequence.{
  sequence, push_all-sequence, elements_from-sequence, fields_count-sequence, border-sequence,
}
use l2dbus.Transcode.Unmarshall.Spec.{
  term_of, terms_of, fields_of, AllWellFormed, all_pushed, unmarshall_items-all,
}

-- An argument stands for a value, which is not nil.
term_of-not_nil : (i : Item) (t : Term) → term_of i ≡ ok t → is_nil t ≡ false
unfolding term_of
term_of-not_nil (Item.array s is) t h =
    let (ts, _, last) = >>=-eq-ok (terms_of is) _ h in
    let same : Term.table (sequence 1 ts) ≡ t = cc in rw (← same) refl
term_of-not_nil (Item.struct is) t h =
    let (ts, _, last) = >>=-eq-ok (terms_of is) _ h in
    let same : Term.table (sequence 1 ts) ≡ t = cc in rw (← same) refl
term_of-not_nil (Item.dict k w is) t h =
    let (fs, _, last) = >>=-eq-ok (fields_of is Fields.empty) _ h in
    let same : Term.table fs ≡ t = cc in rw (← same) refl
term_of-not_nil (Item.variant s i) t h = term_of-not_nil i t h
term_of-not_nil (Item.dict_entry i j) t h = absurd (cc)
term_of-not_nil _ t h = ground arith

terms_of-not_nil :
    (is : Items) (ts : List Term) → terms_of is ≡ ok ts → All (λ t. is_nil t ≡ false) ts
unfolding term_of
terms_of-not_nil Items.end ts h = let same : [] ≡ ts = cc in rw (← same) tt
terms_of-not_nil (item i is) ts h =
    let (t, first, h') = >>=-eq-ok (term_of i) _ h in
    let (ts', others, last) = >>=-eq-ok (terms_of is) _ h' in
    let same : t ∷ ts' ≡ ts = cc in
    rw (← same) (term_of-not_nil i t first, terms_of-not_nil is ts' others)

module _ (check_stack : ℕ → Bool) (room : (n : ℕ) → check_stack n ≡ true) where
  push_elements-sequence :
      (ts : List Term)
      → All (λ t. is_nil t ≡ false) ts
      → push_elements check_stack (sequence 1 ts) ≡ ok ts
  unfolding push_elements
  push_elements-sequence ts filled =
      rw
        (
          fields_count-sequence 1 ts,
          border-sequence 1 ts filled,
          room (length ts),
          elements_from-sequence 1 ts,
        )
        refl

  push_elements-pushed :
      (r : Result (List Term))
      → ((ts : List Term) → r ≡ ok ts → All (λ t. is_nil t ≡ false) ts)
      → (all_pushed r empty_array >>= λ (a : Array). ok (a.0)) >>= push_elements check_stack ≡ r
  push_elements-pushed (ok ts) filled =
      ap (push_elements check_stack) (push_all-sequence ts)
      ∙ push_elements-sequence ts (filled ts refl)
  push_elements-pushed (lua_error e) filled = refl
  push_elements-pushed (undefined u) filled = refl
  push_elements-pushed out_of_fuel filled = refl

-- Where the Lua stack has room and every dictionary entry of the message stands in a dictionary: the
-- call returns one value for each argument of the message, in their order, and each is what the
-- argument stands for; it raises an error exactly where an argument stands for none, as a dictionary
-- with the key NaN does.
pub dbus_args_to_lua-terms_of :
    (check_stack : ℕ → Bool) (is : Items)
    → ((n : ℕ) → check_stack n ≡ true)
    → AllWellFormed is
    → dbus_args_to_lua check_stack (some is) ≡ terms_of is
unfolding dbus_args_to_lua dbus_args_to_lua_array
dbus_args_to_lua-terms_of check_stack is room well =
    ap (λ r. (r >>= λ (a : Array). ok (a.0)) >>= push_elements check_stack)
      (unmarshall_items-all is well empty_array)
    ∙ push_elements-pushed check_stack room (terms_of is) (terms_of-not_nil is)
