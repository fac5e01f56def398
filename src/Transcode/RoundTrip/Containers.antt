-- ===== src/Transcode/RoundTrip/Containers.antt =====
-- The arrays and structures that src/l2dbus_transcode.c sends and returns without a
-- loss.
use l2dbus.Base.{ℕ, ◌+◌, ◌≡◌, refl, none, List, [], ◌∷◌, length, Result, ok, ◌>>=◌}
use l2dbus.Boxed.{check_type}
use l2dbus.Dbus.{DbusType}
use l2dbus.Lua.{Lua, LuaType}
use l2dbus.Transcode.Marshall.{
  Buffers, Append, unwrapping, unwrapped, opened, closed, elements, marshall_array,
  marshall_unwrapped, marshall_fields,
}
use l2dbus.Transcode.Message.{Sig, Sigs, followed, Item, Items, item, Library}
use l2dbus.Transcode.RoundTrip.{Accepting, ReadEach, Reads, ReadFields}
use l2dbus.Transcode.RoundTrip.Basic.{
  Sends, marshall_byte-Sends, marshall_boolean-Sends, marshall_int16-Sends, marshall_uint16-Sends,
  marshall_int32-Sends, marshall_uint32-Sends, marshall_double-Sends, marshall_string-Sends,
  marshall_object_path-Sends, marshall_signature-Sends,
}
use l2dbus.Transcode.Signature.{StringBuffer}
use l2dbus.Transcode.Unmarshall.{Term}
use l2dbus.Transcode.Unmarshall.Spec.{term_of, terms_of, WellFormed, AllWellFormed}

module _ (L : Lua) (S : StringBuffer) (P : Buffers S) (B : Library) (fuel : ℕ)
    (accepting : Accepting B) where
  open L use {Value, lua_type, raw_len, raw_get_i}

  -- Several arguments that stand for several values.
  abbrev pub SendsAll : Result Items → List Term → Type 0
  SendsAll call ts = (is : Items) × (call ≡ ok is) × (terms_of is ≡ ok ts) × AllWellFormed is

  -- The argument of a first call in front of those of the rest.
  pub Sends-cons :
      (first : Result Item) (rest : Result Items) (t : Term) (ts : List Term)
      → Sends L B accepting first t
      → SendsAll rest ts
      → SendsAll (first >>= λ i. rest >>= λ is. ok (item i is)) (t ∷ ts)
  unfolding term_of WellFormed
  Sends-cons first rest t ts (i, sent, stands, well) (is, sent', stands', well') =
      (item i is, rw (sent, sent') refl, rw (stands, stands') refl, (well, well'))

  -- A value that is no userdata wraps nothing.
  Reads-unwrapped :
      (s : Sig) (v : Value) (t : Term) → Reads L B s v t → unwrapped L S P B fuel v ≡ ok (none, v)
  unfolding unwrapped Reads
  Reads-unwrapped Sig.boolean v t h = rw (h.0, unwrapped) refl
  Reads-unwrapped Sig.byte v t h = rw (h.0, unwrapped) refl
  Reads-unwrapped Sig.uint16 v t h = rw (h.0, unwrapped) refl
  Reads-unwrapped Sig.uint32 v t h = rw (h.0, unwrapped) refl
  Reads-unwrapped Sig.int16 v t h = rw (h.0, unwrapped) refl
  Reads-unwrapped Sig.int32 v t h = rw (h.0, unwrapped) refl
  Reads-unwrapped Sig.double v t h = rw (h.0, unwrapped) refl
  Reads-unwrapped Sig.string v t h = rw (h.0, unwrapped) refl
  Reads-unwrapped Sig.object_path v t h = rw (h.0, unwrapped) refl
  Reads-unwrapped Sig.signature v t h = rw (h.0, unwrapped) refl
  Reads-unwrapped (Sig.array s) v t h = rw (h.0, unwrapped) refl
  Reads-unwrapped (Sig.struct ss) v t h = rw (h.0, unwrapped) refl
  Reads-unwrapped _ v t h = absurd h

  opened-ok : (t : DbusType) → opened L S P B fuel t ≡ ok tt
  unfolding opened
  opened-ok t = rw (accepting.opens t) refl

  closed-ok : (t : DbusType) (i : Item) → closed L S P B fuel t i ≡ ok i
  unfolding closed
  closed-ok t i = rw (accepting.closes t) refl

  check_type-ok : (v : Value) → lua_type v ≡ LuaType.table → check_type L v LuaType.table ≡ ok tt
  unfolding check_type
  check_type-ok v e = rw e refl

  -- Every element that an array appends.
  elements-SendsAll :
      (one : Append L S P B fuel) (R : Value → Term → Type 0)
      → ((v : Value) (t : Term) → R v t → Sends L B accepting (one v) t)
      → (u : Value) (idx : ℕ) (ts : List Term) → ReadEach L B R u idx ts
      → SendsAll (elements L S P B fuel one u (length ts) idx) ts
  unfolding elements term_of WellFormed
  elements-SendsAll one R sends u idx [] h = (Items.end, refl, refl, tt)
  elements-SendsAll one R sends u idx (t ∷ ts) (h, hs) =
      Sends-cons (one (raw_get_i u idx)) (elements L S P B fuel one u (length ts) (idx + 1)) t ts
        (sends (raw_get_i u idx) t h) (elements-SendsAll one R sends u (idx + 1) ts hs)

  module _ (deep : Sig → Append L S P B fuel) where
    -- A value by its own type.
    pub unwrapping-Sends :
        (s : Sig)
        → ((v : Value) (t : Term)
            → Reads L B s v t
            → Sends L B accepting (marshall_unwrapped L S P B fuel deep s (none, v)) t)
        → (v : Value) (t : Term) → Reads L B s v t
        → Sends L B accepting (unwrapping L S P B fuel (marshall_unwrapped L S P B fuel deep s) v) t
    unwrapping-Sends s sends v t h = rw (Reads-unwrapped s v t h) (sends v t h)

    mutual
      unfolding marshall_unwrapped marshall_array Reads term_of WellFormed

      pub marshall_unwrapped-Sends :
          (s : Sig) (v : Value) (t : Term)
          → Reads L B s v t
          → Sends L B accepting (marshall_unwrapped L S P B fuel deep s (none, v)) t
      marshall_unwrapped-Sends Sig.byte v t h = marshall_byte-Sends L B accepting v t h
      marshall_unwrapped-Sends Sig.boolean v t h =
          marshall_boolean-Sends L B accepting v t (h.0) (h.1)
      marshall_unwrapped-Sends Sig.int16 v t h = marshall_int16-Sends L B accepting v t h
      marshall_unwrapped-Sends Sig.uint16 v t h = marshall_uint16-Sends L B accepting v t h
      marshall_unwrapped-Sends Sig.int32 v t h = marshall_int32-Sends L B accepting v t h
      marshall_unwrapped-Sends Sig.uint32 v t h = marshall_uint32-Sends L B accepting v t h
      marshall_unwrapped-Sends Sig.double v t (_, is, same) =
          marshall_double-Sends L B accepting v t is same
      marshall_unwrapped-Sends Sig.string v t h = marshall_string-Sends L B accepting v t h
      marshall_unwrapped-Sends Sig.object_path v t h =
          marshall_object_path-Sends L B accepting v t h
      marshall_unwrapped-Sends Sig.signature v t h = marshall_signature-Sends L B accepting v t h
      marshall_unwrapped-Sends Sig.unix_fd v t h = absurd h
      marshall_unwrapped-Sends (Sig.array s) v t (is_table, ts, same, count, each) =
          let one = unwrapping L S P B fuel (marshall_unwrapped L S P B fuel deep s) in
          let (is, sent, stands, well) =
            elements-SendsAll one (Reads L B s) (unwrapping-Sends s (marshall_unwrapped-Sends s)) v
              1 ts each in
          (
            Item.array s is,
            rw (check_type-ok v is_table, opened-ok DbusType.array, count, sent)
                (closed-ok DbusType.array (Item.array s is)),
            rw (stands, same) refl,
            well,
          )
      marshall_unwrapped-Sends (Sig.struct ss) v t (is_table, ts, same, count, each) =
          let (is, sent, stands, well) = marshall_fields-SendsAll ss v 1 ts each in
          (
            Item.struct is,
            rw (check_type-ok v is_table, opened-ok DbusType.struct, count, sent)
                (closed-ok DbusType.struct (Item.struct is)),
            rw (stands, same) refl,
            well,
          )
      marshall_unwrapped-Sends _ v t h = absurd h

      marshall_fields-SendsAll :
          (ss : Sigs) (u : Value) (idx : ℕ) (ts : List Term)
          → ReadFields L B ss u idx ts
          → SendsAll (marshall_fields L S P B fuel deep ss u (length ts) idx) ts
      marshall_fields-SendsAll Sigs.end u idx [] h = (Items.end, refl, refl, tt)
      marshall_fields-SendsAll Sigs.end u idx (t ∷ ts) h = absurd h
      marshall_fields-SendsAll (followed s ss) u idx [] h = absurd h
      marshall_fields-SendsAll (followed s ss) u idx (t ∷ ts) (h, hs) =
          Sends-cons
            (unwrapping L S P B fuel (marshall_unwrapped L S P B fuel deep s) (raw_get_i u idx))
            (marshall_fields L S P B fuel deep ss u (length ts) (idx + 1)) t ts
            (unwrapping-Sends s (marshall_unwrapped-Sends s) (raw_get_i u idx) t h)
            (marshall_fields-SendsAll ss u (idx + 1) ts hs)
