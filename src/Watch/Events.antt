-- ===== src/Watch/Events.antt =====
-- The events that a text asks for (src/l2dbus_watch.c).
use l2dbus.Base.{
  arith, ℕ, ◌≡◌, refl, ap, ◌∙◌, ◌+◌, ◌==◌, Option, none, some, [], ◌∷◌, Bool, true, false, ◌||◌,
  if◌then◌else◌, ok, lua_error, Error,
}
use l2dbus.Lua.{Lua, LuaType, Bytes}
use l2dbus.Watch.{
  WatchEvent, watch_make_ev_table, watch_parse_events, scan_events, with_flag, letter, has_any,
  has_flag, note,
}

abbrev pub is_letter : (lower upper c : ℕ) → Bool
is_letter lower upper c = c == lower || c == upper

-- The text has one of two letters.
abbrev pub mentions : (lower upper : ℕ) → Bytes → Bool
mentions lower upper [] = false
mentions lower upper (c ∷ cs) = is_letter lower upper c || mentions lower upper cs

abbrev pub bit : Bool → ℕ → ℕ
bit true n = n
bit false n = 0

abbrev pub mask : (r w e h : Bool) → ℕ
mask r w e h = bit r 1 + bit w 2 + bit e 4 + bit h 8

with_read : (r w e h : Bool) → with_flag (mask r w e h) WatchEvent.read ≡ mask true w e h
with_read r w e h = ground arith

with_write : (r w e h : Bool) → with_flag (mask r w e h) WatchEvent.write ≡ mask r true e h
with_write r w e h = ground arith

with_error : (r w e h : Bool) → with_flag (mask r w e h) WatchEvent.error ≡ mask r w true h
with_error r w e h = ground arith

with_hangup : (r w e h : Bool) → with_flag (mask r w e h) WatchEvent.hangup ≡ mask r w e true
with_hangup r w e h = ground arith

abbrev by_case : ℕ → Option WatchEvent
by_case c =
    if is_letter b'r' b'R' c
    then some WatchEvent.read
    else if is_letter b'w' b'W' c
    then some WatchEvent.write
    else if is_letter b'e' b'E' c
    then some WatchEvent.error
    else if is_letter b'h' b'H' c
    then some WatchEvent.hangup
    else none

letter-eq : (c : ℕ) → letter c ≡ by_case c
letter-eq c = ground arith

-- The mask of the letters of a text.
abbrev pub mask_of : Bytes → ℕ
mask_of s =
    mask (mentions b'r' b'R' s) (mentions b'w' b'W' s) (mentions b'e' b'E' s) (mentions b'h' b'H' s)

scan_events-mask : (s : Bytes) → scan_events s ≡ mask_of s
unfolding scan_events
scan_events-mask [] = refl
scan_events-mask (c ∷ cs) =
    ap (note (letter c)) (scan_events-mask cs)
    ∙ ap (λ l. note l (mask_of cs)) (letter-eq c)
    ∙ one c _ _ _ _
  where
    one :
        (c : ℕ) (r w e h : Bool)
        → note (by_case c) (mask r w e h)
          ≡ mask
              (is_letter b'r' b'R' c || r)
              (is_letter b'w' b'W' c || w)
              (is_letter b'e' b'E' c || e)
              (is_letter b'h' b'H' c || h)
    one c r w e h =
        ground
          (arith, with_read r w e h, with_write r w e h, with_error r w e h, with_hangup r w e h)

has_read-mask : (r w e h : Bool) → has_flag (mask r w e h) WatchEvent.read ≡ r
has_read-mask r w e h = ground arith

has_write-mask : (r w e h : Bool) → has_flag (mask r w e h) WatchEvent.write ≡ w
has_write-mask r w e h = ground arith

has_error-mask : (r w e h : Bool) → has_flag (mask r w e h) WatchEvent.error ≡ e
has_error-mask r w e h = ground arith

has_hangup-mask : (r w e h : Bool) → has_flag (mask r w e h) WatchEvent.hangup ≡ h
has_hangup-mask r w e h = ground arith

make_ev_table-mask :
    (r w e h : Bool)
    → watch_make_ev_table (mask r w e h)
      ≡ record { ev_mask = mask r w e h; is_read = r; is_write = w; is_error = e; is_hangup = h }
unfolding watch_make_ev_table
make_ev_table-mask r w e h =
    rw
      (
        has_read-mask r w e h,
        has_write-mask r w e h,
        has_error-mask r w e h,
        has_hangup-mask r w e h,
      )
      refl

has_any-mask : (r w e h : Bool) → has_any (mask r w e h) ≡ r || w || e || h
has_any-mask r w e h =
    rw
      (
        has_read-mask r w e h,
        has_write-mask r w e h,
        has_error-mask r w e h,
        has_hangup-mask r w e h,
      )
      refl

module _ (L : Lua) where
  -- A text asks for the events whose letters it has, in either case; the table that is made of them says
  -- so of each. A text with none of the letters is refused.
  pub watch_parse_events-text :
      (v : L.Value)
      → L.lua_type v ≡ LuaType.string
      → let s = L.to_string v in
        let r = mentions b'r' b'R' s in
        let w = mentions b'w' b'W' s in
        let e = mentions b'e' b'E' s in
        let h = mentions b'h' b'H' s in
        (watch_parse_events L v
          ≡ (if r || w || e || h then ok (mask r w e h) else lua_error Error.no_events))
        × (watch_make_ev_table (mask r w e h) ≡ record {
          ev_mask = mask r w e h;
          is_read = r;
          is_write = w;
          is_error = e;
          is_hangup = h;
        })
  unfolding watch_parse_events
  watch_parse_events-text v t = (
    rw (watch_parse_events, t, scan_events-mask (L.to_string v), has_any-mask) refl,
    make_ev_table-mask _ _ _ _,
  )
