-- ===== src/Tests/Events.antt =====
-- A Lua state with a dispatcher, a timer, a watch, a handler and arguments for them, and a table of
-- references that uses free places again, as that of Lua does.
use Prim.Native.String.{String}
use text.Mathlib.Text.{◌==◌ as str_eq}
use l2dbus.Base.{
  ◌==◌, ℕ, suc, zero, ◌≡◌, ◌≢◌, refl, Bool, true, false, Option, none, some, List, [], ◌∷◌,
  if◌then◌else◌, ap,
}
use l2dbus.Base.Int.{ℤ, pos, negsuc}
use l2dbus.Lua.{Lua, LuaType, finite, Block}
use l2dbus.Lua.Refs.{Refs, RefsLaws, no_ref, ref_nil}
use l2dbus.Source.{Sources}
use l2dbus.Timeout.{Timers}
use l2dbus.Watch.{Watches}

pub data V : Type 0 where
  nothing yes_value no_value hundred letters handler token : V
  dispatcher timer watch : V
  meta_dispatcher meta_timer meta_watch : V

abbrev pub event_type : V → LuaType
event_type V.nothing = LuaType.nil
event_type V.yes_value = LuaType.boolean
event_type V.no_value = LuaType.boolean
event_type V.hundred = LuaType.number
event_type V.letters = LuaType.string
event_type V.handler = LuaType.function
event_type V.token = LuaType.string
event_type V.dispatcher = LuaType.userdata
event_type V.timer = LuaType.userdata
event_type V.watch = LuaType.userdata
event_type _ = LuaType.table

abbrev event_address : V → Option ℕ
event_address V.dispatcher = some 1
event_address V.timer = some 2
event_address V.watch = some 3
event_address _ = none

abbrev event_metatable : V → Option V
event_metatable V.dispatcher = some V.meta_dispatcher
event_metatable V.timer = some V.meta_timer
event_metatable V.watch = some V.meta_watch
event_metatable _ = none

abbrev event_registry : String → V
event_registry name =
    if str_eq name "l2dbus.dispatcher"
    then V.meta_dispatcher
    else if str_eq name "l2dbus.timeout"
    then V.meta_timer
    else if str_eq name "l2dbus.watch"
    then V.meta_watch
    else V.nothing

abbrev event_equal : V → V → Bool
event_equal V.meta_dispatcher V.meta_dispatcher = true
event_equal V.meta_timer V.meta_timer = true
event_equal V.meta_watch V.meta_watch = true
event_equal _ _ = false

abbrev event_boolean : V → Bool
event_boolean V.nothing = false
event_boolean V.no_value = false
event_boolean _ = true

abbrev event_is_number : V → Bool
event_is_number V.hundred = true
event_is_number _ = false

abbrev pub events_vm : Lua
events_vm = record {
  Value = V;
  lua_type = event_type;
  is_number = event_is_number;
  to_number = λ v. finite false 100 0;
  to_integer = λ v. pos 100;
  to_boolean = event_boolean;
  to_string = λ v. b'R' ∷ b'x' ∷ b'h' ∷ [];
  entries = λ v. [];
  raw_len = λ v. 0;
  raw_get_i = λ v i. V.nothing;
  raises = λ v f. false;
  sets_einval = true;
  get_field = λ v f. V.nothing;
  touserdata = event_address;
  metatable = event_metatable;
  registry = event_registry;
  raw_equal = event_equal;
  user_value = λ v. V.nothing;
  block = λ a. Block.foreign;
}

module _ {W : Type 0} where
  abbrev insert : W → List (Option W) → List (Option W) × ℕ
  insert x [] = (some x ∷ [], 0)
  insert x (none ∷ t) = (some x ∷ t, 0)
  insert x (some y ∷ t) = let rest = insert x t in (some y ∷ rest.0, suc rest.1)

  abbrev entry : List (Option W) → ℕ → Option W
  entry [] i = none
  entry (x ∷ t) zero = x
  entry (x ∷ t) (suc i) = entry t i

  abbrev erase : List (Option W) → ℕ → List (Option W)
  erase [] i = []
  erase (x ∷ t) zero = none ∷ t
  erase (x ∷ t) (suc i) = x ∷ erase t i

abbrev place_of : {W : Type 0} → List (Option W) → Option W → List (Option W) × ℤ
place_of t none = (t, ref_nil)
place_of t (some x) = let rest = insert x t in (rest.0, pos rest.1)

abbrev value_at : {W : Type 0} → List (Option W) → ℤ → Option W
value_at t (pos i) = entry t i
value_at t (negsuc n) = none

abbrev without : {W : Type 0} → List (Option W) → ℤ → List (Option W)
without t (pos i) = erase t i
without t (negsuc n) = t

abbrev pub places : {W : Type 0} → Refs W
places {W} = record {
  Table = List (Option W);
  take = place_of;
  release = without;
  anchored = value_at;
  IsSound = λ t. Unit {0};
}

module _ {W : Type 0} where
  entry-insert : (x : W) (t : List (Option W)) → entry (insert x t).0 (insert x t).1 ≡ some x
  entry-insert x [] = refl
  entry-insert x (none ∷ t) = refl
  entry-insert x (some y ∷ t) = entry-insert x t

  entry_free : (x : W) (t : List (Option W)) → entry t (insert x t).1 ≡ none
  entry_free x [] = refl
  entry_free x (none ∷ t) = refl
  entry_free x (some y ∷ t) = entry_free x t

  entry-insert_other :
      (x : W) (t : List (Option W)) (i : ℕ)
      → i ≢ (insert x t).1
      → entry (insert x t).0 i ≡ entry t i
  entry-insert_other x [] zero ne = absurd (ne refl)
  entry-insert_other x [] (suc i) ne = refl
  entry-insert_other x (none ∷ t) zero ne = absurd (ne refl)
  entry-insert_other x (none ∷ t) (suc i) ne = refl
  entry-insert_other x (some y ∷ t) zero ne = refl
  entry-insert_other x (some y ∷ t) (suc i) ne = entry-insert_other x t i (λ e. ne (ap suc e))

  entry-erase : (t : List (Option W)) (i : ℕ) → entry (erase t i) i ≡ none
  entry-erase [] i = refl
  entry-erase (x ∷ t) zero = refl
  entry-erase (x ∷ t) (suc i) = entry-erase t i

  entry-erase_other : (t : List (Option W)) (i j : ℕ) → j ≢ i → entry (erase t i) j ≡ entry t j
  entry-erase_other [] i j ne = refl
  entry-erase_other (x ∷ t) zero zero ne = absurd (ne refl)
  entry-erase_other (x ∷ t) zero (suc j) ne = refl
  entry-erase_other (x ∷ t) (suc i) zero ne = refl
  entry-erase_other (x ∷ t) (suc i) (suc j) ne = entry-erase_other t i j (λ e. ne (ap suc e))

  value_at-other :
      (t : List (Option W)) (v : Option W) (r : ℤ)
      → r ≢ (place_of t v).1
      → value_at (place_of t v).0 r ≡ value_at t r
  value_at-other t none r ne = refl
  value_at-other t (some x) (pos i) ne = entry-insert_other x t i (λ e. ne (ap pos e))
  value_at-other t (some x) (negsuc n) ne = refl

  value_at-without :
      (t : List (Option W)) (r r' : ℤ) → r' ≢ r → value_at (without t r) r' ≡ value_at t r'
  value_at-without t (pos i) (pos j) ne = entry-erase_other t i j (λ e. ne (ap pos e))
  value_at-without t (pos i) (negsuc j) ne = refl
  value_at-without t (negsuc i) (pos j) ne = refl
  value_at-without t (negsuc i) (negsuc j) ne = refl

  pub places-RefsLaws : RefsLaws W places
  places-RefsLaws = record {
    take-ne_no_ref = λ t. elim [
      | none ↦ λ sound e. absurd (ref_nil-ne_no_ref e)
      | some x ↦ λ sound e. absurd (pos-ne_no_ref _ e)
    ];
    take-IsSound = λ t v sound. tt;
    release-IsSound = λ t r held sound. tt;
    take_fresh = λ t. elim [ none ↦ λ sound. refl | some x ↦ λ sound. entry_free x t ];
    anchored-take = λ t. elim [ none ↦ refl | some x ↦ entry-insert x t ];
    anchored-take_other = value_at-other;
    anchored-release = λ t. elim [ pos i ↦ entry-erase t i | negsuc n ↦ refl ];
    anchored-release_other = value_at-without;
    anchored-no_ref = λ t. refl;
    take-nil = λ t. refl;
    anchored-ref_nil = λ t. refl;
  }
    where
      ref_nil-ne_no_ref : ref_nil ≢ no_ref
      ref_nil-ne_no_ref e = cc e

      pos-ne_no_ref : (n : ℕ) → pos n ≢ no_ref
      pos-ne_no_ref n e = cc e

-- Whether each source is enabled: those of libcdbus are numbered in the order of their creation.
abbrev pub World : Type 0
World = ℕ × (ℕ → Bool)

abbrev pub event_sources : Sources
event_sources = record {
  World = World;
  is_enabled = λ w h. w.1 h;
  enable = λ w h b. ((w.0, λ g. if g == h then b else w.1 g), true);
  unref = λ w h. w;
}

abbrev pub timers : Timers
timers = record {
  sources = event_sources;
  timer_new = λ w d msec again. ((suc w.0, w.1), some w.0);
  interval = λ w h. pos 100;
  set_interval = λ w h msec. (w, true);
  repeats = λ w h. false;
  set_repeats = λ w h again. w;
}

abbrev pub watches : Watches
watches = record {
  sources = event_sources;
  stream = λ p. none;
  watch_new = λ w d fd mask. ((suc w.0, w.1), some w.0);
  descriptor = λ w h. pos 5;
  flags = λ w h. 1;
  set_flags = λ w h mask. (w, true);
}
