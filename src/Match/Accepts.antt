-- ===== src/Match/Accepts.antt =====
-- Which filters a rule may have (src/l2dbus_match.c).
use l2dbus.Alloc.{Memory}
use l2dbus.Base.{ℕ, ◌+◌, ◌<◌, ◌≡◌, Bool, true, false, ◌||◌, ◌&&◌, [], ◌∷◌, ◌⊎◌, inl, inr}
use l2dbus.Base.Int.{ℤ, pos, leb_ℤ}
use l2dbus.Lua.{Lua, LuaType}
use l2dbus.Match.Rule.{FilterArg, Reason, max_arg_number, same_text, is_string}

module _ (L : Lua) (M : Memory) (to_arg_n : ℤ → ℤ) where
  open L use {Value, lua_type, is_number, to_integer, to_string, get_field, raw_get_i}
  open M use {Heap}

  abbrev is_table : LuaType → Bool
  is_table LuaType.table = true
  is_table _ = false

  abbrev is_type : Value → Bool
  is_type v = elim (lua_type v) [
    | LuaType.nil ↦ true
    | LuaType.string ↦
        same_text (to_string v) (b's' ∷ b't' ∷ b'r' ∷ b'i' ∷ b'n' ∷ b'g' ∷ [])
        || same_text (to_string v) (b'p' ∷ b'a' ∷ b't' ∷ b'h' ∷ [])
    | LuaType.number ↦
        same_text (to_string v) (b's' ∷ b't' ∷ b'r' ∷ b'i' ∷ b'n' ∷ b'g' ∷ [])
        || same_text (to_string v) (b'p' ∷ b'a' ∷ b't' ∷ b'h' ∷ [])
    | _ ↦ false
  ]

  -- A table with a type that is "string" or "path" or left out, the index of an argument from 0 to 63, and a
  -- value that is a text.
  abbrev pub is_filter_table : Value → Bool
  is_filter_table item =
      is_table (lua_type item)
      && is_type (get_field item "type")
      && is_number (get_field item "index")
      && leb_ℤ (pos 0) (to_arg_n (to_integer (get_field item "index")))
      && leb_ℤ (to_arg_n (to_integer (get_field item "index"))) (pos max_arg_number)
      && is_string L M (get_field item "value")

  abbrev is_read : Reason ⊎ FilterArg → Bool
  is_read (inl reason) = false
  is_read (inr item) = true

  abbrev AllFilters : (left idx : ℕ) → Value → Type 0
  AllFilters left idx array =
      (i : ℕ) → i < left → is_filter_table (raw_get_i array (idx + i + 1)) ≡ true
