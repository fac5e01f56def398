-- ===== src/Lua/Laws.antt =====
-- What the modelled code relies on the Lua C API for, as the Lua reference manual documents it.
use l2dbus.Base.{ℕ, ◌<◌, ◌≡◌, ◌⊎◌, true, All}
use l2dbus.Base.Int.{ℤ}
use l2dbus.C.Words.{fits, u64_mod}
use l2dbus.Lua.{Lua, LuaType, Block}

-- `lua_isnumber` holds of numbers and of strings that convert to one, and of nothing else.
abbrev pub NumberLike : Lua → Type 0
NumberLike L =
    (v : L.Value)
    → L.is_number v ≡ true
    → (L.lua_type v ≡ LuaType.number) ⊎ (L.lua_type v ≡ LuaType.string)

-- A bound on how deep the tables reached from a value nest. There is none for a table that holds
-- itself.
abbrev pub HasDepth : (L : Lua) → (L.Value → ℕ) → Type 0
HasDepth L depth =
    (t : L.Value) → All (λ (e : L.Value × L.Value). depth (e.1) < depth t) (L.entries t)

-- A boxed integer is a machine word: what an `int64_t` or a `uint64_t` in memory can hold.
abbrev pub HoldsWords : Lua → Type 0
HoldsWords L =
    ((p : ℕ) (z : ℤ) → L.block p ≡ Block.int64 z → fits z ≡ true)
    × ((p n : ℕ) → L.block p ≡ Block.uint64 n → n < u64_mod)
