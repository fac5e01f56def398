-- ===== src/Lua/Refs.antt =====
-- The references of the Lua registry: luaL_ref, luaL_unref and lua_rawgeti, seen as a table of what
-- the references anchor. The functions belong to the Lua C API and are a parameter, with what the Lua
-- reference manual documents of them in `RefsLaws`.
use l2dbus.Base.{Option, none, ◌≡◌, ◌≢◌, ◌⊎◌}
use l2dbus.Base.Int.{ℤ, negsuc}

-- `LUA_NOREF`
abbrev pub no_ref : ℤ
no_ref = negsuc 1

-- `LUA_REFNIL`
abbrev pub ref_nil : ℤ
ref_nil = negsuc 0

-- A value that is nil is `none`.
pub record Refs (V : Type 0) : Type 1 where
  pub Table : Type 0
  pub take : Table → Option V → Table × ℤ
  pub release : Table → ℤ → Table
  pub anchored : Table → ℤ → Option V
  -- no reference has been given back that was not in use, so the list of free ones has none twice
  pub IsSound : Table → Type 0

-- A reference that may be given back: one in use, or one that luaL_unref ignores.
abbrev pub IsHeld : {V : Type 0} (R : Refs V) → R.Table → ℤ → Type 0
IsHeld R t r = (R.anchored t r ≢ none) ⊎ ((r ≡ no_ref) ⊎ (r ≡ ref_nil))

-- After a reference was given back twice luaL_ref may hand it out twice: what is said of fresh references
-- holds of sound tables only.
pub record RefsLaws (V : Type 0) (R : Refs V) : Type 0 where
  pub take-ne_no_ref : (t : R.Table) (v : Option V) → R.IsSound t → (R.take t v).1 ≢ no_ref
  -- a reference that is handed out anchors nothing before, and its value afterwards
  pub take-IsSound : (t : R.Table) (v : Option V) → R.IsSound t → R.IsSound (R.take t v).0
  pub release-IsSound :
      (t : R.Table) (r : ℤ) → IsHeld R t r → R.IsSound t → R.IsSound (R.release t r)
  pub take_fresh : (t : R.Table) (v : Option V) → R.IsSound t → R.anchored t (R.take t v).1 ≡ none
  pub anchored-take : (t : R.Table) (v : Option V) → R.anchored (R.take t v).0 (R.take t v).1 ≡ v
  pub anchored-take_other :
      (t : R.Table) (v : Option V) (r : ℤ)
      → r ≢ (R.take t v).1
      → R.anchored (R.take t v).0 r ≡ R.anchored t r
  pub anchored-release : (t : R.Table) (r : ℤ) → R.anchored (R.release t r) r ≡ none
  pub anchored-release_other :
      (t : R.Table) (r r' : ℤ) → r' ≢ r → R.anchored (R.release t r) r' ≡ R.anchored t r'
  pub anchored-no_ref : (t : R.Table) → R.anchored t no_ref ≡ none
  -- nil always gets the same reference, which anchors nothing
  pub take-nil : (t : R.Table) → R.take t none ≡ (t, ref_nil)
  pub anchored-ref_nil : (t : R.Table) → R.anchored t ref_nil ≡ none
