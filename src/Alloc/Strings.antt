-- ===== src/Alloc/Strings.antt =====
-- The freeing of an array of strings (src/l2dbus_alloc.c).
use l2dbus.Alloc.{Memory, MemoryLaws, dbus_free, free_strings, free_string_array}
use l2dbus.Base.{ℕ, suc, ◌≡◌, refl, true, false, Option, some, undefined, Fault}

module _ (M : Memory) (laws : MemoryLaws M) where
  free_strings-live :
      (fuel p : ℕ) (strings : ℕ → Option ℕ) (h : M.Heap)
      → strings 0 ≡ some p
      → M.live h p ≡ true
      → free_strings M (suc fuel) strings h ≡ free_strings M fuel strings (M.free h p)
  unfolding free_strings dbus_free
  free_strings-live fuel p strings h e live = rw (free_strings, e, live) refl

  free_strings-dead :
      (fuel p : ℕ) (strings : ℕ → Option ℕ) (h : M.Heap)
      → strings 0 ≡ some p
      → M.live h p ≡ false
      → free_strings M (suc fuel) strings h ≡ undefined Fault.double_free
  unfolding free_strings dbus_free
  free_strings-dead fuel p strings h e dead = rw (free_strings, e, dead) refl

  -- An array with a string is not freed: the loop does not go on to the next string, and frees the first one a
  -- second time.
  pub free_string_array-twice :
      (fuel array p : ℕ) (strings : ℕ → Option ℕ) (h : M.Heap)
      → strings 0 ≡ some p
      → M.live h p ≡ true
      → free_string_array M (suc (suc fuel)) (some (array, strings)) h ≡ undefined Fault.double_free
  unfolding free_string_array
  free_string_array-twice fuel array p strings h e live =
      rw (free_strings-live (suc fuel) p strings h e live)
        (rw (free_strings-dead fuel p strings (M.free h p) e (laws.live-free h p)) refl)
