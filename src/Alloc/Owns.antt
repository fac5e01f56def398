-- ===== src/Alloc/Owns.antt =====
-- Which memory a part of the program is answerable for (src/l2dbus_alloc.c): the blocks that it has
-- allocated and not yet freed, with their number, so that none is freed twice.
use l2dbus.Alloc.{
  Memory, MemoryLaws, one_of, count_live, dbus_alloc, dbus_free, str_dup, address_of, text_at,
}
use l2dbus.Base.{
  ℕ, ◌+◌, ◌≡◌, refl, true, Bool-cases, ==_iff, inl, inr, Option, none, some, ok, arith, ◌==◌,
  length,
}
use l2dbus.Lua.{Bytes}

-- Beside what was allocated in `h₀`, the blocks of `g` are, each as often as `g` says.
abbrev pub Owns : (M : Memory) → (h₀ h : M.Heap) → (ℕ → ℕ) → Type 0
Owns M h₀ h g = (a : ℕ) → count_live (M.live h a) ≡ g a + count_live (M.live h₀ a)

module _ (M : Memory) (laws : MemoryLaws M) (h₀ : M.Heap) where
  open M use {Heap, alloc, free, live}

  pub Owns-alloc :
      (size : ℕ) (h : Heap) (g : ℕ → ℕ)
      → Owns M h₀ h g
      → Owns M h₀ (alloc h size).0 (λ a. one_of (alloc h size).1 a + g a)
  Owns-alloc size h g o a = omega (arith, laws.live-alloc h size a, o a)

  address_of-text_at : (s : Bytes) (p : Option ℕ) → address_of (text_at s p) ≡ p
  address_of-text_at s none = refl
  address_of-text_at s (some a) = refl

  pub Owns-str_dup :
      (s : Bytes) (h : Heap) (g : ℕ → ℕ)
      → Owns M h₀ h g
      → Owns M h₀ (str_dup M s h).0 (λ a. one_of (address_of (str_dup M s h).1) a + g a)
  unfolding str_dup dbus_alloc
  Owns-str_dup s h g o a =
      rw (address_of-text_at s (alloc h (length s + 1)).1) (Owns-alloc (length s + 1) h g o a)

  -- A block that is owned can be freed.
  pub Owns-free :
      (p : Option ℕ) (h : Heap) (g : ℕ → ℕ)
      → Owns M h₀ h (λ a. one_of p a + g a)
      → (h' : Heap) × (dbus_free M p h ≡ ok h') × Owns M h₀ h' g
  unfolding dbus_free
  Owns-free none h g o = (h, refl, λ a. omega (arith, o a))
  Owns-free (some p) h g o = (free h p, ground (arith, o p), λ a. freed a)
    where
      freed : (a : ℕ) → count_live (live (free h p) a) ≡ g a + count_live (live h₀ a)
      freed a = elim (Bool-cases (a == p)) [
        | inl same ↦ rw ((==_iff a p).0 same) (rw (laws.live-free h p) (ground (arith, o p)))
        | inr other ↦
            rw
              (laws.live-free_other h p a
                (λ e. let same : (a == p) ≡ true = (==_iff a p).1 e in cc (same, other)))
              (ground (arith, o a))
      ]
