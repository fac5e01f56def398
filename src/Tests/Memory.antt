-- ===== src/Tests/Memory.antt =====
-- A memory whose blocks are numbered in the order of their allocation, and that never fails.
use l2dbus.Alloc.{Memory, MemoryLaws, one, count_live}
use l2dbus.Base.{
  ℕ, suc, zero, ◌+◌, ◌≡◌, ◌≢◌, refl, ap, arith, Bool, true, false, some, List, [], ◌∷◌,
}

abbrev push : List Bool → List Bool × ℕ
push [] = (true ∷ [], 0)
push (b ∷ h) = let rest = push h in (b ∷ rest.0, suc rest.1)

abbrev is_live : List Bool → ℕ → Bool
is_live [] a = false
is_live (b ∷ h) zero = b
is_live (b ∷ h) (suc a) = is_live h a

abbrev clear : List Bool → ℕ → List Bool
clear [] a = []
clear (b ∷ h) zero = false ∷ h
clear (b ∷ h) (suc a) = b ∷ clear h a

abbrev pub blocks : Memory
blocks = record {
  Heap = List Bool;
  alloc = λ h size. ((push h).0, some (push h).1);
  free = clear;
  live = is_live;
}

is_live-push :
    (h : List Bool) (a : ℕ)
    → count_live (is_live (push h).0 a) ≡ one (push h).1 a + count_live (is_live h a)
is_live-push [] zero = refl
is_live-push [] (suc a) = ground arith
is_live-push (b ∷ h) zero = ground arith
is_live-push (b ∷ h) (suc a) = ground (arith, is_live-push h a)

is_live-clear : (h : List Bool) (p : ℕ) → is_live (clear h p) p ≡ false
is_live-clear [] p = refl
is_live-clear (b ∷ h) zero = refl
is_live-clear (b ∷ h) (suc p) = is_live-clear h p

is_live-clear_other : (h : List Bool) (p a : ℕ) → a ≢ p → is_live (clear h p) a ≡ is_live h a
is_live-clear_other [] p a ne = refl
is_live-clear_other (b ∷ h) zero zero ne = absurd (ne refl)
is_live-clear_other (b ∷ h) zero (suc a) ne = refl
is_live-clear_other (b ∷ h) (suc p) zero ne = refl
is_live-clear_other (b ∷ h) (suc p) (suc a) ne = is_live-clear_other h p a (λ e. ne (ap suc e))

pub blocks-MemoryLaws : MemoryLaws blocks
blocks-MemoryLaws = record {
  live-alloc = λ h size a. is_live-push h a;
  live-free = is_live-clear;
  live-free_other = is_live-clear_other;
}
