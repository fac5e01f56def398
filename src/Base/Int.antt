-- ===== src/Base/Int.antt =====
-- Signed integers over the native numbers, under the library's names (its ℤ stands on the unary ℕ).
use native.Mathlib.Nat.{add-zero, zero-add}
use l2dbus.Base.{
  ℕ, zero, suc, ◌+◌, ◌-◌, ◌*◌, ◌/◌, ◌%◌, ◌≤◌, ◌≡◌, refl, ◌∙◌, Bool, arith, ltb, leb, ◌==◌,
  if◌then◌else◌,
}

-- `negsuc n` is -(n + 1).
pub data ℤ : Type 0 where
  pos : ℕ → ℤ
  negsuc : ℕ → ℤ

abbrev pub pos_part : ℤ → ℕ
pos_part (pos n) = n
pos_part (negsuc n) = 0

abbrev pub neg_part : ℤ → ℕ
neg_part (pos n) = 0
neg_part (negsuc n) = suc n

-- a - b, as an integer.
abbrev pub sub_ℕ : ℕ → ℕ → ℤ
sub_ℕ a b = if leb b a then pos (a - b) else negsuc (b - a - 1)

infixl 65 ◌+ℤ◌ ◌-ℤ◌
infixl 70 ◌*ℤ◌ ◌/ℤ◌ ◌%ℤ◌
infix 50 ◌≤ℤ◌
unfoldable pub ◌+ℤ◌ : ℤ → ℤ → ℤ
a +ℤ b = sub_ℕ (pos_part a + pos_part b) (neg_part a + neg_part b)

unfoldable pub ◌-ℤ◌ : ℤ → ℤ → ℤ
a -ℤ b = sub_ℕ (pos_part a + neg_part b) (neg_part a + pos_part b)

unfoldable pub ◌*ℤ◌ : ℤ → ℤ → ℤ
pos a *ℤ pos b = pos (a * b)
pos a *ℤ negsuc b = sub_ℕ 0 (a * suc b)
negsuc a *ℤ pos b = sub_ℕ 0 (suc a * b)
negsuc a *ℤ negsuc b = pos (suc a * suc b)

-- Division and remainder as in C: the quotient is truncated towards zero, the remainder has the
-- sign of the dividend.
unfoldable pub ◌/ℤ◌ : ℤ → ℤ → ℤ
pos a /ℤ pos b = pos (a / b)
pos a /ℤ negsuc b = sub_ℕ 0 (a / suc b)
negsuc a /ℤ pos b = sub_ℕ 0 (suc a / b)
negsuc a /ℤ negsuc b = pos (suc a / suc b)

unfoldable pub ◌%ℤ◌ : ℤ → ℤ → ℤ
pos a %ℤ pos b = pos (a % b)
pos a %ℤ negsuc b = pos (a % suc b)
negsuc a %ℤ pos b = sub_ℕ 0 (suc a % b)
negsuc a %ℤ negsuc b = sub_ℕ 0 (suc a % suc b)

abbrev pub ◌≤ℤ◌ : ℤ → ℤ → Type 0
a ≤ℤ b = pos_part a + neg_part b ≤ pos_part b + neg_part a

abbrev pub ltb_ℤ : ℤ → ℤ → Bool
ltb_ℤ a b = ltb (pos_part a + neg_part b) (pos_part b + neg_part a)

abbrev pub leb_ℤ : ℤ → ℤ → Bool
leb_ℤ a b = leb (pos_part a + neg_part b) (pos_part b + neg_part a)

abbrev pub eqb_ℤ : ℤ → ℤ → Bool
eqb_ℤ a b = pos_part a + neg_part b == pos_part b + neg_part a

-- The distance from zero.
abbrev pub abs : ℤ → ℕ
abs a = pos_part a + neg_part a

pub eq_of_parts : (a b : ℤ) → pos_part a + neg_part b ≡ pos_part b + neg_part a → a ≡ b
eq_of_parts a b h = ground arith

-- One lemma for each operation lets `omega` work with the operations shut.
pub +ℤ_parts :
    (a b : ℤ)
    → pos_part (a +ℤ b) + neg_part a + neg_part b ≡ neg_part (a +ℤ b) + pos_part a + pos_part b
unfolding ◌+ℤ◌
+ℤ_parts a b = ground arith

pub -ℤ_parts :
    (a b : ℤ)
    → pos_part (a -ℤ b) + neg_part a + pos_part b ≡ neg_part (a -ℤ b) + pos_part a + neg_part b
unfolding ◌-ℤ◌
-ℤ_parts a b = ground arith

pub *ℤ_pos_part : (a b : ℤ) → pos_part (a *ℤ b) ≡ pos_part a * pos_part b + neg_part a * neg_part b
unfolding ◌*ℤ◌
*ℤ_pos_part (pos a) (pos b) = omega arith
*ℤ_pos_part (pos a) (negsuc b) = ground arith
*ℤ_pos_part (negsuc a) (pos b) = ground arith
*ℤ_pos_part (negsuc a) (negsuc b) = omega arith

pub *ℤ_neg_part : (a b : ℤ) → neg_part (a *ℤ b) ≡ pos_part a * neg_part b + neg_part a * pos_part b
unfolding ◌*ℤ◌
*ℤ_neg_part (pos a) (pos b) = omega arith
*ℤ_neg_part (pos a) (negsuc b) = ground arith
*ℤ_neg_part (negsuc a) (pos b) = ground arith
*ℤ_neg_part (negsuc a) (negsuc b) = omega arith

pub *ℤ_assoc : (a b c : ℤ) → a *ℤ b *ℤ c ≡ a *ℤ (b *ℤ c)
*ℤ_assoc a b c = eq_of_parts _ _ (simp (*ℤ_pos_part, *ℤ_neg_part) (omega arith))

pub one-*ℤ : (a : ℤ) → pos 1 *ℤ a ≡ a
one-*ℤ a = eq_of_parts _ _ (simp (*ℤ_pos_part, *ℤ_neg_part) (omega arith))

pub *ℤ-one : (a : ℤ) → a *ℤ pos 1 ≡ a
*ℤ-one a = eq_of_parts _ _ (simp (*ℤ_pos_part, *ℤ_neg_part) (omega arith))

pub abs-*ℤ : (a b : ℤ) → abs (a *ℤ b) ≡ abs a * abs b
abs-*ℤ a b = simp (*ℤ_pos_part, *ℤ_neg_part) (omega arith)

opp_parts : (n : ℕ) → (pos_part (sub_ℕ 0 n) ≡ 0) × (neg_part (sub_ℕ 0 n) ≡ n)
opp_parts n = ground arith

div_mod_parts :
    (q r b a : ℤ)
    → pos_part q * pos_part b + neg_part q * neg_part b + pos_part r + neg_part a
      ≡ pos_part q * neg_part b + neg_part q * pos_part b + neg_part r + pos_part a
    → q *ℤ b +ℤ r ≡ a
div_mod_parts q r b a h =
    eq_of_parts _ _ (omega (arith, +ℤ_parts (q *ℤ b) r, *ℤ_pos_part q b, *ℤ_neg_part q b))

-- The defining property of the C quotient and remainder.
pub /ℤ-%ℤ : (a b : ℤ) → a /ℤ b *ℤ b +ℤ a %ℤ b ≡ a
unfolding ◌/ℤ◌ ◌%ℤ◌
/ℤ-%ℤ (pos a) (pos b) = div_mod_parts _ _ _ _ (omega arith)
/ℤ-%ℤ (pos a) (negsuc b) =
    div_mod_parts _ _ _ _ (rw ((opp_parts (a / suc b)).0, (opp_parts (a / suc b)).1) (omega arith))
/ℤ-%ℤ (negsuc a) (pos b) = div_mod_parts _ _ _ _ (
    rw
      (
        (opp_parts (suc a / b)).0,
        (opp_parts (suc a / b)).1,
        (opp_parts (suc a % b)).0,
        (opp_parts (suc a % b)).1,
      )
      (omega arith))
/ℤ-%ℤ (negsuc a) (negsuc b) =
    div_mod_parts _ _ _ _
      (rw ((opp_parts (suc a % suc b)).0, (opp_parts (suc a % suc b)).1) (omega arith))

abs-sub_ℕ : (n : ℕ) → abs (sub_ℕ 0 n) ≡ n
abs-sub_ℕ n = ground arith

pub abs-/ℤ : (a b : ℤ) → abs (a /ℤ b) ≡ abs a / abs b
unfolding ◌/ℤ◌
abs-/ℤ (pos a) (pos b) = simp add-zero
abs-/ℤ (pos a) (negsuc b) = abs-sub_ℕ (a / suc b) ∙ simp (add-zero, zero-add)
abs-/ℤ (negsuc a) (pos b) = abs-sub_ℕ (suc a / b) ∙ simp (add-zero, zero-add)
abs-/ℤ (negsuc a) (negsuc b) = simp (add-zero, zero-add)

pub abs-%ℤ : (a b : ℤ) → abs (a %ℤ b) ≡ abs a % abs b
unfolding ◌%ℤ◌
abs-%ℤ (pos a) (pos b) = simp add-zero
abs-%ℤ (pos a) (negsuc b) = simp (add-zero, zero-add)
abs-%ℤ (negsuc a) (pos b) = abs-sub_ℕ (suc a % b) ∙ simp (add-zero, zero-add)
abs-%ℤ (negsuc a) (negsuc b) = abs-sub_ℕ (suc a % suc b) ∙ simp zero-add

-- Powers, and the law behind exponentiation by squaring.
infixr 75 ◌^ℤ◌
unfoldable pub ◌^ℤ◌ : ℤ → ℕ → ℤ
a ^ℤ zero = pos 1
a ^ℤ suc n = a *ℤ a ^ℤ n

pub pow-double : (a : ℤ) (n : ℕ) → (a *ℤ a) ^ℤ n ≡ a ^ℤ (n + n)
unfolding ◌^ℤ◌
pow-double a zero = refl
pow-double a (suc n) =
    let e : suc n + suc n ≡ suc (suc (n + n)) = omega arith in
    rw (e, pow-double a n) (*ℤ_assoc a a (a ^ℤ (n + n)))
