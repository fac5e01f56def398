-- ===== src/RefList/Lists.antt =====
-- Lists of pairs of an address and a reference.
use l2dbus.Base.{
  ℕ, ◌≡◌, ◌≢◌, sym, ap, refl, arith, false, Option, some, List, [], ◌∷◌, ◌++◌, All, ◌==◌,
}
use l2dbus.Base.Int.{ℤ}
use l2dbus.RefList.{store}
use l2dbus.RefList.Laws.{Distinct, addresses}

pub All-append :
    (P : ℕ × ℤ → Type 0) (xs ys : List (ℕ × ℤ)) → All P (xs ++ ys) → All P xs × All P ys
All-append P [] ys h = (tt, h)
All-append P (x ∷ xs) ys h = let (l, r) = All-append P xs ys h.1 in ((h.0, l), r)

pub append-All :
    (P : ℕ × ℤ → Type 0) (xs ys : List (ℕ × ℤ)) → All P xs → All P ys → All P (xs ++ ys)
append-All P [] ys h k = k
append-All P (x ∷ xs) ys h k = (h.0, append-All P xs ys h.1 k)

-- What is left when the middle element is taken out has other addresses.
pub around :
    (before : List (ℕ × ℤ)) (x : ℕ × ℤ) (after : List (ℕ × ℤ))
    → Distinct (before ++ x ∷ after)
    → All (λ (y : ℕ × ℤ). y.0 ≢ x.0) (before ++ after) × Distinct (before ++ after)
around [] x after h = h
around (y ∷ before) x after h =
    let (others, distinct) = around before x after h.1 in
    let (l, r) = All-append _ before (x ∷ after) h.0 in
    (((λ e. r.0 (sym e)), others), (append-All _ before after l r.1, distinct))

pub addresses-append : (xs ys : List (ℕ × ℤ)) → addresses (xs ++ ys) ≡ addresses xs ++ addresses ys
addresses-append [] ys = refl
addresses-append (x ∷ xs) ys = ap (◌∷◌ (x.0)) (addresses-append xs ys)

-- What holds of the addresses of the pairs holds of the addresses.
pub addresses-All :
    (a : ℕ) (ps : List (ℕ × ℤ)) → All (λ (y : ℕ × ℤ). y.0 ≢ a) ps → All (λ b. b ≢ a) (addresses ps)
addresses-All a [] h = tt
addresses-All a (p ∷ ps) h = (h.0, addresses-All a ps h.1)

pub store_same : (items : ℕ → Option ℤ) (a : ℕ) (r : Option ℤ) → store items a r a ≡ r
store_same items a r = ground arith

-- The other items stay allocated.
pub still_stored :
    (items : ℕ → Option ℤ) (a : ℕ) (r : Option ℤ) (ps : List (ℕ × ℤ))
    → All (λ (y : ℕ × ℤ). y.0 ≢ a) ps
    → All (λ (p : ℕ × ℤ). items (p.0) ≡ some (p.1)) ps
    → All (λ (p : ℕ × ℤ). store items a r (p.0) ≡ some (p.1)) ps
still_stored items a r [] h k = tt
still_stored items a r (p ∷ ps) h k =
    let other : (p.0 == a) ≡ false = ground (arith, h.0) in
    (rw other k.0, still_stored items a r ps h.1 k.1)
