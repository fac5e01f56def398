-- ===== src/RefList/Laws.antt =====
-- What the reference list relies on queue.h for, as queue(3) documents it, and the lists that a
-- `RefList` stands for.
use l2dbus.Base.{ℕ, ◌≡◌, ◌≢◌, Option, none, some, List, [], ◌∷◌, ◌++◌, All}
use l2dbus.Base.Int.{ℤ}
use l2dbus.RefList.{Queue, RefList}

abbrev pub head {ℓ} : {A : Type ℓ} → List A → Option A
head [] = none
head (x ∷ xs) = some x

-- The nodes of a list in order, and what the operations make of them.
pub record Documented (Q : Queue) : Type 0 where
  pub nodes : Q.Links → List ℕ
  pub nodes-list_init : nodes Q.list_init ≡ []
  pub list_first-nodes : (l : Q.Links) → Q.list_first l ≡ head (nodes l)
  pub list_next-nodes :
      (l : Q.Links) (before : List ℕ) (a : ℕ) (after : List ℕ)
      → nodes l ≡ before ++ a ∷ after
      → All (λ b. b ≢ a) before
      → Q.list_next l a ≡ head after
  pub nodes-insert_head :
      (l : Q.Links) (a : ℕ) → All (λ b. b ≢ a) (nodes l) → nodes (Q.insert_head l a) ≡ a ∷ nodes l
  pub nodes-list_remove :
      (l : Q.Links) (before : List ℕ) (a : ℕ) (after : List ℕ)
      → nodes l ≡ before ++ a ∷ after
      → All (λ b. b ≢ a) before
      → nodes (Q.list_remove l a) ≡ before ++ after

-- No address occurs twice.
abbrev pub Distinct : List (ℕ × ℤ) → Type 0
Distinct [] = Unit
Distinct (x ∷ xs) = All (λ y. y.0 ≢ x.0) xs × Distinct xs

-- The addresses and references of a list, in order.
abbrev pub addresses : List (ℕ × ℤ) → List ℕ
addresses [] = []
addresses (x ∷ xs) = x.0 ∷ addresses xs

abbrev pub references : List (ℕ × ℤ) → List ℤ
references [] = []
references (x ∷ xs) = x.1 ∷ references xs

pub record Holds (Q : Queue) (D : Documented Q) (s : RefList Q) (ps : List (ℕ × ℤ)) : Type 0 where
  pub in_order : D.nodes s.links ≡ addresses ps
  pub allocated : All (λ (p : ℕ × ℤ). s.items (p.0) ≡ some (p.1)) ps
  pub distinct : Distinct ps
