-- ===== src/Base/Actions.antt =====
-- Calls that change a state and may raise: the state comes back after an error too, since luaL_error
-- undoes nothing.
use l2dbus.Base.Results.{Result, ok, lua_error, undefined, out_of_fuel, Error}
use mathlib.Core.Bool.{Bool, true, false}
use mathlib.Core.Path.{◌≡◌, refl}

abbrev pub Action : Type 0 → Type 0 → Type 0
Action S A = S → S × Result A

module _ {S A : Type 0} where
  abbrev pub pure : A → Action S A
  pure a s = (s, ok a)

  abbrev pub lift : Result A → Action S A
  lift r s = (s, r)

  abbrev pub raise : Error → Action S A
  raise e s = (s, lua_error e)

  abbrev pub gets : (S → A) → Action S A
  gets f s = (s, ok (f s))

abbrev pub modify : {S : Type 0} → (S → S) → Action S (Unit {0})
modify f s = (f s, ok tt)

abbrev pub require : {S : Type 0} → Bool → Error → Action S (Unit {0})
require true e s = (s, ok tt)
require false e s = (s, lua_error e)

-- What is left of a call that returned `r`.
abbrev pub after : {S A B : Type 0} → S → Result A → (A → Action S B) → S × Result B
after s (ok a) f = f a s
after s (lua_error e) f = (s, lua_error e)
after s (undefined u) f = (s, undefined u)
after s out_of_fuel f = (s, out_of_fuel)

infixl 5 ◌>>=◌ ◌>>◌
abbrev pub ◌>>=◌ : {S A B : Type 0} → Action S A → (A → Action S B) → Action S B
◌>>=◌ m f s = let (s', r) = m s in after s' r f

abbrev pub ◌>>◌ : {S A B : Type 0} → Action S A → Action S B → Action S B
m >> k = m >>= λ u. k

-- From a state with `P`, the call leaves one with `Q`, also when it fails.
abbrev pub Leads : {S A : Type 0} → (P Q : S → Type 0) → Action S A → Type 0
Leads {S = S} P Q m = (s : S) → P s → Q (m s).0

module _ {S A B : Type 0} where
  -- A chain whose first call keeps `P`, where `P` is enough for `Q` when that call fails.
  pub Leads-bind :
      {P Q : S → Type 0} (m : Action S A) (f : A → Action S B)
      → ((s : S) → P s → Q s)
      → Leads P P m
      → ((a : A) → Leads P Q (f a))
      → Leads P Q (m >>= f)
  Leads-bind {P} {Q} m f weaken first rest s h = go (m s).1
    where
      go : (r : Result A) → Q (after (m s).0 r f).0
      go (ok a) = rest a (m s).0 (first s h)
      go (lua_error e) = weaken (m s).0 (first s h)
      go (undefined u) = weaken (m s).0 (first s h)
      go out_of_fuel = weaken (m s).0 (first s h)

pub require-state : {S : Type 0} (b : Bool) (e : Error) (s : S) → (require b e s).0 ≡ s
require-state true e s = refl
require-state false e s = refl
