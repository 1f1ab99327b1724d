-- ===== src/Prelude/Predicates.antt =====
-- Predicates on lists by recursion, which compute to tuples.
use Prim.Native.Nat.{ℕ, ◌<◌}
use mathlib.Core.Path.{◌≡◌}
use mathlib.Core.Logic.{◌⊎◌, inl, inr}
use mathlib.Core.List.{List, [], ◌∷◌, ◌++◌}
use mathlib.Core.Option.{Option, none, some}
use native.Mathlib.Omega.{arith}

module _ {ℓ κ} {A : Type ℓ} (P : A → Type κ) where
  abbrev pub All : List A → Type κ
  All [] = Unit
  All (x ∷ xs) = P x × All xs

  pub All-append : (xs ys : List A) → All xs → All ys → All (xs ++ ys)
  All-append [] ys hx hy = hy
  All-append (x ∷ xs) ys hx hy = (hx.0, All-append xs ys hx.1 hy)

-- Membership of a number, by recursion.
abbrev pub Elem : ℕ → List ℕ → Type 0
Elem a [] = ⊥
Elem a (x ∷ xs) = (a ≡ x) ⊎ Elem a xs

-- Strictly increasing, from above `a` on.
abbrev pub Above : ℕ → List ℕ → Type 0
Above a [] = Unit
Above a (x ∷ xs) = (a < x) × Above x xs

abbrev pub IsStrictlySorted : List ℕ → Type 0
IsStrictlySorted [] = Unit
IsStrictlySorted (x ∷ xs) = Above x xs

pub Above-Elem-lt : (a b : ℕ) (xs : List ℕ) → Above a xs → Elem b xs → a < b
Above-Elem-lt a b [] h m = absurd m
Above-Elem-lt a b (x ∷ xs) h (inl e) = omega arith
Above-Elem-lt a b (x ∷ xs) h (inr m) = omega (arith, Above-Elem-lt x b xs h.1 m)

pub Above-lt : (a b : ℕ) (xs : List ℕ) → a < b → Above b xs → Above a xs
Above-lt a b [] h k = tt
Above-lt a b (x ∷ xs) h k = (omega arith, k.1)

pub Above-IsStrictlySorted : (a : ℕ) (xs : List ℕ) → Above a xs → IsStrictlySorted xs
Above-IsStrictlySorted a [] h = tt
Above-IsStrictlySorted a (x ∷ xs) h = h.1

-- What holds of a result, if there is one.
abbrev pub IfSome {ℓ κ} : {A : Type ℓ} → (A → Type κ) → Option A → Type κ
IfSome P none = Unit
IfSome P (some a) = P a
