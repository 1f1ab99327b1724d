-- ===== src/Prelude/Map.antt =====
-- `std::unordered_map<uint64_t, V>` (and its tr1 twin) as an association list. The entries stand in
-- the order of their insertion, which the C++ container leaves open.
use Prim.Native.Nat.{ℕ}
use mathlib.Core.Path.{◌≡◌, refl}
use mathlib.Core.List.{List, [], ◌∷◌}
use native.Mathlib.Omega.{arith}
use ftrl_online_pslite.Prelude.Tests.{◌==◌, if◌then◌else◌}

abbrev pub Map {ℓ} : Type ℓ → Type ℓ
Map V = List (ℕ × V)

module _ {ℓ} {V : Type ℓ} where
  -- The value that `m[k]` reads, with `d` for a key that is missing.
  unfoldable pub at_or : V → ℕ → Map V → V
  at_or d k [] = d
  at_or d k ((j, v) ∷ m) = if j == k then v else at_or d k m

  -- `m[k] = v`
  unfoldable pub insert : ℕ → V → Map V → Map V
  insert k v [] = (k, v) ∷ []
  insert k v ((j, w) ∷ m) = if j == k then (j, v) ∷ m else (j, w) ∷ insert k v m

  -- What reading `m[k]` leaves behind: a missing key is put in with the default.
  unfoldable pub touch : V → ℕ → Map V → Map V
  touch d k [] = (k, d) ∷ []
  touch d k ((j, w) ∷ m) = if j == k then (j, w) ∷ m else (j, w) ∷ touch d k m

  abbrev pub keys_of : Map V → List ℕ
  keys_of [] = []
  keys_of ((k, v) ∷ m) = k ∷ keys_of m

  abbrev pub values_of : Map V → List V
  values_of [] = []
  values_of ((k, v) ∷ m) = v ∷ values_of m

  pub at_or-insert :
      (d : V) (k j : ℕ) (v : V) (m : Map V)
      → at_or d j (insert k v m) ≡ (if k == j then v else at_or d j m)
  unfolding at_or insert
  at_or-insert d k j v [] = refl
  at_or-insert d k j v ((i, w) ∷ m) = ground (arith, at_or-insert d k j v m)

  pub at_or-touch : (d : V) (k j : ℕ) (m : Map V) → at_or d j (touch d k m) ≡ at_or d j m
  unfolding at_or touch
  at_or-touch d k j [] = ground arith
  at_or-touch d k j ((i, w) ∷ m) = ground (arith, at_or-touch d k j m)
