-- ===== src/Verdict.antt =====
-- The steps of which the two message parsers are made (src/io/parser.cpp, and tools/learner.cpp):
-- each works on the state of its class, and ends by `return -1`, past the end of a vector, or with a
-- value.
pub mod Frame
pub mod Blind
pub mod Yields
use ftrl_online_pslite.Prelude.{ℕ, Bool, true, false, Option, none, some, List, get_elem?}
use ftrl_online_pslite.Bytes.{Bytes}

pub data Verdict {ℓ} (A : Type ℓ) : Type ℓ where
  dropped : Verdict A
  out_of_bounds : Verdict A
  going : A → Verdict A

abbrev pub Step : Type 0 → Type 0 → Type 0
Step S A = S → S × Verdict A

module _ {S A B : Type 0} where
  abbrev pub chain : (A → Step S B) → S × Verdict A → S × Verdict B
  chain g (s, dropped) = (s, dropped)
  chain g (s, out_of_bounds) = (s, out_of_bounds)
  chain g (s, going a) = g a s

  infixl 5 ◌>>=◌
  abbrev pub ◌>>=◌ : Step S A → (A → Step S B) → Step S B
  ◌>>=◌ m g s = chain g (m s)

infixl 5 ◌>>◌
abbrev pub ◌>>◌ : {S B : Type 0} → Step S (Unit {0}) → Step S B → Step S B
m >> k = m >>= λ _. k

module _ {S : Type 0} where
  -- `if (!test) return -1;`
  abbrev pub guard : Bool → Step S (Unit {0})
  guard true s = (s, going tt)
  guard false s = (s, dropped)

  -- `v[i]`
  abbrev pub element_of : Option Bytes → Step S Bytes
  element_of none s = (s, out_of_bounds)
  element_of (some v) s = (s, going v)

  abbrev pub element : List Bytes → ℕ → Step S Bytes
  element v i = element_of (get_elem? v i)

  abbrev pub modify : (S → S) → Step S (Unit {0})
  modify f s = (f s, going tt)

  abbrev pub give : {A : Type 0} → A → Step S A
  give a s = (s, going a)
