-- ===== src/Verdict/Yields.antt =====
-- Steps of a parser, and what holds of the value with which they end.
use ftrl_online_pslite.Verdict.{Verdict, dropped, out_of_bounds, going, Step, chain, give}

abbrev pub IfGoing : {A : Type 0} → (A → Type 0) → Verdict A → Type 0
IfGoing P dropped = Unit
IfGoing P out_of_bounds = Unit
IfGoing P (going a) = P a

unfoldable pub Yields : {S A : Type 0} → (A → Type 0) → Step S A → Type 0
Yields {S = S} P m = (s : S) → IfGoing P (m s).1

module _ (S : Type 0) where
  pub chain-Yields :
      {A B : Type 0} (P : B → Type 0) (g : A → Step S B) (r : S × Verdict A)
      → ((a : A) → Yields P (g a))
      → IfGoing P (chain g r).1
  unfolding Yields
  chain-Yields P g (s, dropped) h = tt
  chain-Yields P g (s, out_of_bounds) h = tt
  chain-Yields P g (s, going a) h = h a s

  -- The last step decides.
  pub bind-Yields :
      {A B : Type 0} (P : B → Type 0) (m : Step S A) (g : A → Step S B)
      → ((a : A) → Yields P (g a))
      → Yields P (λ s. chain g (m s))
  unfolding Yields
  bind-Yields P m g h s = chain-Yields P g (m s) h

  pub give-Yields : {A : Type 0} (P : A → Type 0) (a : A) → P a → Yields P (give {S = S} a)
  unfolding Yields
  give-Yields P a h s = h

pub ruleset yields = (bind-Yields, give-Yields)
