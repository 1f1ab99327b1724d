-- ===== src/Verdict/Blind.antt =====
-- Steps of a parser whose verdict does not depend on the state.
use ftrl_online_pslite.Prelude.{
  ℕ, ◌≡◌, refl, ap, ◌∙◌, Bool, true, false, Option, none, some, List, get_elem?,
}
use ftrl_online_pslite.Bytes.{Bytes}
use ftrl_online_pslite.Verdict.{
  Verdict, dropped, out_of_bounds, going, Step, chain, guard, element, element_of, modify, give,
}

unfoldable pub Blind : {S A : Type 0} → Step S A → Type 0
Blind {S = S} m = (s s' : S) → (m s).1 ≡ (m s').1

module _ (S : Type 0) where
  chain-Blind :
      {A B : Type 0} (g : A → Step S B) (s s' : S) (v : Verdict A)
      → ((a : A) → Blind (g a))
      → (chain g (s, v)).1 ≡ (chain g (s', v)).1
  unfolding Blind
  chain-Blind g s s' dropped h = refl
  chain-Blind g s s' out_of_bounds h = refl
  chain-Blind g s s' (going a) h = h a s s'

  pub bind-Blind :
      {A B : Type 0} (m : Step S A) (g : A → Step S B)
      → Blind m
      → ((a : A) → Blind (g a))
      → Blind (λ s. chain g (m s))
  unfolding Blind
  bind-Blind m g hm hg s s' =
      chain-Blind g (m s).0 (m s').0 (m s).1 hg ∙ ap (λ v. (chain g ((m s').0, v)).1) (hm s s')

  pub give-Blind : {A : Type 0} (a : A) → Blind (give {S = S} a)
  unfolding Blind
  give-Blind a s s' = refl

  pub guard-Blind : (b : Bool) → Blind (guard {S = S} b)
  unfolding Blind
  guard-Blind true s s' = refl
  guard-Blind false s s' = refl

  element_of-Blind : (o : Option Bytes) → Blind (element_of {S = S} o)
  unfolding Blind
  element_of-Blind none s s' = refl
  element_of-Blind (some b) s s' = refl

  pub element-Blind : (v : List Bytes) (i : ℕ) → Blind (element {S = S} v i)
  element-Blind v i = element_of-Blind (get_elem? v i)

  pub modify-Blind : (f : S → S) → Blind (modify f)
  unfolding Blind
  modify-Blind f s s' = refl

pub ruleset blind = (give-Blind, guard-Blind, element-Blind, modify-Blind, bind-Blind)
