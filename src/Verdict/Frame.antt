-- ===== src/Verdict/Frame.antt =====
-- What a parser's steps leave alone: the part of the state that `view` shows.
use ftrl_online_pslite.Prelude.{
  ℕ, ◌≡◌, refl, ◌∙◌, Bool, true, false, Option, none, some, List, get_elem?,
}
use ftrl_online_pslite.Bytes.{Bytes}
use ftrl_online_pslite.Verdict.{
  Verdict, dropped, out_of_bounds, going, Step, chain, guard, element, element_of, modify, give,
}

pub record View (S : Type 0) : Type 1 where
  pub Shown : Type 0
  pub view : S → Shown

-- A step after which `view` shows what it showed before.
unfoldable pub Frames : {S A : Type 0} ⦃v : View S⦄ → Step S A → Type 0
Frames {S = S} ⦃v⦄ m = (s : S) → v.view (m s).0 ≡ v.view s

module _ (S : Type 0) ⦃v : View S⦄ where
  chain-Frames :
      {A B : Type 0} (g : A → Step S B) (r : S × Verdict A)
      → ((a : A) → Frames (g a))
      → v.view (chain g r).0 ≡ v.view r.0
  unfolding Frames
  chain-Frames g (s1, dropped) h = refl
  chain-Frames g (s1, out_of_bounds) h = refl
  chain-Frames g (s1, going a) h = h a s1

  pub bind-Frames :
      {A B : Type 0} (m : Step S A) (g : A → Step S B)
      → Frames m
      → ((a : A) → Frames (g a))
      → Frames (λ s. chain g (m s))
  unfolding Frames
  bind-Frames m g hm hg s = chain-Frames g (m s) hg ∙ hm s

  pub give-Frames : {A : Type 0} (a : A) → Frames (give {S = S} a)
  unfolding Frames
  give-Frames a s = refl

  pub guard-Frames : (b : Bool) → Frames (guard {S = S} b)
  unfolding Frames
  guard-Frames true s = refl
  guard-Frames false s = refl

  element_of-Frames : (o : Option Bytes) → Frames (element_of {S = S} o)
  unfolding Frames
  element_of-Frames none s = refl
  element_of-Frames (some b) s = refl

  pub element-Frames : (v : List Bytes) (i : ℕ) → Frames (element {S = S} v i)
  element-Frames v i = element_of-Frames (get_elem? v i)

  pub modify-Frames : (f : S → S) → ((s : S) → v.view (f s) ≡ v.view s) → Frames (modify f)
  unfolding Frames
  modify-Frames f h = h

  pub guard_at-Frames : (test : S → Bool) → Frames (λ s. guard (test s) s)
  unfolding Frames
  guard_at-Frames test s = guard-Frames (test s) s

pub ruleset frames = (give-Frames, guard-Frames, element-Frames, bind-Frames)
