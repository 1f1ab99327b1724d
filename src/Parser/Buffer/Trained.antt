-- ===== src/Parser/Buffer/Trained.antt =====
-- src/io/parser.cpp, src/core/learner.cpp and src/optimizer/ftrl.cpp together: every batch of
-- `Process` is trained with.
use ftrl_online_pslite.Prelude.{
  ℕ, ◌≡◌, refl, sym, subst, some, List, [], ◌∷◌, arith, ◌==◌, Bool-cases, Option-cases, inl, inr,
  All, IfSome,
}
use ftrl_online_pslite.Prelude.Int.{ℤ}
use ftrl_online_pslite.Floats.{Floats}
use ftrl_online_pslite.Bytes.{Bytes}
use ftrl_online_pslite.Clock.{Strftime, Tm}
use ftrl_online_pslite.Sample.{Sample}
use ftrl_online_pslite.Ftrl.{Ftrl}
use ftrl_online_pslite.Learner.{Learner}
use ftrl_online_pslite.Learner.Labels.{Kind}
use ftrl_online_pslite.Verdict.Frame.{Frames}
use ftrl_online_pslite.Verdict.Yields.{Yields}
use ftrl_online_pslite.Parser.{Parser, Env}
use ftrl_online_pslite.Parser.Message.{parse_sample_0, parse_sample_1}
use ftrl_online_pslite.Parser.Message.Frame.{
  shown, Buffers, buffers, parse_sample_0-Frames, parse_sample_1-Frames,
}
use ftrl_online_pslite.Parser.Message.Small.{IsInt, parse_sample_0-Yields, parse_sample_1-Yields}
use ftrl_online_pslite.Parser.Buffer.{Delivery, process, new_parser}
use ftrl_online_pslite.Parser.Buffer.Bounds.{IsBuffered, contents}
use ftrl_online_pslite.Parser.Buffer.Run.{IsBuffered-buffers, process-IsKept, process_all}
use ftrl_online_pslite.Parser.Buffer.Fit.{
  SoundContents, HoldsSound, Fits, AllFits, after_0-AllFits, after_1-AllFits,
}
use ftrl_online_pslite.Parser.Buffer.Accept.{Trains, All-Fits-Trains}

module _ {F : Type 0} where
  HoldsSound-buffers : (s s' : Parser F) → buffers s' ≡ buffers s → HoldsSound s → HoldsSound s'
  unfolding buffers
  HoldsSound-buffers s s' e h =
      subst
        (λ (b : Buffers F).
          SoundContents (contents 0 b.idx_0 b.sample_0)
          × SoundContents (contents 0 b.idx_1 b.sample_1))
        (sym e) h

module _ {F : Type 0} ⦃fl : Floats F⦄ (env : Env F) where
  pub process-AllFits :
      (msg : Bytes) (param : ℕ) (s : Parser F) {s' : Parser F} {ds : List (Delivery F)}
      → IsInt env.parsers
      → IsBuffered s
      → HoldsSound s
      → process env msg param s ≡ some (s', ds)
      → HoldsSound s' × All Fits ds
  unfolding process Frames shown Yields
  process-AllFits msg param s int b h e = elim (Bool-cases (param == 0)) [
    | inl zero_param ↦
        let r = parse_sample_0 env msg s in
        let kept = parse_sample_0-Frames env msg s in
        subst (IfSome AllFits) (rw (process, zero_param) at e) (
          after_0-AllFits env r (IsBuffered-buffers s r.0 kept b).0
            (HoldsSound-buffers s r.0 kept h) (parse_sample_0-Yields env msg int s))
    | inr other ↦
        let r = parse_sample_1 env msg s in
        let kept = parse_sample_1-Frames env msg s in
        subst (IfSome AllFits) (rw (process, other) at e) (
          after_1-AllFits env r (HoldsSound-buffers s r.0 kept h)
            (parse_sample_1-Yields env msg int s))
  ]

  process_all-HoldsSound :
      (msgs : List (Bytes × ℕ)) (s : Parser F) {s' : Parser F}
      → IsInt env.parsers
      → IsBuffered s
      → HoldsSound s
      → process_all env msgs s ≡ some s'
      → IsBuffered s' × HoldsSound s'
  unfolding process_all
  process_all-HoldsSound [] s int b h e =
      subst (IfSome (λ s'. IsBuffered s' × HoldsSound s')) e (b, h)
  process_all-HoldsSound ((msg, param) ∷ rest) s {s'} int b h e =
      elim (Option-cases (process env msg param s)) [
        | inl stuck ↦ let no = rw (process_all, stuck) at e in cc
        | inr ((s1, ds), done) ↦
            process_all-HoldsSound rest s1 int (process-IsKept env msg param s b done).0
              (process-AllFits msg param s int b h done).0 (rw (process_all, done) at e)
      ]

  -- If `atoi` returns an `int`: on a parser whose buffers keep to their bounds and whose waiting
  -- samples have at most a thousand features, all below 2^31, let any messages of either kind come
  -- in any order, none of which makes an access out of bounds. Then each batch that one more
  -- message hands out is taken over by `GetData` of any learner without an access out of bounds,
  -- which keeps just the samples whose label is not -1; and unless it keeps none, its round with any
  -- server ends without such an access, and moves every key of the samples kept, and key 0, by one
  -- FTRL step with the key's gradient at the server's own weights, and no other key.
  pub process-Trains :
      (msgs : List (Bytes × ℕ)) (msg : Bytes) (param : ℕ) (s : Parser F) {s1 s2 : Parser F}
      {ds : List (Delivery F)} (strftime : Strftime) (t u : Tm) (timeuse : F) (server : Ftrl F)
      (l : Learner F)
      → IsInt env.parsers
      → IsBuffered s
      → HoldsSound s
      → process_all env msgs s ≡ some s1
      → process env msg param s1 ≡ some (s2, ds)
      → All (Trains strftime t u timeuse server l) ds
  process-Trains msgs msg param s {s1} {ds} strftime t u timeuse server l int b h before e =
      let (b1, h1) = process_all-HoldsSound msgs s int b h before in
      All-Fits-Trains strftime t u timeuse server l ds (process-AllFits msg param s1 int b1 h1 e).1

  -- If `atoi` returns an `int`: from the constructor on, after any messages of either kind in any
  -- order of which none made an access out of bounds, the buffers keep to their bounds, and every
  -- sample that waits in them has at most a thousand features, all below 2^31.
  pub new_parser-HoldsSound :
      (lws : List Kind) (samples : ℕ → Sample F) (labels : ℕ → ℕ → ℤ) (msgs : List (Bytes × ℕ))
      {s' : Parser F}
      → IsInt env.parsers
      → process_all env msgs (new_parser lws samples labels) ≡ some s'
      → IsBuffered s' × HoldsSound s'
  unfolding new_parser
  new_parser-HoldsSound lws samples labels msgs int e =
      process_all-HoldsSound msgs (new_parser lws samples labels) int
        (refl, refl, omega arith, omega arith) (tt, tt) e
