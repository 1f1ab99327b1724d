-- ===== src/Parser/Message/Repeat.antt =====
-- src/io/parser.cpp: `markid_hashmap0`, by which a repeated impression is dropped.
use ftrl_online_pslite.Prelude.{
  ℕ, ◌+◌, ◌≤◌, ◌≡◌, refl, sym, ap, subst, ◌∙◌, true, false, List, arith, ltb, ◌==◌, if◌then◌else◌,
  ==_refl, Bool-cases, inl, inr,
}
use ftrl_online_pslite.Prelude.Map.{Map, at_or, insert, at_or-insert}
use ftrl_online_pslite.Floats.{Floats}
use ftrl_online_pslite.Bytes.{Bytes}
use ftrl_online_pslite.Clock.{IsStandard}
use ftrl_online_pslite.Verdict.{Verdict, dropped, out_of_bounds, going, chain}
use ftrl_online_pslite.Verdict.Frame.{View, Frames, frames, modify-Frames, guard_at-Frames}
use ftrl_online_pslite.Verdict.Blind.{Blind, blind}
use ftrl_online_pslite.Parser.{Parser, Env, Parse}
use ftrl_online_pslite.Parser.Crc.{crc64}
use ftrl_online_pslite.Parser.Message.{
  Parsed, due0, impression_0, open_0, finish_0, parse_sample_0, open_1, head_1, rank_1, finish_1,
  parse_sample_1, first_seen0, first_seen1,
}

-- What the steps other than the test for a repeated impression leave alone.
instance unfoldable pub seen : {F : Type 0} → View (Parser F)
seen {F = F} = record { Shown = Map ℕ; view = λ s. s.markid_hashmap0 }

-- An impression with this key was counted.
abbrev pub IsSeen : {F : Type 0} → ℕ → Parser F → Type 0
IsSeen key s = 1 ≤ at_or 0 key s.markid_hashmap0

module _ {F : Type 0} ⦃fl : Floats F⦄ (env : Env F) where
  open_0-Frames : (msg : Bytes) → Frames (open_0 env msg)
  unfolding open_0 Frames
  open_0-Frames msg = search frames depth 60 fits 3000

  head_1-Frames : (msg : Bytes) → Frames (head_1 env msg)
  unfolding head_1 Frames
  head_1-Frames msg = search frames depth 60 fits 3000

  rank_1-Frames :
      (array common extend : List Bytes) (code filter : Bytes)
      → Frames (rank_1 env array common extend code filter)
  unfolding rank_1 Frames
  rank_1-Frames array common extend code filter = search frames depth 60 fits 3000

  open_1-Frames : (msg : Bytes) → Frames (open_1 env msg)
  unfolding open_1 Frames
  open_1-Frames msg = search (frames, head_1-Frames, rank_1-Frames) depth 10

  finish_0-Frames : (sec : List Bytes) → Frames (finish_0 env sec)
  unfolding finish_0 Frames
  finish_0-Frames sec = search frames depth 60 fits 3000

  first_seen1-Frames : (markid : Bytes) → Frames (first_seen1 env markid)
  unfolding first_seen1 Frames seen
  first_seen1-Frames markid = search (frames, modify-Frames, guard_at-Frames) depth 10

  impression_0-Frames : (raw : Bytes) → Frames (impression_0 env raw)
  unfolding impression_0 Frames seen
  impression_0-Frames raw = search (frames, open_0-Frames, modify-Frames) depth 30

  pub parse_sample_1-Frames : (raw : Bytes) → Frames (parse_sample_1 env raw)
  unfolding parse_sample_1 Frames finish_1 seen
  parse_sample_1-Frames raw =
      search (frames, open_1-Frames, first_seen1-Frames, modify-Frames) depth 30

  open_0-Blind : (msg : Bytes) → Blind (open_0 env msg)
  unfolding open_0 Blind
  open_0-Blind msg = search blind depth 60 fits 3000

  impression_0-Blind : (raw : Bytes) → Blind (impression_0 env raw)
  unfolding impression_0 Blind
  impression_0-Blind raw = search (blind, open_0-Blind) depth 30

  due0-eq-false : IsStandard env.strftime → due0 env ≡ false
  due0-eq-false std = rw std.dollar refl

  -- The map once a markid was counted.
  abbrev counted : Bytes → Map ℕ → Map ℕ
  counted markid m = let key = crc64 env.crc64_table markid in insert key (at_or 0 key m + 1) m

  abbrev verdict_of : Bytes → Map ℕ → Verdict (Unit {0})
  verdict_of markid m = if at_or 0 (crc64 env.crc64_table markid) m == 0 then going tt else dropped

  at_or-counted :
      (markid : Bytes) (m : Map ℕ)
      → at_or 0 (crc64 env.crc64_table markid) (counted markid m)
        ≡ at_or 0 (crc64 env.crc64_table markid) m + 1
  at_or-counted markid m =
      let key = crc64 env.crc64_table markid in
      at_or-insert 0 key key (at_or 0 key m + 1) m ∙ rw (==_refl key) refl

  first_seen0_lem :
      (markid : Bytes) (s : Parser F)
      → IsStandard env.strftime
      → first_seen0 env markid s ≡ (
        record s { markid_hashmap0 = counted markid s.markid_hashmap0 },
        verdict_of markid s.markid_hashmap0,
      )
  unfolding first_seen0
  first_seen0_lem markid s std =
      let m = s.markid_hashmap0 in
      let again = at_or-counted markid m in
      elim (Bool-cases (at_or 0 (crc64 env.crc64_table markid) m == 0)) [
        | inl e ↦
            let new : ltb 1 (at_or 0 (crc64 env.crc64_table markid) m + 1) ≡ false = ground arith in
            rw (again, new, e, due0-eq-false std) (ground arith)
        | inr e ↦
            let old : ltb 1 (at_or 0 (crc64 env.crc64_table markid) m + 1) ≡ true = ground arith in
            rw (again, old, e) refl
      ]

  -- What follows the part in front of the test.
  abbrev from_mark : List Bytes × Bytes → Parse F (Parsed F)
  from_mark (sec, markid) s = chain (λ u. finish_0 env sec) (first_seen0 env markid s)

  finish_map :
      (sec : List Bytes) (s : Parser F) (v : Verdict (Unit {0}))
      → (chain (λ u. finish_0 env sec) (s, v)).0.markid_hashmap0 ≡ s.markid_hashmap0
  unfolding Frames seen
  finish_map sec s dropped = refl
  finish_map sec s out_of_bounds = refl
  finish_map sec s (going u) = finish_0-Frames sec s

  from_mark-map :
      (sec : List Bytes) (markid : Bytes) (s : Parser F)
      → IsStandard env.strftime
      → (from_mark (sec, markid) s).0.markid_hashmap0 ≡ counted markid s.markid_hashmap0
  from_mark-map sec markid s std =
      let s1 = record s { markid_hashmap0 = counted markid s.markid_hashmap0 } in
      rw (first_seen0_lem markid s std) (finish_map sec s1 (verdict_of markid s.markid_hashmap0))

  IsSeen-counted :
      (key : ℕ) (markid : Bytes) (m : Map ℕ)
      → 1 ≤ at_or 0 key m
      → 1 ≤ at_or 0 key (counted markid m)
  IsSeen-counted key markid m h =
      let k = crc64 env.crc64_table markid in
      rw (at_or-insert 0 k key (at_or 0 k m + 1) m) (ground arith)

  -- A markid that was counted is dropped.
  from_mark-dropped :
      (sec : List Bytes) (markid : Bytes) (s : Parser F)
      → IsStandard env.strftime
      → IsSeen (crc64 env.crc64_table markid) s
      → (from_mark (sec, markid) s).1 ≡ dropped
  from_mark-dropped sec markid s std h =
      let old : (at_or 0 (crc64 env.crc64_table markid) s.markid_hashmap0 == 0) ≡ false =
        ground arith in
      rw (first_seen0_lem markid s std, old) refl

  chain-IsSeen :
      (key : ℕ) (r : Parser F × Verdict (List Bytes × Bytes))
      → IsStandard env.strftime
      → IsSeen key r.0
      → IsSeen key (chain from_mark r).0
  chain-IsSeen key (s, dropped) std h = h
  chain-IsSeen key (s, out_of_bounds) std h = h
  chain-IsSeen key (s, going (sec, markid)) std h =
      subst (λ m. 1 ≤ at_or 0 key m) (sym (from_mark-map sec markid s std))
        (IsSeen-counted key markid s.markid_hashmap0 h)

  -- An impression that was counted stays so whatever is parsed.
  pub parse_sample_0-IsSeen :
      (key : ℕ) (raw : Bytes) (s : Parser F)
      → IsStandard env.strftime
      → IsSeen key s
      → IsSeen key (parse_sample_0 env raw s).0
  unfolding parse_sample_0 Frames seen
  parse_sample_0-IsSeen key raw s std h =
      chain-IsSeen key (impression_0 env raw s) std
        (subst (λ m. 1 ≤ at_or 0 key m) (sym (impression_0-Frames raw s)) h)

  chain-marks :
      (r : Parser F × Verdict (List Bytes × Bytes)) (s1 : Parser F) (a : Parsed F)
      → IsStandard env.strftime
      → chain from_mark r ≡ (s1, going a)
      → (sec : List Bytes) × (markid : Bytes) × (r.1 ≡ going (sec, markid))
        × IsSeen (crc64 env.crc64_table markid) s1
  chain-marks (s, dropped) s1 a std e = cc
  chain-marks (s, out_of_bounds) s1 a std e = cc
  chain-marks (s, going (sec, markid)) s1 a std e = (
    sec,
    markid,
    refl,
    subst (λ m. 1 ≤ at_or 0 (crc64 env.crc64_table markid) m)
        (sym (from_mark-map sec markid s std) ∙ ap (λ r. r.0.markid_hashmap0) e)
        (subst (λ n. 1 ≤ n) (sym (at_or-counted markid s.markid_hashmap0)) (omega arith)),
  )

  chain-dropped :
      (r : Parser F × Verdict (List Bytes × Bytes)) (sec : List Bytes) (markid : Bytes)
      → IsStandard env.strftime
      → r.1 ≡ going (sec, markid)
      → IsSeen (crc64 env.crc64_table markid) r.0
      → (chain from_mark r).1 ≡ dropped
  chain-dropped (s, v) sec markid std e h =
      ap (λ w. (chain from_mark (s, w)).1) e ∙ from_mark-dropped sec markid s std h

  -- An impression that was parsed has a key by which it is dropped from then on.
  pub parse_sample_0-marks :
      (raw : Bytes) (s s1 : Parser F) (a : Parsed F)
      → IsStandard env.strftime
      → parse_sample_0 env raw s ≡ (s1, going a)
      → (key : ℕ) × IsSeen key s1
        × ((s2 : Parser F) → IsSeen key s2 → (parse_sample_0 env raw s2).1 ≡ dropped)
  unfolding parse_sample_0 Frames seen Blind
  parse_sample_0-marks raw s s1 a std e =
      let (sec, markid, mark, counted) = chain-marks (impression_0 env raw s) s1 a std e in
      (
        crc64 env.crc64_table markid,
        counted,
        λ s2 h.
            chain-dropped (impression_0 env raw s2) sec markid std
              (impression_0-Blind raw s2 s ∙ mark)
              (subst (λ m. 1 ≤ at_or 0 (crc64 env.crc64_table markid) m)
                (sym (impression_0-Frames raw s2)) h),
      )
