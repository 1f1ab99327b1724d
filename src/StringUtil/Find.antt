-- ===== src/StringUtil/Find.antt =====
-- src/utils/string_util.h: what `find_kv` and `last_state` cut out.
use ftrl_online_pslite.Prelude.{
  ℕ, zero, suc, ◌+◌, ◌%◌, ◌^◌, ◌≡◌, ◌≢◌, refl, [], ◌∷◌, ◌++◌, length, arith, take, drop, Bool-cases,
  inl, inr, true, false, ◌∙◌, ap, append_assoc, ◌≤◌, ◌<◌, sym, ==_of_ne, ==_refl, length-append,
  take-append, drop-append, ap₂, lt→ltb, le→ltb_false,
}
use native.Mathlib.Nat.{zero-add}
use ftrl_online_pslite.Bytes.{Bytes, codes}
use ftrl_online_pslite.StringUtil.{npos, sub64, starts_with, find_loop, find, find_kv}
use ftrl_online_pslite.StringUtil.Split.{Lacks}

starts_with-append : (s key : Bytes) → starts_with s key ≡ true → (rest : Bytes) × (s ≡ key ++ rest)
starts_with-append s [] h = (s, refl)
starts_with-append [] (p ∷ ps) h = absurd (cc)
starts_with-append (c ∷ s) (p ∷ ps) h =
    let (rest, same) = starts_with-append s ps (ground arith) in (rest, ap₂ ◌∷◌ (ground arith) same)

starts_with-false : (s key : Bytes) → ((rest : Bytes) → s ≢ key ++ rest) → starts_with s key ≡ false
starts_with-false s key h = elim (Bool-cases (starts_with s key)) [
  | inl e ↦ let (rest, same) = starts_with-append s key e in absurd (h rest same)
  | inr e ↦ e
]

find_loop_missing :
    (key s : Bytes) (i : ℕ) → ((a b : Bytes) → s ≢ a ++ (key ++ b)) → find_loop key s i ≡ npos
unfolding find_loop
find_loop_missing key [] i h = rw (starts_with-false [] key (λ b. h [] b))
find_loop_missing key (c ∷ s) i h =
    rw (starts_with-false (c ∷ s) key (λ b. h [] b))
      (find_loop_missing key s (i + 1) (λ a b e. h (c ∷ a) b (ap (◌∷◌ c) e)))

drop_far : (s : Bytes) (n : ℕ) → length s < n → drop n s ≡ []
drop_far [] zero h = refl
drop_far [] (suc n) h = refl
drop_far (c ∷ s) zero h = absurd (omega arith)
drop_far (c ∷ s) (suc n) h = drop_far s n (omega arith)

take_far : (s : Bytes) (n : ℕ) → length s ≤ n → take n s ≡ s
take_far [] zero h = refl
take_far [] (suc n) h = refl
take_far (c ∷ s) zero h = absurd (omega arith)
take_far (c ∷ s) (suc n) h = ap (◌∷◌ c) (take_far s n (omega arith))

find_past : (s key : Bytes) → length s < npos → find s key npos ≡ npos
unfolding find
find_past s key h = rw (lt→ltb (length s) npos h)

find_within : (s key : Bytes) (n : ℕ) → n ≤ length s → find s key n ≡ find_loop key (drop n s) n
unfolding find
find_within s key n h = rw (le→ltb_false (length s) n h)

-- In a text without the key `find_kv` returns the whole text, not an empty one.
pub find_kv_missing :
    (s key : Bytes) → length s < npos → ((a b : Bytes) → s ≢ a ++ (key ++ b)) → find_kv s key ≡ s
unfolding find_kv
find_kv_missing s key h missing =
    let none0 : find s key 0 ≡ npos =
      find_within s key 0 (omega arith) ∙ find_loop_missing key s 0 missing in
    rw (none0, find_past s (codes ":") h, find_past s (codes "|") h) (take_far s npos (omega arith))

find_loop_char :
    (d : ℕ) (p r : Bytes) (i : ℕ) → Lacks d p → find_loop (d ∷ []) (p ++ d ∷ r) i ≡ i + length p
unfolding find_loop
find_loop_char d [] r i h = rw (==_refl d) (omega arith)
find_loop_char d (c ∷ p) r i (hc, hp) =
    rw (==_of_ne c d hc) (find_loop_char d p r (i + 1) hp ∙ omega arith)

drop_add : (a t : Bytes) (n : ℕ) → drop (length a + n) (a ++ t) ≡ drop n t
drop_add [] t n = ap (λ k. drop k t) (zero-add n)
drop_add (c ∷ a) t n =
    let next : suc (length a) + n ≡ suc (length a + n) = omega arith in
    ap (λ k. drop k (c ∷ (a ++ t))) next ∙ drop_add a t n

find_char :
    (d : ℕ) (a p r : Bytes)
    → Lacks d p
    → find (a ++ (p ++ d ∷ r)) (d ∷ []) (length a) ≡ length a + length p
find_char d a p r h =
    find_within (a ++ (p ++ d ∷ r)) (d ∷ []) (length a)
      (omega (arith, length-append a (p ++ d ∷ r)))
    ∙ ap (λ s. find_loop (d ∷ []) s (length a)) (drop-append a (p ++ d ∷ r))
    ∙ find_loop_char d p r (length a) h

-- A text around a `key:value|`, and where its two marks stand.
module _ (a mid v rest : Bytes) where
  abbrev pub marked : Bytes
  marked = a ++ (mid ++ b':' ∷ (v ++ b'|' ∷ rest))

  marked_regroup : marked ≡ (a ++ mid) ++ ((b':' ∷ v) ++ b'|' ∷ rest)
  marked_regroup = sym (append_assoc a mid (b':' ∷ (v ++ b'|' ∷ rest)))

  bar_in_marked :
      Lacks b'|' v
      → find marked (codes "|") (length a + length mid) ≡ length a + length mid + 1 + length v
  bar_in_marked h =
      let size = length-append a mid in
      rw (marked_regroup, ← size)
        (find_char b'|' (a ++ mid) (b':' ∷ v) rest (omega arith, h) ∙ omega arith)

  value_in_marked : take (length v) (drop (length a + length mid + 1) marked) ≡ v
  value_in_marked =
      let size = length-append a mid in
      rw (marked_regroup, ← size)
        (ap (take (length v)) (drop_add (a ++ mid) (b':' ∷ (v ++ b'|' ∷ rest)) 1)
          ∙ take-append v (b'|' ∷ rest))

  length-marked : length marked ≡ length a + length mid + length v + length rest + 2
  length-marked = omega (
    arith,
    length-append a (mid ++ b':' ∷ (v ++ b'|' ∷ rest)),
    length-append mid (b':' ∷ (v ++ b'|' ∷ rest)),
    length-append v (b'|' ∷ rest),
  )

  -- If the first occurrence of the key begins where `a` ends, `mid` is the text from there to the
  -- next colon, and `v` the text from that colon to the next bar, `find_kv` returns `v`.
  pub find_kv_present :
      (key : Bytes)
      → length marked < npos
      → find marked key 0 ≡ length a
      → Lacks b':' mid
      → Lacks b'|' v
      → find_kv marked key ≡ v
  unfolding find_kv
  find_kv_present key h first no_colon no_bar =
      let start0 = length a + length mid in
      let begin : (start0 + 1) % 2 ^ 64 ≡ start0 + 1 = omega (arith, length-marked) in
      let size : sub64 (sub64 (start0 + 1 + length v) start0) 1 ≡ length v =
        omega (arith, length-marked) in
      rw
        (first, find_char b':' a mid (v ++ b'|' ∷ rest) no_colon, bar_in_marked no_bar, begin, size)
        value_in_marked
