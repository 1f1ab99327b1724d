-- ===== src/Parser/Buffer/Bounds.antt =====
-- src/io/parser.cpp: the bounds of the buffers of `Process`, and what the merge loop leaves in them.
use ftrl_online_pslite.Prelude.{
  ℕ, zero, suc, ◌+◌, ◌≤◌, ◌<◌, ◌≡◌, refl, ap, ap₂, ◌∙◌, some, List, [], ◌∷◌, ◌++◌, map, arith,
  lt→leb_false, ==_of_ne, ==_refl,
}
use ftrl_online_pslite.Prelude.Int.{ℤ}
use ftrl_online_pslite.Sample.{Sample, put, entries, entries-put}
use ftrl_online_pslite.Learner.Labels.{Kind}
use ftrl_online_pslite.Parser.{Parser}
use ftrl_online_pslite.Parser.Buffer.{room_0, limit_1, batch_size, merge, write_labels}

module _ {F : Type 0} where
  -- The counters are the lengths of the buffers, fewer than a batch of impressions waits, and the
  -- behaviours keep to their limit.
  abbrev pub IsBuffered : Parser F → Type 0
  IsBuffered s =
      (s.cntl_0 ≡ s.idx_0) × (s.cntl_1 ≡ s.idx_1) × (s.idx_0 < batch_size) × (s.idx_1 ≤ limit_1)

  -- What `Process` writes of a sample.
  abbrev pub content : Sample F → List ℕ × F
  content x = (x.features, x.ctr)

  abbrev pub contents : ℕ → ℕ → (ℕ → Sample F) → List (List ℕ × F)
  contents i n f = map content (entries i n f)

  contents-put_before :
      (i n j : ℕ) (x : Sample F) (f : ℕ → Sample F)
      → j < i
      → contents i n (put j x f) ≡ contents i n f
  contents-put_before i zero j x f h = refl
  contents-put_before i (suc n) j x f h =
      rw (==_of_ne j i (omega arith))
        (ap (◌∷◌ (content (f i))) (contents-put_before (i + 1) n j x f (omega arith)))

  contents-put_after :
      (i n j : ℕ) (x : Sample F) (f : ℕ → Sample F)
      → i + n ≤ j
      → contents i n (put j x f) ≡ contents i n f
  contents-put_after i zero j x f h = refl
  contents-put_after i (suc n) j x f h =
      rw (==_of_ne j i (omega arith))
        (ap (◌∷◌ (content (f i))) (contents-put_after (i + 1) n j x f (omega arith)))

  contents_append :
      (i n k : ℕ) (f : ℕ → Sample F) → contents i (n + k) f ≡ contents i n f ++ contents (i + n) k f
  contents_append i zero k f =
      let here : i ≡ i + 0 = omega arith in
      let size : 0 + k ≡ k = omega arith in ap₂ (λ n j. contents j n f) size here
  contents_append i (suc n) k f =
      let next : i + 1 + n ≡ i + suc n = omega arith in
      let size : suc n + k ≡ suc (n + k) = omega arith in
      ap (λ m. contents i m f) size
      ∙ ap (◌∷◌ (content (f i)))
          (contents_append (i + 1) n k f ∙ ap (λ j. contents (i + 1) n f ++ contents j k f) next)

  -- The merge loop with room enough ends without an access out of bounds, keeps what stands in
  -- front, and puts the behaviours behind it.
  merge_run :
      (n i j : ℕ) (from to : ℕ → Sample F)
      → j + n ≤ room_0
      → (to' : ℕ → Sample F) × (merge n i j from to ≡ some to')
        × ((k m : ℕ) → k + m ≤ j → contents k m to' ≡ contents k m to)
        × (contents j n to' ≡ contents i n from)
  merge_run zero i j from to h = (to, refl, λ k m le. refl, refl)
  merge_run (suc n) i j from to h =
      let moved = record (to j) { ctr = (from i).ctr; features = (from i).features } in
      let (to', done, front, back) =
        merge_run n (i + 1) (j + 1) from (put j moved to) (omega arith) in
      let here : contents j 1 to' ≡ content moved ∷ [] =
        front j 1 (omega arith) ∙ rw (==_refl j) refl in
      let split : suc n ≡ 1 + n = omega arith in
      (
        to',
        rw (lt→leb_false j room_0 (omega arith)) done,
        λ k m le. front k m (omega arith) ∙ contents-put_after k m j moved to le,
        ap (λ m. contents j m to') split ∙ contents_append j 1 n to' ∙ ap₂ (◌++◌) here back,
      )

  -- A batch of the two buffers.
  pub merge_lem :
      (n j : ℕ) (from to : ℕ → Sample F)
      → j + n ≤ room_0
      → (to' : ℕ → Sample F) × (merge n 0 j from to ≡ some to')
        × (contents 0 (j + n) to' ≡ contents 0 j to ++ contents 0 n from)
  merge_lem n j from to h =
      let (to', done, front, back) = merge_run n 0 j from to h in
      let here : 0 + j ≡ j = omega arith in
      (
        to',
        done,
        contents_append 0 j n to'
            ∙ ap₂ (◌++◌) (front 0 j (omega arith)) (ap (λ k. contents k n to') here ∙ back),
      )

-- The label rows of the learners from number `i` on, of `n` entries each.
abbrev pub rows_of : ℕ → ℕ → List Kind → (ℕ → ℕ → ℤ) → List (List ℤ)
rows_of n i [] rows = []
rows_of n i (k ∷ ks) rows = entries 0 n (rows i) ∷ rows_of n (i + 1) ks rows

-- One more label for each learner.
abbrev pub add_each : List (List ℤ) → List ℤ → List (List ℤ)
add_each [] ys = []
add_each (r ∷ rs) [] = r ∷ rs
add_each (r ∷ rs) (y ∷ ys) = (r ++ y ∷ []) ∷ add_each rs ys

rows_of-put :
    (n i j : ℕ) (ks : List Kind) (row : ℕ → ℤ) (rows : ℕ → ℕ → ℤ)
    → j < i
    → rows_of n i ks (put j row rows) ≡ rows_of n i ks rows
rows_of-put n i j [] row rows h = refl
rows_of-put n i j (k ∷ ks) row rows h =
    rw (==_of_ne j i (omega arith))
      (ap (◌∷◌ (entries 0 n (rows i))) (rows_of-put n (i + 1) j ks row rows (omega arith)))

write_labels_before :
    (check : Kind → ℤ) (at i j : ℕ) (ks : List Kind) (rows : ℕ → ℕ → ℤ)
    → j < i
    → write_labels check at i ks rows j ≡ rows j
write_labels_before check at i j [] rows h = refl
write_labels_before check at i j (k ∷ ks) rows h =
    write_labels_before check at (i + 1) j ks _ (omega arith) ∙ rw (==_of_ne i j (omega arith)) refl

-- Writing the labels behind the first `n` adds each learner's to its row.
pub rows_of-write_labels :
    (check : Kind → ℤ) (n i : ℕ) (ks : List Kind) (rows : ℕ → ℕ → ℤ)
    → rows_of (suc n) i ks (write_labels check n i ks rows)
      ≡ add_each (rows_of n i ks rows) (map check ks)
rows_of-write_labels check n i [] rows = refl
rows_of-write_labels check n i (k ∷ ks) rows =
    let row = put n (check k) (rows i) in
    let here : put i row rows i ≡ row = rw (==_refl i) refl in
    ap₂ (◌∷◌)
      (ap (entries 0 (suc n))
          (write_labels_before check n (i + 1) i ks (put i row rows) (omega arith) ∙ here)
        ∙ entries-put n (check k) (rows i))
      (rows_of-write_labels check n (i + 1) ks (put i row rows)
        ∙ ap (λ rs. add_each rs (map check ks)) (rows_of-put n (i + 1) i ks row rows (omega arith)))
