-- ===== src/PsServer/Saved.antt =====
-- src/core/ps_server.cpp and learner.cpp: a model that the server saves, loaded by a learner.
use ftrl_online_pslite.Prelude.{
  ℕ, zero, suc, ◌+◌, ◌≤◌, ◌<◌, ◌≡◌, ◌≢◌, inl, inr, refl, ap, ◌∙◌, true, some, List, [], ◌∷◌, ◌++◌,
  length, arith, ltb, ◌==◌, ==_of_ne, ==_iff, le→ltb_false, if◌then◌else◌, Bool-cases, All, Elem,
  Above, IsStrictlySorted, Above-IsStrictlySorted, Above-Elem-lt, append_assoc, append-nil,
}
use ftrl_online_pslite.Prelude.Map.{Map, at_or, insert, keys_of, at_or-insert}
use ftrl_online_pslite.Floats.{Floats}
use ftrl_online_pslite.Bytes.{Bytes}
use ftrl_online_pslite.StringUtil.{Parsers, npos, split, is_float, is_uint64}
use ftrl_online_pslite.StringUtil.Trim.{IsTrimmed}
use ftrl_online_pslite.StringUtil.Split.{Lacks, split-join}
use ftrl_online_pslite.Learner.{nought}
use ftrl_online_pslite.Learner.Model.{lines_from, load_fields, load_lines, load_model}
use ftrl_online_pslite.PsServer.{Printer, put_sorted, sorted, line_of, save_loop, saved_model}
use ftrl_online_pslite.PsServer.Order.{
  at_or-sorted, sorted-IsStrictlySorted, Elem-sorted, length-sorted,
}

pub lines_from-line :
    (piece a s : Bytes)
    → Lacks b'\n' a
    → lines_from piece (a ++ b'\n' ∷ s) ≡ (piece ++ a) ∷ lines_from [] s
unfolding lines_from
lines_from-line piece [] s h = rw append-nil refl
lines_from-line piece (c ∷ a) s (hc, h) = rw (==_of_ne c b'\n' hc) (
    lines_from-line (piece ++ c ∷ []) a s h
    ∙ ap (λ x. x ∷ lines_from [] s) (append_assoc piece (c ∷ []) a))

module _ {F : Type 0} (p : Parsers F) (pr : Printer F) (rounded : F → F) where
  -- What an entry needs to come back: its two texts are parsed to the key and to the rounded
  -- weight, and hold no comma, no line feed and no space at their ends.
  abbrev pub IsReadable : ℕ → F → Type 0
  IsReadable k v =
      (is_uint64 p (pr.show_key k) ≡ some k)
      × (is_float p (pr.show_weight v) ≡ some (rounded v))
      × All (Lacks b',') (pr.show_key k ∷ pr.show_weight v ∷ [])
      × All IsTrimmed (pr.show_key k ∷ pr.show_weight v ∷ [])
      × Lacks b'\n' (line_of pr k v)
      × (length (line_of pr k v) < npos)

  abbrev pub AllReadable : Map F → Type 0
  AllReadable [] = Unit
  AllReadable ((k, v) ∷ m) = IsReadable k v × AllReadable m

  put_sorted-AllReadable :
      (k : ℕ) (v : F) (m : Map F) → IsReadable k v → AllReadable m → AllReadable (put_sorted k v m)
  unfolding put_sorted
  put_sorted-AllReadable k v [] h hs = (h, tt)
  put_sorted-AllReadable k v ((j, w) ∷ m) h (hw, hs) = elim (Bool-cases (ltb k j)) [
    | inl e ↦ rw e (h, (hw, hs))
    | inr e ↦ elim (Bool-cases (k == j)) [
      | inl e' ↦ rw (e, e') (h, hs)
      | inr e' ↦ rw (e, e') (hw, put_sorted-AllReadable k v m h hs)
    ]
  ]

  pub sorted-AllReadable : (m : Map F) → AllReadable m → AllReadable (sorted m)
  unfolding sorted
  sorted-AllReadable [] h = tt
  sorted-AllReadable ((k, v) ∷ m) (h, hs) =
      put_sorted-AllReadable k v (sorted m) h (sorted-AllReadable m hs)

  -- The lines of a map.
  abbrev pub lines_of : Map F → List Bytes
  lines_of [] = []
  lines_of ((k, v) ∷ m) = line_of pr k v ∷ lines_of m

  lines_from-save_loop :
      (i : ℕ) (m : Map F)
      → AllReadable m
      → i + length m ≤ 10000001
      → lines_from [] (save_loop pr i m) ≡ lines_of m
  unfolding save_loop lines_from
  lines_from-save_loop i [] h few = refl
  lines_from-save_loop i ((k, v) ∷ m) ((hk, hv, comma, trimmed, feed, short), hs) few =
      rw (le→ltb_false 10000000 i (omega arith)) (
        lines_from-line [] (line_of pr k v) (save_loop pr (i + 1) m) feed
        ∙ ap (λ x. line_of pr k v ∷ x) (lines_from-save_loop (i + 1) m hs (omega arith)))

module _ {F : Type 0} (rounded : F → F) where
  -- The map with rounded weights.
  abbrev pub rounded_map : Map F → Map F
  rounded_map [] = []
  rounded_map ((k, v) ∷ m) = (k, rounded v) ∷ rounded_map m

  rounded_map-put_sorted :
      (k : ℕ) (v : F) (m : Map F)
      → rounded_map (put_sorted k v m) ≡ put_sorted k (rounded v) (rounded_map m)
  unfolding put_sorted
  rounded_map-put_sorted k v [] = refl
  rounded_map-put_sorted k v ((j, w) ∷ m) = ground (arith, rounded_map-put_sorted k v m)

  pub rounded_map-sorted : (m : Map F) → rounded_map (sorted m) ≡ sorted (rounded_map m)
  unfolding sorted
  rounded_map-sorted [] = refl
  rounded_map-sorted ((k, v) ∷ m) =
      rounded_map-put_sorted k v (sorted m) ∙ ap (put_sorted k (rounded v)) (rounded_map-sorted m)

module _ {F : Type 0} ⦃fl : Floats F⦄ (p : Parsers F) (pr : Printer F) (rounded : F → F) where
  at_or-absent :
      (d : F) (j k : ℕ) (m : Map F)
      → Above k (keys_of m)
      → j ≤ k
      → at_or d j (rounded_map rounded m) ≡ d
  unfolding at_or
  at_or-absent d j k [] h le = refl
  at_or-absent d j k ((i, w) ∷ m) (lt, h) le =
      rw (==_of_ne i j (omega arith)) (at_or-absent d j i m h (omega arith))

  split-line_of :
      (k : ℕ) (v : F)
      → IsReadable p pr rounded k v
      → split (line_of pr k v) b',' ≡ pr.show_key k ∷ pr.show_weight v ∷ []
  split-line_of k v (hk, hv, comma, trimmed, feed, short) =
      split-join b',' (pr.show_key k) (pr.show_weight v ∷ []) comma trimmed short

  -- The first line and a later one.
  load_fields-bias :
      (v : F) (w : Map F)
      → IsReadable p pr rounded 0 v
      → load_fields p 1 (split (line_of pr 0 v) b',') w ≡ insert 0 (rounded v) (insert 0 nought w)
  unfolding load_fields
  load_fields-bias v w h =
      let (hk, hv, comma, trimmed, feed, short) = h in
      ap (λ fs. load_fields p 1 fs w) (split-line_of 0 v h) ∙ rw hv refl

  load_fields-feature :
      (n k : ℕ) (v : F) (w : Map F)
      → n ≢ 1
      → IsReadable p pr rounded k v
      → load_fields p n (split (line_of pr k v) b',') w ≡ insert k (rounded v) w
  unfolding load_fields
  load_fields-feature n k v w ne h =
      let (hk, hv, comma, trimmed, feed, short) = h in
      ap (λ fs. load_fields p n fs w) (split-line_of k v h) ∙ rw (==_of_ne n 1 ne, hk, hv) refl

  pub load_lines-lines_of :
      (cntt j : ℕ) (m w : Map F)
      → 1 ≤ cntt
      → AllReadable p pr rounded m
      → IsStrictlySorted (keys_of m)
      → at_or nought j (load_lines p cntt (lines_of p pr rounded m) w)
        ≡ at_or (at_or nought j w) j (rounded_map rounded m)
  unfolding load_lines load_fields at_or
  load_lines-lines_of cntt j [] w le h s = refl
  load_lines-lines_of cntt j ((k, v) ∷ m) w le (h, hs) s =
      let w' = insert k (rounded v) w in
      let later =
        load_lines-lines_of (cntt + 1) j m w' (omega arith) hs
          (Above-IsStrictlySorted k (keys_of m) s) in
      let read = at_or-insert nought k j (rounded v) w in
      ap (λ w''. at_or nought j (load_lines p (cntt + 1) (lines_of p pr rounded m) w''))
        (load_fields-feature (cntt + 1) k v w (omega arith) h)
      ∙ later
      ∙ elim (Bool-cases (k == j)) [
        | inl e ↦ rw (read, e) (at_or-absent (rounded v) j k m s (omega (arith, (==_iff k j).0 e)))
        | inr e ↦ rw (read, e) refl
      ]

  pub load_lines-sorted :
      (j : ℕ) (m : Map F)
      → AllReadable p pr rounded m
      → IsStrictlySorted (keys_of m)
      → Elem 0 (keys_of m)
      → at_or nought j (load_lines p 0 (lines_of p pr rounded m) [])
        ≡ at_or nought j (rounded_map rounded m)
  unfolding load_lines at_or
  load_lines-sorted j [] h s z = refl
  load_lines-sorted j ((suc k, v) ∷ m) h s (inl e) = absurd (omega arith)
  load_lines-sorted j ((suc k, v) ∷ m) h s (inr z) =
      absurd (omega (arith, Above-Elem-lt (suc k) 0 (keys_of m) s z))
  load_lines-sorted j ((zero, v) ∷ m) (h, hs) s z =
      let w0 = insert 0 (rounded v) (insert 0 nought []) in
      let read0 =
        at_or-insert nought 0 j (rounded v) (insert 0 nought [])
        ∙ ap (λ x. if 0 == j then rounded v else x) (at_or-insert nought 0 j nought []) in
      ap (λ w. at_or nought j (load_lines p 1 (lines_of p pr rounded m) w))
        (load_fields-bias v [] h)
      ∙ load_lines-lines_of 1 j m w0 (omega arith) hs (Above-IsStrictlySorted 0 (keys_of m) s)
      ∙ elim (Bool-cases (0 == j)) [
        | inl e ↦ rw (read0, e) (at_or-absent (rounded v) j 0 m s (omega (arith, (==_iff 0 j).0 e)))
        | inr e ↦ rw (read0, e) refl
      ]

  -- A model that holds key 0, has at most ten million entries and whose entries can be read back is
  -- loaded from the file that it is saved to: each key has its weight again, up to the rounding of
  -- the printed text, and no other key has one.
  pub load_model-saved_model :
      (w : Map F)
      → Elem 0 (keys_of w)
      → length w ≤ 10000000
      → AllReadable p pr rounded w
      → ((load_model p (some (saved_model pr w)) []).1 ≡ true)
        × ((j : ℕ)
            → at_or nought j (load_model p (some (saved_model pr w)) []).0
              ≡ at_or nought j (rounded_map rounded w))
  unfolding load_model saved_model
  load_model-saved_model w z few h =
      let hs = sorted-AllReadable p pr rounded w h in
      let text =
        lines_from-save_loop p pr rounded 1 (sorted w) hs (omega (arith, length-sorted w)) in
      (
        refl,
        λ j.
            ap (λ ls. at_or nought j (load_lines p 0 ls [])) text
            ∙ load_lines-sorted j (sorted w) hs (sorted-IsStrictlySorted w) ((Elem-sorted 0 w).1 z)
            ∙ ap (at_or nought j) (rounded_map-sorted rounded w)
            ∙ at_or-sorted nought j (rounded_map rounded w),
      )
