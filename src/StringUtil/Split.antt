-- ===== src/StringUtil/Split.antt =====
-- src/utils/string_util.h: what `split` cuts, and how `count` measures it.
use ftrl_online_pslite.Prelude.{
  ℕ, ◌+◌, ◌≡◌, ◌≢◌, refl, List, [], ◌∷◌, ◌++◌, length, arith, ◌==◌, if◌then◌else◌, ltb, map,
  Bool-cases, inl, inr, true, ◌∙◌, ap, append_assoc, append-nil, ◌≤◌, ◌<◌, sym, All, ==_of_ne,
  ==_refl, length-map, ap₂,
}
use ftrl_online_pslite.Bytes.{Bytes}
use ftrl_online_pslite.StringUtil.{npos, sub64, trim, count_loop, count, split_loop, split}
use ftrl_online_pslite.StringUtil.Trim.{IsTrimmed, trim_of-IsTrimmed}

-- The pieces of a text between the delimiters, from a first piece that is begun already.
unfoldable pub pieces : ℕ → Bytes → Bytes → List Bytes
pieces delim piece [] = piece ∷ []
pieces delim piece (c ∷ s) =
    let next = piece ∷ pieces delim [] s in
    let on = pieces delim (piece ++ c ∷ []) s in if c == delim then next else on

abbrev pub occurrences : ℕ → Bytes → ℕ
occurrences delim [] = 0
occurrences delim (c ∷ s) = (if c == delim then 1 else 0) + occurrences delim s

-- The pieces with the delimiter between them.
abbrev pub join : ℕ → List Bytes → Bytes
join delim [] = []
join delim (p ∷ []) = p
join delim (p ∷ q ∷ ps) = p ++ delim ∷ join delim (q ∷ ps)

abbrev pub Lacks : ℕ → Bytes → Type 0
Lacks delim = All (λ c. c ≢ delim)

last_piece : (last : ℕ) → last < npos → ltb 0 (sub64 npos last) ≡ true
last_piece last h = ground arith

split_loop-pieces :
    (delim last i : ℕ) (piece s : Bytes)
    → last ≤ i
    → i + length s < npos
    → split_loop delim last i piece s ≡ map trim (pieces delim piece s)
unfolding split_loop pieces
split_loop-pieces delim last i piece [] le h = rw (last_piece last (omega arith))
split_loop-pieces delim last i piece (c ∷ s) le h = elim (Bool-cases (c == delim)) [
  | inl e ↦ rw e (
      ap (◌∷◌ (trim piece))
        (split_loop-pieces delim (i + 1) (i + 1) [] s (omega arith) (omega arith)))
  | inr e ↦
      rw e (split_loop-pieces delim last (i + 1) (piece ++ c ∷ []) s (omega arith) (omega arith))
]

length-pieces :
    (delim : ℕ) (piece s : Bytes) → length (pieces delim piece s) ≡ 1 + occurrences delim s
unfolding pieces
length-pieces delim piece [] = omega arith
length-pieces delim piece (c ∷ s) =
    ground (arith, length-pieces delim [] s, length-pieces delim (piece ++ c ∷ []) s)

count_loop_lem :
    (delim last i : ℕ) (s : Bytes)
    → last ≤ i
    → i + length s < npos
    → count_loop delim last i s ≡ 1 + occurrences delim s
unfolding count_loop
count_loop_lem delim last i [] le h = rw (last_piece last (omega arith)) (omega arith)
count_loop_lem delim last i (c ∷ s) le h =
    ground (arith, count_loop_lem delim (i + 1) (i + 1) s, count_loop_lem delim last (i + 1) s)

-- For a text shorter than `npos`, `count` is one more than the number of delimiters, and `split`
-- returns just so many pieces: an empty text gives one piece, and an empty end gives a piece too.
pub length-split :
    (s : Bytes) (delim : ℕ)
    → length s < npos
    → (length (split s delim) ≡ 1 + occurrences delim s) × (count s delim ≡ length (split s delim))
unfolding split count
length-split s delim h =
    let cut = split_loop-pieces delim 0 0 [] s (omega arith) (omega arith) in
    let size : length (split_loop delim 0 0 [] s) ≡ 1 + occurrences delim s =
      rw cut (length-map trim (pieces delim [] s) ∙ length-pieces delim [] s) in
    (size, count_loop_lem delim 0 0 s (omega arith) (omega arith) ∙ sym size)

pieces-append :
    (delim : ℕ) (piece p rest : Bytes)
    → Lacks delim p
    → pieces delim piece (p ++ rest) ≡ pieces delim (piece ++ p) rest
unfolding pieces
pieces-append delim piece [] rest h = rw append-nil
pieces-append delim piece (c ∷ p) rest (hc, hp) = rw (==_of_ne c delim hc) (
    pieces-append delim (piece ++ c ∷ []) p rest hp
    ∙ ap (λ q. pieces delim q rest) (append_assoc piece (c ∷ []) p))

pieces_at_delim :
    (delim : ℕ) (piece s : Bytes) → pieces delim piece (delim ∷ s) ≡ piece ∷ pieces delim [] s
unfolding pieces
pieces_at_delim delim piece s = rw (==_refl delim)

pieces-join :
    (delim : ℕ) (p : Bytes) (ps : List Bytes)
    → All (Lacks delim) (p ∷ ps)
    → pieces delim [] (join delim (p ∷ ps)) ≡ p ∷ ps
unfolding pieces
pieces-join delim p [] (hp, hps) =
    ap (pieces delim []) (sym (append-nil p)) ∙ pieces-append delim [] p [] hp
pieces-join delim p (q ∷ ps) (hp, hps) =
    pieces-append delim [] p (delim ∷ join delim (q ∷ ps)) hp
    ∙ pieces_at_delim delim p (join delim (q ∷ ps))
    ∙ ap (◌∷◌ p) (pieces-join delim q ps hps)

map-trim_of-IsTrimmed : (ps : List Bytes) → All IsTrimmed ps → map trim ps ≡ ps
map-trim_of-IsTrimmed [] h = refl
map-trim_of-IsTrimmed (p ∷ ps) (hp, hps) =
    ap₂ ◌∷◌ (trim_of-IsTrimmed p hp) (map-trim_of-IsTrimmed ps hps)

pub split-join :
    (delim : ℕ) (p : Bytes) (ps : List Bytes)
    → All (Lacks delim) (p ∷ ps)
    → All IsTrimmed (p ∷ ps)
    → length (join delim (p ∷ ps)) < npos
    → split (join delim (p ∷ ps)) delim ≡ p ∷ ps
unfolding split
split-join delim p ps clean trimmed h =
    split_loop-pieces delim 0 0 [] (join delim (p ∷ ps)) (omega arith) (omega arith)
    ∙ ap (map trim) (pieces-join delim p ps clean)
    ∙ map-trim_of-IsTrimmed (p ∷ ps) trimmed
