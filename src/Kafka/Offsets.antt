-- ===== src/Kafka/Offsets.antt =====
-- src/io/message_kafka.cpp: what `lastset` and `newset` hold after an hour.
use ftrl_online_pslite.Prelude.{
  ◌≡◌, refl, sym, ap, subst, ap₂, ◌∙◌, true, false, List, [], ◌∷◌, map, if◌then◌else◌, arith, All,
  Bool-cases, inl, inr,
}
use ftrl_online_pslite.Prelude.Int.{ℤ, pos, negsuc, ltb_ℤ, eq_ℤ, eq_ℤ_iff}
use ftrl_online_pslite.Kafka.{Message, Slot, new_slot, long_max, note}
use ftrl_online_pslite.Kafka.Hour.{track}

-- The offsets of the messages of one partition, in their order.
abbrev pub offsets : ℤ → List Message → List ℤ
offsets p [] = []
offsets p (m ∷ ms) = if eq_ℤ m.partition p then m.offset ∷ offsets p ms else offsets p ms

-- The broker numbers the messages of a partition upwards, in a `long`.
abbrev pub IsOrdered : ℤ → List ℤ → Type 0
IsOrdered a [] = Unit
IsOrdered a (o ∷ os) = (ltb_ℤ a o ≡ true) × (ltb_ℤ o long_max ≡ true) × IsOrdered o os

abbrev pub IsDistinct : List ℤ → Type 0
IsDistinct [] = Unit
IsDistinct (p ∷ ps) = All (λ q. eq_ℤ p q ≡ false) ps × IsDistinct ps

abbrev pub last_or : ℤ → List ℤ → ℤ
last_or a [] = a
last_or a (o ∷ os) = last_or o os

-- The first offset, and the last of the others, which stays 0 where there is none.
abbrev pub slot_of : ℤ → List ℤ → Slot
slot_of p [] = new_slot p
slot_of p (o ∷ os) = record { partition = p; lastset = last_or (pos 0) os; newset = o }

-- One offset, entered in the slot of its partition.
abbrev enter : ℤ → Slot → Slot
enter o s =
    if ltb_ℤ o s.newset
    then record s { newset = o }
    else if ltb_ℤ s.lastset o
    then record s { lastset = o }
    else s

abbrev note_one : Message → Slot → Slot
note_one m s = if eq_ℤ m.partition s.partition then enter m.offset s else s

abbrev enter_all : List ℤ → Slot → Slot
enter_all [] s = s
enter_all (o ∷ os) s = enter_all os (enter o s)

abbrev partitions_of : List Slot → List ℤ
partitions_of [] = []
partitions_of (s ∷ ss) = s.partition ∷ partitions_of ss

enter-partition : (o : ℤ) (s : Slot) → (enter o s).partition ≡ s.partition
enter-partition o s = ground arith

note_one-partition : (m : Message) (s : Slot) → (note_one m s).partition ≡ s.partition
note_one-partition m s = ground arith

partitions_of-map :
    (m : Message) (ss : List Slot) → partitions_of (map (note_one m) ss) ≡ partitions_of ss
partitions_of-map m [] = refl
partitions_of-map m (s ∷ ss) = ap₂ (◌∷◌) (note_one-partition m s) (partitions_of-map m ss)

-- A message of a partition that is in no slot changes none.
note_one_absent :
    (m : Message) (ss : List Slot)
    → All (λ q. eq_ℤ m.partition q ≡ false) (partitions_of ss)
    → map (note_one m) ss ≡ ss
note_one_absent m [] h = refl
note_one_absent m (s ∷ ss) h = rw h.0 (ap (◌∷◌ s) (note_one_absent m ss h.1))

-- The loop enters an offset in the slot of its partition alone.
note_lem :
    (m : Message) (ss : List Slot) → IsDistinct (partitions_of ss) → note m ss ≡ map (note_one m) ss
unfolding note
note_lem m [] h = refl
note_lem m (s ∷ ss) h = elim (Bool-cases (eq_ℤ m.partition s.partition)) [
  | inl e ↦
      let same : m.partition ≡ s.partition = (eq_ℤ_iff m.partition s.partition).0 e in
      let away : All (λ q. eq_ℤ m.partition q ≡ false) (partitions_of ss) =
        subst (λ p. All (λ q. eq_ℤ p q ≡ false) (partitions_of ss)) (sym same) h.0 in
      let others : ss ≡ map (note_one m) ss = sym (note_one_absent m ss away) in
      elim (Bool-cases (ltb_ℤ m.offset s.newset)) [
        | inl less ↦ rw (note, e, less) (ap (◌∷◌ (record s { newset = m.offset })) others)
        | inr rest ↦ elim (Bool-cases (ltb_ℤ s.lastset m.offset)) [
          | inl more ↦ rw (note, e, rest, more) (ap (◌∷◌ (record s { lastset = m.offset })) others)
          | inr same ↦ rw (note, e, rest, same) (ap (◌∷◌ s) (note_lem m ss h.1))
        ]
      ]
  | inr e ↦ rw (note, e) (ap (◌∷◌ s) (note_lem m ss h.1))
]

enter_all_lem :
    (p l n a : ℤ) (os : List ℤ)
    → IsOrdered a os
    → ltb_ℤ a l ≡ false
    → ltb_ℤ a n ≡ false
    → enter_all os (record { partition = p; lastset = l; newset = n })
      ≡ record { partition = p; lastset = last_or l os; newset = n }
enter_all_lem p l n a [] h hl hn = refl
enter_all_lem p l n a (o ∷ os) h hl hn =
    let skip : ltb_ℤ o n ≡ false = ground arith in
    let more : ltb_ℤ l o ≡ true = ground arith in
    let still : ltb_ℤ o o ≡ false = ground arith in
    rw (skip, more) (enter_all_lem p o n o os h.2 still skip)

abbrev track_one : List Message → Slot → Slot
track_one [] s = s
track_one (m ∷ ms) s = track_one ms (note_one m s)

map_nothing : (ss : List Slot) → map (track_one []) ss ≡ ss
map_nothing [] = refl
map_nothing (s ∷ ss) = ap (◌∷◌ s) (map_nothing ss)

map_more :
    (m : Message) (ms : List Message) (ss : List Slot)
    → map (track_one ms) (map (note_one m) ss) ≡ map (track_one (m ∷ ms)) ss
map_more m ms [] = refl
map_more m ms (s ∷ ss) = ap (◌∷◌ (track_one (m ∷ ms) s)) (map_more m ms ss)

-- The account is kept for each partition by itself.
track-map :
    (ms : List Message) (ss : List Slot)
    → IsDistinct (partitions_of ss)
    → track ms ss ≡ map (track_one ms) ss
track-map [] ss h = sym (map_nothing ss)
track-map (m ∷ ms) ss h =
    ap (track ms) (note_lem m ss h)
    ∙ track-map ms (map (note_one m) ss) (subst IsDistinct (sym (partitions_of-map m ss)) h)
    ∙ map_more m ms ss

track_one_lem :
    (ms : List Message) (s : Slot) → track_one ms s ≡ enter_all (offsets s.partition ms) s
track_one_lem [] s = refl
track_one_lem (m ∷ ms) s = elim (Bool-cases (eq_ℤ m.partition s.partition)) [
  | inl e ↦
      let s' = enter m.offset s in
      rw e
        (track_one_lem ms s' ∙ ap (λ p. enter_all (offsets p ms) s') (enter-partition m.offset s))
  | inr e ↦ rw e (track_one_lem ms s)
]

new_slot_lem :
    (p : ℤ) (os : List ℤ) → IsOrdered (negsuc 0) os → enter_all os (new_slot p) ≡ slot_of p os
new_slot_lem p [] h = refl
new_slot_lem p (o ∷ os) h =
    let from : ltb_ℤ o (pos 0) ≡ false = ground (arith, h.0) in
    let still : ltb_ℤ o o ≡ false = ground arith in
    rw h.1 (enter_all_lem p (pos 0) o o os h.2 from still)

partitions_of-new_slot : (parts : List ℤ) → partitions_of (map new_slot parts) ≡ parts
partitions_of-new_slot [] = refl
partitions_of-new_slot (p ∷ ps) = ap (◌∷◌ p) (partitions_of-new_slot ps)

track_each :
    (parts : List ℤ) (ms : List Message)
    → All (λ p. IsOrdered (negsuc 0) (offsets p ms)) parts
    → map (track_one ms) (map new_slot parts) ≡ map (λ p. slot_of p (offsets p ms)) parts
track_each [] ms h = refl
track_each (p ∷ ps) ms h =
    ap₂ (◌∷◌) (track_one_lem ms (new_slot p) ∙ new_slot_lem p (offsets p ms) h.0)
      (track_each ps ms h.1)

-- For partitions that differ, of each of which the offsets come in the broker's order: after the
-- messages `newset` is the first offset of the partition, or `LONG_MAX` where none came, and
-- `lastset` is the last one if there were two at least, and 0 otherwise.
pub track_lem :
    (parts : List ℤ) (ms : List Message)
    → IsDistinct parts
    → All (λ p. IsOrdered (negsuc 0) (offsets p ms)) parts
    → track ms (map new_slot parts) ≡ map (λ p. slot_of p (offsets p ms)) parts
track_lem parts ms d h =
    track-map ms (map new_slot parts) (subst IsDistinct (sym (partitions_of-new_slot parts)) d)
    ∙ track_each parts ms h
