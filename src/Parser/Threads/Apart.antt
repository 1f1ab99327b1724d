-- ===== src/Parser/Threads/Apart.antt =====
-- src/io/parser.cpp: the two threads of `Process` while the one keeps out of the other's way.
use ftrl_online_pslite.Prelude.{ℕ, suc, ◌+◌, ◌≤◌, ◌≡◌, refl, sym, subst, arith}
use ftrl_online_pslite.Parser.Threads.{
  Imp, merging, emptying_0, emptying_1, Bhv, idle, checking, placing, raising, tallying, writing,
  Threads, begin, Step, room_for_imp, raise_idx_0, raise_cntl_0, not_due, due, clear_cntl_1,
  clear_cntl_0, lower_flag, read_lengths, hand_out, clear_idx_0, clear_idx_1, raise_flag, pass_flag,
  no_room, room_for_bhv, read_idx_1, write_idx_1, read_cntl_1, write_cntl_1,
}

-- Whether the impressions' thread stands between the read of the lengths and the reset of `_idx_1`.
abbrev pub busy : Imp → ℕ
busy merging = 1
busy emptying_0 = 1
busy emptying_1 = 1
busy _ = 0

-- Whether the behaviours' thread stands between the test of `_idx_1` and its increment.
abbrev pub inside : Bhv → ℕ
inside placing = 1
inside raising = 1
inside _ = 0

-- Runs in which the two are never there at once.
pub data ApartSteps : Threads → Threads → Type 0 where
  here : (s : Threads) → busy s.imp + inside s.bhv ≤ 1 → ApartSteps s s
  next :
      {s s' s'' : Threads}
      → busy s.imp + inside s.bhv ≤ 1
      → Step s s'
      → ApartSteps s' s''
      → ApartSteps s s''

-- How many behaviours of the buffer were not handed out.
abbrev pub pending : Imp → ℕ → ℕ
pending emptying_0 j = 0
pending emptying_1 j = 0
pending _ j = j

-- The length that was read, while the batch is merged; the old value, while it is raised.
abbrev ReadsLength : Imp → ℕ → ℕ → Type 0
ReadsLength merging j l = l ≡ j
ReadsLength _ j l = Unit

abbrev ReadsOld : Bhv → ℕ → ℕ → Type 0
ReadsOld raising j r = r ≡ j
ReadsOld _ j r = Unit

abbrev IsCounted : Threads → Type 0
IsCounted s =
    (s.taken ≡ s.given + pending s.imp s.idx_1)
    × ReadsLength s.imp s.idx_1 s.len_1
    × ReadsOld s.bhv s.idx_1 s.read

-- What is known where a thread stands.
pending_at :
    (s : Threads) {p : Imp} → s.imp ≡ p → IsCounted s → s.taken ≡ s.given + pending p s.idx_1
pending_at s e h = subst (λ p. s.taken ≡ s.given + pending p s.idx_1) e h.0

length_at : (s : Threads) {p : Imp} → s.imp ≡ p → IsCounted s → ReadsLength p s.idx_1 s.len_1
length_at s e h = subst (λ p. ReadsLength p s.idx_1 s.len_1) e h.1

old_at : (s : Threads) {p : Bhv} → s.bhv ≡ p → IsCounted s → ReadsOld p s.idx_1 s.read
old_at s e h = subst (λ p. ReadsOld p s.idx_1 s.read) e h.2

apart_imp :
    (s : Threads) {p : Imp} → s.imp ≡ p → busy s.imp + inside s.bhv ≤ 1 → busy p + inside s.bhv ≤ 1
apart_imp s e a = subst (λ p. busy p + inside s.bhv ≤ 1) e a

apart_bhv :
    (s : Threads) {p : Bhv} → s.bhv ≡ p → busy s.imp + inside s.bhv ≤ 1 → busy s.imp + inside p ≤ 1
apart_bhv s e a = subst (λ p. busy s.imp + inside p ≤ 1) e a

-- A reset changes nothing for a thread that is not inside, and an increment nothing but the number
-- for one that is not busy.
ReadsOld-reset : (b : Bhv) (j j' r : ℕ) → inside b ≤ 0 → ReadsOld b j r → ReadsOld b j' r
ReadsOld-reset raising j j' r a h = absurd (omega arith)
ReadsOld-reset idle j j' r a h = tt
ReadsOld-reset checking j j' r a h = tt
ReadsOld-reset placing j j' r a h = tt
ReadsOld-reset tallying j j' r a h = tt
ReadsOld-reset writing j j' r a h = tt

pending-suc : (p : Imp) (j : ℕ) → busy p ≤ 0 → pending p (suc j) ≡ suc (pending p j)
pending-suc emptying_0 j a = absurd (omega arith)
pending-suc emptying_1 j a = absurd (omega arith)
pending-suc _ j a = refl

ReadsLength-free : (p : Imp) (j l : ℕ) → busy p ≤ 0 → ReadsLength p j l
ReadsLength-free merging j l a = absurd (omega arith)
ReadsLength-free _ j l a = tt

IsCounted-Step :
    {s s' : Threads} → Step s s' → busy s.imp + inside s.bhv ≤ 1 → IsCounted s → IsCounted s'
IsCounted-Step (room_for_imp s e lt) a h = (pending_at s e h, tt, h.2)
IsCounted-Step (raise_idx_0 s e) a h = (pending_at s e h, tt, h.2)
IsCounted-Step (raise_cntl_0 s e) a h = (pending_at s e h, tt, h.2)
IsCounted-Step (not_due s e lt) a h = (pending_at s e h, tt, h.2)
IsCounted-Step (due s e le) a h = (pending_at s e h, tt, h.2)
IsCounted-Step (clear_cntl_1 s e) a h = (pending_at s e h, tt, h.2)
IsCounted-Step (clear_cntl_0 s e) a h = (pending_at s e h, tt, h.2)
IsCounted-Step (lower_flag s e) a h = (pending_at s e h, tt, h.2)
IsCounted-Step (read_lengths s e) a h = (pending_at s e h, refl, h.2)
IsCounted-Step (hand_out s e) a h =
    let all = pending_at s e h in let same = length_at s e h in (omega arith, tt, h.2)
IsCounted-Step (clear_idx_0 s e) a h = (pending_at s e h, tt, h.2)
IsCounted-Step (clear_idx_1 s e) a h =
    let out = apart_imp s e a in
    (pending_at s e h, tt, ReadsOld-reset s.bhv s.idx_1 0 s.read (omega arith) h.2)
IsCounted-Step (raise_flag s e) a h = (pending_at s e h, tt, h.2)
IsCounted-Step (pass_flag s e t) a h = (h.0, h.1, tt)
IsCounted-Step (no_room s e le) a h = (h.0, h.1, tt)
IsCounted-Step (room_for_bhv s e lt) a h = (h.0, h.1, tt)
IsCounted-Step (read_idx_1 s e) a h = (h.0, h.1, refl)
IsCounted-Step (write_idx_1 s e) a h =
    let old : s.read ≡ s.idx_1 = old_at s e h in
    let free : busy s.imp ≤ 0 = omega (arith, apart_bhv s e a) in
    (
      omega (
        arith,
        h.0,
        subst (λ r. pending s.imp (suc r) ≡ suc (pending s.imp s.idx_1)) (sym old)
            (pending-suc s.imp s.idx_1 free),
      ),
      ReadsLength-free s.imp (suc s.read) s.len_1 free,
      tt,
    )
IsCounted-Step (read_cntl_1 s e) a h = (h.0, h.1, tt)
IsCounted-Step (write_cntl_1 s e) a h = (h.0, h.1, tt)

IsCounted-ApartSteps : {s s' : Threads} → ApartSteps s s' → IsCounted s → IsCounted s'
IsCounted-ApartSteps (here s a) h = h
IsCounted-ApartSteps (next a step rest) h = IsCounted-ApartSteps rest (IsCounted-Step step a h)

-- From the constructor on, as long as the behaviours' thread is never between its test of `_idx_1`
-- and its increment while the impressions' thread is between its read of the lengths and its reset
-- of `_idx_1`, however the two interleave: as many behaviours were put into the buffer as were
-- handed out and as wait there, together.
pub ApartSteps-counts :
    (s : Threads) → ApartSteps begin s → s.taken ≡ s.given + pending s.imp s.idx_1
unfolding begin
ApartSteps-counts s steps = (IsCounted-ApartSteps steps (refl, tt, tt)).0
