-- ===== src/Parser/Threads/Bounds.antt =====
-- src/io/parser.cpp: the places that the two threads of `Process` write to, however they interleave.
use ftrl_online_pslite.Prelude.{ℕ, suc, ◌+◌, ◌≤◌, ◌<◌, ◌≡◌, refl, subst, arith}
use ftrl_online_pslite.Parser.Buffer.{limit_1, batch_size}
use ftrl_online_pslite.Parser.Threads.{
  Imp, outside, storing, counting, testing, clearing_1, clearing_0, locking, reading, merging,
  emptying_0, emptying_1, unlocking, Bhv, idle, checking, placing, raising, tallying, writing,
  Threads, begin, Step, room_for_imp, raise_idx_0, raise_cntl_0, not_due, due, clear_cntl_1,
  clear_cntl_0, lower_flag, read_lengths, hand_out, clear_idx_0, clear_idx_1, raise_flag, pass_flag,
  no_room, room_for_bhv, read_idx_1, write_idx_1, read_cntl_1, write_cntl_1, Steps, here, next,
}

-- What holds where the impressions' thread stands, of `_idx_0`, `cntl[0]` and the two lengths.
abbrev ImpKeeps : Imp → ℕ → ℕ → ℕ → ℕ → Type 0
ImpKeeps outside i c l m = (i ≡ c) × (c < batch_size)
ImpKeeps storing i c l m = (i ≡ c) × (c < batch_size)
ImpKeeps counting i c l m = (i ≡ suc c) × (c < batch_size)
ImpKeeps testing i c l m = (i ≡ c) × (c ≤ batch_size)
ImpKeeps clearing_1 i c l m = i ≤ batch_size
ImpKeeps clearing_0 i c l m = i ≤ batch_size
ImpKeeps locking i c l m = (c ≡ 0) × (i ≤ batch_size)
ImpKeeps reading i c l m = (c ≡ 0) × (i ≤ batch_size)
ImpKeeps merging i c l m = (c ≡ 0) × (i ≤ batch_size) × (l ≤ batch_size) × (m ≤ limit_1)
ImpKeeps emptying_0 i c l m = (c ≡ 0) × (i ≤ batch_size)
ImpKeeps emptying_1 i c l m = (c ≡ 0) × (i ≡ 0)
ImpKeeps unlocking i c l m = (c ≡ 0) × (i ≡ 0)

-- What holds where the behaviours' thread stands, of `_idx_1` and the value it has read.
abbrev BhvKeeps : Bhv → ℕ → ℕ → Type 0
BhvKeeps placing j r = j < limit_1
BhvKeeps raising j r = (j ≤ limit_1) × (r < limit_1)
BhvKeeps _ j r = j ≤ limit_1

abbrev IsBounded : Threads → Type 0
IsBounded s = ImpKeeps s.imp s.idx_0 s.cntl_0 s.len_0 s.len_1 × BhvKeeps s.bhv s.idx_1 s.read

-- An index that is emptied keeps what it is to keep.
BhvKeeps-zero : (b : Bhv) (j r : ℕ) → BhvKeeps b j r → BhvKeeps b 0 r
BhvKeeps-zero idle j r h = omega arith
BhvKeeps-zero checking j r h = omega arith
BhvKeeps-zero placing j r h = omega arith
BhvKeeps-zero raising j r h = (omega arith, h.1)
BhvKeeps-zero tallying j r h = omega arith
BhvKeeps-zero writing j r h = omega arith

BhvKeeps-le : (b : Bhv) (j r : ℕ) → BhvKeeps b j r → j ≤ limit_1
BhvKeeps-le idle j r h = h
BhvKeeps-le checking j r h = h
BhvKeeps-le placing j r h = omega arith
BhvKeeps-le raising j r h = h.0
BhvKeeps-le tallying j r h = h
BhvKeeps-le writing j r h = h

-- What is known where a thread stands.
imp_at :
    (s : Threads) {p : Imp} → s.imp ≡ p → IsBounded s → ImpKeeps p s.idx_0 s.cntl_0 s.len_0 s.len_1
imp_at s e h = subst (λ p. ImpKeeps p s.idx_0 s.cntl_0 s.len_0 s.len_1) e h.0

bhv_at : (s : Threads) {p : Bhv} → s.bhv ≡ p → IsBounded s → BhvKeeps p s.idx_1 s.read
bhv_at s e h = subst (λ p. BhvKeeps p s.idx_1 s.read) e h.1

IsBounded-Step : {s s' : Threads} → Step s s' → IsBounded s → IsBounded s'
IsBounded-Step (room_for_imp s e lt) h = (imp_at s e h, h.1)
IsBounded-Step (raise_idx_0 s e) h = (let (a, b) = imp_at s e h in (omega arith, omega arith), h.1)
IsBounded-Step (raise_cntl_0 s e) h = (let (a, b) = imp_at s e h in (omega arith, omega arith), h.1)
IsBounded-Step (not_due s e lt) h = (let (a, b) = imp_at s e h in (omega arith, omega arith), h.1)
IsBounded-Step (due s e le) h = (let (a, b) = imp_at s e h in omega arith, h.1)
IsBounded-Step (clear_cntl_1 s e) h = (imp_at s e h, h.1)
IsBounded-Step (clear_cntl_0 s e) h = ((refl, imp_at s e h), h.1)
IsBounded-Step (lower_flag s e) h = (imp_at s e h, h.1)
IsBounded-Step (read_lengths s e) h =
    (let (a, b) = imp_at s e h in (a, b, b, BhvKeeps-le s.bhv s.idx_1 s.read h.1), h.1)
IsBounded-Step (hand_out s e) h = (let (a, b, c, d) = imp_at s e h in (a, b), h.1)
IsBounded-Step (clear_idx_0 s e) h = (let (a, b) = imp_at s e h in (a, refl), h.1)
IsBounded-Step (clear_idx_1 s e) h = (imp_at s e h, BhvKeeps-zero s.bhv s.idx_1 s.read h.1)
IsBounded-Step (raise_flag s e) h = (let (a, b) = imp_at s e h in (omega arith, omega arith), h.1)
IsBounded-Step (pass_flag s e t) h = (h.0, bhv_at s e h)
IsBounded-Step (no_room s e le) h = (h.0, bhv_at s e h)
IsBounded-Step (room_for_bhv s e lt) h = (h.0, lt)
IsBounded-Step (read_idx_1 s e) h = (h.0, let lt = bhv_at s e h in (omega arith, lt))
IsBounded-Step (write_idx_1 s e) h = (h.0, let (a, b) = bhv_at s e h in omega arith)
IsBounded-Step (read_cntl_1 s e) h = (h.0, bhv_at s e h)
IsBounded-Step (write_cntl_1 s e) h = (h.0, bhv_at s e h)

IsBounded-Steps : {s s' : Threads} → Steps s s' → IsBounded s → IsBounded s'
IsBounded-Steps (here s) h = h
IsBounded-Steps (next step rest) h = IsBounded-Steps rest (IsBounded-Step step h)

ImpKeeps-le : (p : Imp) (i c l m : ℕ) → ImpKeeps p i c l m → i ≤ batch_size
ImpKeeps-le outside i c l m h = omega arith
ImpKeeps-le storing i c l m h = omega arith
ImpKeeps-le counting i c l m h = omega arith
ImpKeeps-le testing i c l m h = omega arith
ImpKeeps-le clearing_1 i c l m h = h
ImpKeeps-le clearing_0 i c l m h = h
ImpKeeps-le locking i c l m h = h.1
ImpKeeps-le reading i c l m h = h.1
ImpKeeps-le merging i c l m h = h.1
ImpKeeps-le emptying_0 i c l m h = h.1
ImpKeeps-le emptying_1 i c l m h = omega arith
ImpKeeps-le unlocking i c l m h = omega arith

-- The places written to, where a thread writes: one past the last of `sample_0` and of its labels,
-- one past the last of `sample_1` and of its labels, and one past the last of a merged batch.
abbrev pub imp_end : Imp → ℕ → ℕ
imp_end storing i = i + 1
imp_end _ i = 0

abbrev pub bhv_end : Bhv → ℕ → ℕ
bhv_end placing j = j + 1
bhv_end _ j = 0

abbrev pub merge_end : Imp → ℕ → ℕ → ℕ
merge_end merging l m = l + m
merge_end _ l m = 0

imp_end_le : (p : Imp) (i c l m : ℕ) → ImpKeeps p i c l m → imp_end p i ≤ batch_size
imp_end_le storing i c l m h = omega arith
imp_end_le _ i c l m h = omega arith

merge_end_le : (p : Imp) (i c l m : ℕ) → ImpKeeps p i c l m → merge_end p l m ≤ batch_size + limit_1
merge_end_le merging i c l m h = omega arith
merge_end_le _ i c l m h = omega arith

bhv_end_le : (p : Bhv) (j r : ℕ) → BhvKeeps p j r → bhv_end p j ≤ limit_1
bhv_end_le placing j r h = omega arith
bhv_end_le _ j r h = omega arith

-- From the constructor on, however the two threads interleave: at most a hundred impressions and
-- two thousand behaviours wait, no impression is written behind place 99, no behaviour behind place
-- 1999, and a batch that is merged ends at place 2099 at the latest, so every write is within the
-- vectors.
pub Steps-bounds :
    (s : Threads)
    → Steps begin s
    → (s.idx_0 ≤ batch_size)
      × (s.idx_1 ≤ limit_1)
      × (imp_end s.imp s.idx_0 ≤ batch_size)
      × (bhv_end s.bhv s.idx_1 ≤ limit_1)
      × (merge_end s.imp s.len_0 s.len_1 ≤ batch_size + limit_1)
unfolding begin
Steps-bounds s steps =
    let (h, k) = IsBounded-Steps steps ((refl, omega arith), omega arith) in
    (
      ImpKeeps-le s.imp s.idx_0 s.cntl_0 s.len_0 s.len_1 h,
      BhvKeeps-le s.bhv s.idx_1 s.read k,
      imp_end_le s.imp s.idx_0 s.cntl_0 s.len_0 s.len_1 h,
      bhv_end_le s.bhv s.idx_1 s.read k,
      merge_end_le s.imp s.idx_0 s.cntl_0 s.len_0 s.len_1 h,
    )
