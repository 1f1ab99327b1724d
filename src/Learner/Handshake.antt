-- ===== src/Learner/Handshake.antt =====
-- src/core/learner.cpp: the parser's thread in `GetData` and the learner's in `Start`, which take
-- turns by two semaphores, and `stat`, for which `Wait` looks. A step is one call or one assignment.
use ftrl_online_pslite.Prelude.{
  ℕ, suc, ◌+◌, ◌≤◌, ◌≡◌, ◌≢◌, ◌⊎◌, inl, inr, refl, Bool, true, false, arith,
}

-- Where the parser's thread stands: outside, behind `sem_wait(&sem_done)`, behind
-- `sem_post(&sem_ready)`.
pub data Feeder : Type 0 where
  outside filling filled : Feeder

-- Where the learner's thread stands: at `sem_wait(&sem_ready)`, in `update`, behind
-- `sem_post(&sem_done)`, at the test of `__exit_flag__`, in `pthread_join`, behind the loop, and
-- returned.
pub data Trainer : Type 0 where
  waiting updating posted testing joining leaving returned : Trainer

pub record Shared : Type 0 where
  pub sem_done : ℕ
  pub sem_ready : ℕ
  pub stat : ℕ
  pub exit_flag : Bool
  pub feeder : Feeder
  pub trainer : Trainer

-- `sem_init(&sem_done, 0, 1); sem_init(&sem_ready, 0, 0);`; `stat` is not initialised.
unfoldable pub begin : ℕ → Shared
begin stat = record {
  sem_done = 1;
  sem_ready = 0;
  stat = stat;
  exit_flag = false;
  feeder = outside;
  trainer = waiting;
}

-- One step of either thread, or of the signal handler. `pthread_join` of the calling thread itself is
-- taken to return at once, as it does with EDEADLK.
pub data Step : Shared → Shared → Type 0 where
  wait_done :
      (s : Shared) (n : ℕ)
      → s.feeder ≡ outside
      → s.sem_done ≡ suc n
      → Step s (record s { sem_done = n; feeder = filling })
  post_ready :
      (s : Shared)
      → s.feeder ≡ filling
      → Step s (record s { sem_ready = suc s.sem_ready; feeder = filled })
  set_stat_3 : (s : Shared) → s.feeder ≡ filled → Step s (record s { stat = 3; feeder = outside })
  wait_ready :
      (s : Shared) (n : ℕ)
      → s.trainer ≡ waiting
      → s.sem_ready ≡ suc n
      → Step s (record s { sem_ready = n; trainer = updating })
  post_done :
      (s : Shared)
      → s.trainer ≡ updating
      → Step s (record s { sem_done = suc s.sem_done; trainer = posted })
  set_stat_2 : (s : Shared) → s.trainer ≡ posted → Step s (record s { stat = 2; trainer = testing })
  go_around :
      (s : Shared)
      → s.trainer ≡ testing
      → s.exit_flag ≡ false
      → Step s (record s { trainer = waiting })
  set_stat_4 :
      (s : Shared)
      → s.trainer ≡ testing
      → s.exit_flag ≡ true
      → Step s (record s { stat = 4; trainer = joining })
  join_self : (s : Shared) → s.trainer ≡ joining → Step s (record s { trainer = leaving })
  set_stat_5 :
      (s : Shared) → s.trainer ≡ leaving → Step s (record s { stat = 5; trainer = returned })
  raise_exit : (s : Shared) → Step s (record s { exit_flag = true })

pub data Steps : Shared → Shared → Type 0 where
  here : (s : Shared) → Steps s s
  next : {s s' s'' : Shared} → Step s s' → Steps s' s'' → Steps s s''

-- Which thread holds the samples.
abbrev pub fills : Feeder → ℕ
fills outside = 0
fills filling = 1
fills filled = 0

abbrev pub trains : Trainer → ℕ
trains waiting = 0
trains updating = 1
trains posted = 0
trains testing = 0
trains joining = 0
trains leaving = 0
trains returned = 0

-- One token goes around: it is in a semaphore or with a thread.
abbrev HasToken : Shared → Type 0
HasToken s = s.sem_done + s.sem_ready + fills s.feeder + trains s.trainer ≡ 1

HasToken-Step : {s s' : Shared} → Step s s' → HasToken s → HasToken s'
HasToken-Step (wait_done s n f d) h = ground (arith, f, d, h)
HasToken-Step (post_ready s f) h = ground (arith, f, h)
HasToken-Step (set_stat_3 s f) h = ground (arith, f, h)
HasToken-Step (wait_ready s n f d) h = ground (arith, f, d, h)
HasToken-Step (post_done s f) h = ground (arith, f, h)
HasToken-Step (set_stat_2 s f) h = ground (arith, f, h)
HasToken-Step (go_around s f e) h = ground (arith, f, h)
HasToken-Step (set_stat_4 s f e) h = ground (arith, f, h)
HasToken-Step (join_self s f) h = ground (arith, f, h)
HasToken-Step (set_stat_5 s f) h = ground (arith, f, h)
HasToken-Step (raise_exit s) h = h

HasToken-Steps : {s s' : Shared} → Steps s s' → HasToken s → HasToken s'
HasToken-Steps (here s) h = h
HasToken-Steps (next step rest) h = HasToken-Steps rest (HasToken-Step step h)

-- From the constructor on, however the two threads are interleaved, at most one of them is between
-- its `sem_wait` and its `sem_post`, where the samples are written and read, and the two semaphores
-- together never pass one.
pub Steps-exclusive :
    (stat : ℕ) (s : Shared)
    → Steps (begin stat) s
    → (fills s.feeder + trains s.trainer ≤ 1) × (s.sem_done + s.sem_ready ≤ 1)
unfolding begin
Steps-exclusive stat s steps =
    let token = HasToken-Steps steps (omega arith) in (omega (arith, token), omega (arith, token))

-- Once the learner's thread has returned, with the parser's thread inside `GetData` or `stat` at 3.
abbrev IsLate : Shared → Type 0
IsLate s = (s.trainer ≡ returned) × ((s.feeder ≢ outside) ⊎ (s.stat ≡ 3))

IsLate-Step : {s s' : Shared} → Step s s' → IsLate s → IsLate s'
IsLate-Step (wait_done s n f d) (r, late) = (r, inl (ground arith))
IsLate-Step (post_ready s f) (r, late) = (r, inl (ground arith))
IsLate-Step (set_stat_3 s f) (r, late) = (r, inr refl)
IsLate-Step (wait_ready s n f d) (r, late) = ground arith
IsLate-Step (post_done s f) (r, late) = ground arith
IsLate-Step (set_stat_2 s f) (r, late) = ground arith
IsLate-Step (go_around s f e) (r, late) = ground arith
IsLate-Step (set_stat_4 s f e) (r, late) = ground arith
IsLate-Step (join_self s f) (r, late) = ground arith
IsLate-Step (set_stat_5 s f) (r, late) = ground arith
IsLate-Step (raise_exit s) h = h

IsLate-Steps : {s s' : Shared} → Steps s s' → IsLate s → IsLate s'
IsLate-Steps (here s) h = h
IsLate-Steps (next step rest) h = IsLate-Steps rest (IsLate-Step step h)

-- If the learner's thread has returned while the parser's thread is inside `GetData`, then in every
-- later state the parser's thread is inside `GetData` or `stat` is 3, so the 5 for which `Wait` waits
-- is never there again while that thread is outside.
pub stat_overwritten :
    (s s' : Shared)
    → s.trainer ≡ returned
    → s.feeder ≢ outside
    → Steps s s'
    → (s'.trainer ≡ returned) × ((s'.feeder ≢ outside) ⊎ (s'.stat ≡ 3))
stat_overwritten s s' r f steps = IsLate-Steps steps (r, inl f)
