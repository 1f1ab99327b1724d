-- ===== src/Parser/Threads.antt =====
-- src/io/parser.cpp: `Process` called by the two threads of `SampleKafka`, one for impressions and
-- one for behaviours, on the members that they share. A step is one access to such a member, or a
-- row of writes whose place is that member; accesses are taken to be in one order for both threads.
-- `++` of `_idx_1` and of `cntl[1]`, which both threads write, is a read and a write; only the
-- impressions' thread writes `_idx_0` and `cntl[0]`.
pub mod Bounds
pub mod Races
pub mod Apart
use ftrl_online_pslite.Prelude.{ℕ, suc, ◌+◌, ◌≤◌, ◌<◌, ◌≡◌, Bool, true, false}
use ftrl_online_pslite.Parser.Buffer.{room_0, limit_1, batch_size}

-- Where the impressions' thread stands: outside, behind the test of `_idx_0`, at `cntl[0]++`, at the
-- test for a hundred, at the assignments of the batch step down to `mutex_flag = false`, at the
-- reads of the two lengths, in the loops that merge and deliver, and at the assignments behind them.
pub data Imp : Type 0 where
  outside storing counting testing clearing_1 clearing_0 locking reading merging : Imp
  emptying_0 emptying_1 unlocking : Imp

-- Where the behaviours' thread stands: outside, at the test of `_idx_1`, behind it, in `_idx_1++`
-- with the old value read, at `cntl[1]++`, and in it.
pub data Bhv : Type 0 where
  idle checking placing raising tallying writing : Bhv

-- The members of `Parser` that the two threads change, the locals of `Process`, and two counts that the code does not
-- keep: how many behaviours were put into the buffer, and how many were handed out.
pub record Threads : Type 0 where
  pub idx_0 : ℕ
  pub idx_1 : ℕ
  pub cntl_0 : ℕ
  pub cntl_1 : ℕ
  pub mutex_flag : Bool
  pub imp : Imp
  pub len_0 : ℕ
  pub len_1 : ℕ
  pub bhv : Bhv
  pub read : ℕ
  pub tally : ℕ
  pub taken : ℕ
  pub given : ℕ

-- The constructor, and both threads outside.
unfoldable pub begin : Threads
begin = record {
  idx_0 = 0;
  idx_1 = 0;
  cntl_0 = 0;
  cntl_1 = 0;
  mutex_flag = true;
  imp = outside;
  len_0 = 0;
  len_1 = 0;
  bhv = idle;
  read = 0;
  tally = 0;
  taken = 0;
  given = 0;
}

-- The steps of `Process`; a call that returns before it touches a shared member is none.
pub data Step : Threads → Threads → Type 0 where
  -- The impressions' thread.
  room_for_imp :
      (s : Threads) → s.imp ≡ outside → s.idx_0 < room_0 → Step s (record s { imp = storing })
  raise_idx_0 :
      (s : Threads) → s.imp ≡ storing → Step s (record s { idx_0 = suc s.idx_0; imp = counting })
  raise_cntl_0 :
      (s : Threads) → s.imp ≡ counting → Step s (record s { cntl_0 = suc s.cntl_0; imp = testing })
  not_due :
      (s : Threads)
      → s.imp ≡ testing
      → s.cntl_1 + s.cntl_0 < batch_size
      → Step s (record s { imp = outside })
  due :
      (s : Threads)
      → s.imp ≡ testing
      → batch_size ≤ s.cntl_1 + s.cntl_0
      → Step s (record s { imp = clearing_1 })
  clear_cntl_1 :
      (s : Threads) → s.imp ≡ clearing_1 → Step s (record s { cntl_1 = 0; imp = clearing_0 })
  clear_cntl_0 :
      (s : Threads) → s.imp ≡ clearing_0 → Step s (record s { cntl_0 = 0; imp = locking })
  lower_flag :
      (s : Threads) → s.imp ≡ locking → Step s (record s { mutex_flag = false; imp = reading })
  read_lengths :
      (s : Threads)
      → s.imp ≡ reading
      → Step s (record s { len_0 = s.idx_0; len_1 = s.idx_1; imp = merging })
  hand_out :
      (s : Threads)
      → s.imp ≡ merging
      → Step s (record s { given = s.given + s.len_1; imp = emptying_0 })
  clear_idx_0 :
      (s : Threads) → s.imp ≡ emptying_0 → Step s (record s { idx_0 = 0; imp = emptying_1 })
  clear_idx_1 :
      (s : Threads) → s.imp ≡ emptying_1 → Step s (record s { idx_1 = 0; imp = unlocking })
  raise_flag :
      (s : Threads) → s.imp ≡ unlocking → Step s (record s { mutex_flag = true; imp = outside })
  -- The behaviours' thread.
  pass_flag :
      (s : Threads) → s.bhv ≡ idle → s.mutex_flag ≡ true → Step s (record s { bhv = checking })
  no_room : (s : Threads) → s.bhv ≡ checking → limit_1 ≤ s.idx_1 → Step s (record s { bhv = idle })
  room_for_bhv :
      (s : Threads) → s.bhv ≡ checking → s.idx_1 < limit_1 → Step s (record s { bhv = placing })
  read_idx_1 : (s : Threads) → s.bhv ≡ placing → Step s (record s { read = s.idx_1; bhv = raising })
  write_idx_1 :
      (s : Threads)
      → s.bhv ≡ raising
      → Step s (record s { idx_1 = suc s.read; taken = suc s.taken; bhv = tallying })
  read_cntl_1 :
      (s : Threads) → s.bhv ≡ tallying → Step s (record s { tally = s.cntl_1; bhv = writing })
  write_cntl_1 :
      (s : Threads) → s.bhv ≡ writing → Step s (record s { cntl_1 = suc s.tally; bhv = idle })

pub data Steps : Threads → Threads → Type 0 where
  here : (s : Threads) → Steps s s
  next : {s s' s'' : Threads} → Step s s' → Steps s' s'' → Steps s s''
