-- ===== src/Parser/Threads/Races.antt =====
-- src/io/parser.cpp: interleavings of the two threads of `Process` that count a behaviour wrongly.
use ftrl_online_pslite.Prelude.{ℕ, suc, ◌+◌, ◌≤◌, ◌<◌, ◌≡◌, refl, true, false}
use ftrl_online_pslite.Parser.Buffer.{room_0, limit_1, batch_size}
use ftrl_online_pslite.Parser.Threads.{
  outside, emptying_0, idle, placing, raising, Threads, room_for_imp, raise_idx_0, raise_cntl_0,
  due, clear_cntl_1, clear_cntl_0, lower_flag, read_lengths, hand_out, clear_idx_0, clear_idx_1,
  raise_flag, pass_flag, room_for_bhv, read_idx_1, write_idx_1, read_cntl_1, write_cntl_1, Steps,
  here, next,
}

Steps-trans : {s t u : Threads} → Steps s t → Steps t u → Steps s u
Steps-trans (here s) after = after
Steps-trans (next step rest) after = next step (Steps-trans rest after)

-- The impressions' thread up to where it has handed a batch out.
abbrev handed : Threads → Threads
handed s = record s {
  idx_0 = suc s.idx_0;
  cntl_0 = 0;
  cntl_1 = 0;
  mutex_flag = false;
  imp = emptying_0;
  len_0 = suc s.idx_0;
  len_1 = s.idx_1;
  given = s.given + s.idx_1;
}

hands_out :
    (s : Threads)
    → s.imp ≡ outside
    → s.idx_0 < room_0
    → batch_size ≤ s.cntl_1 + suc s.cntl_0
    → Steps s (handed s)
hands_out s e room full = next (room_for_imp s e room) (
    next (raise_idx_0 _ refl) (
      next (raise_cntl_0 _ refl) (
        next (due _ refl full) (
          next (clear_cntl_1 _ refl) (
            next (clear_cntl_0 _ refl) (
              next (lower_flag _ refl)
                (next (read_lengths _ refl) (next (hand_out _ refl) (here (handed s))))))))))

-- The rest of its batch step.
abbrev emptied : Threads → Threads
emptied s = record s { idx_0 = 0; idx_1 = 0; mutex_flag = true; imp = outside }

empties : (s : Threads) → s.imp ≡ emptying_0 → Steps s (emptied s)
empties s e =
    next (clear_idx_0 s e) (next (clear_idx_1 _ refl) (next (raise_flag _ refl) (here (emptied s))))

-- The behaviours' thread behind the write of its sample, from the read in `_idx_1++` on.
abbrev counted : Threads → Threads
counted s = record s {
  idx_1 = suc s.read;
  taken = suc s.taken;
  tally = s.cntl_1;
  cntl_1 = suc s.cntl_1;
  bhv = idle;
}

counts : (s : Threads) → s.bhv ≡ raising → Steps s (counted s)
counts s e =
    next (write_idx_1 s e)
      (next (read_cntl_1 _ refl) (next (write_cntl_1 _ refl) (here (counted s))))

abbrev placed : Threads → Threads
placed s = record s { bhv = placing }

places : (s : Threads) → s.bhv ≡ idle → s.mutex_flag ≡ true → s.idx_1 < limit_1 → Steps s (placed s)
places s e flag room = next (pass_flag s e flag) (next (room_for_bhv _ refl room) (here (placed s)))

-- A way from one state to a later one, in which both threads are outside again, one behaviour more
-- was put into the buffer, and all `r` that were there before were handed out.
abbrev pub GivesAll : ℕ → Threads → Threads → Type 0
GivesAll r s s' =
    Steps s s'
    × (s'.imp ≡ outside)
    × (s'.bhv ≡ idle)
    × (s'.taken ≡ suc s.taken)
    × (s'.given ≡ s.given + r)

-- If both threads are outside, the flag is up, one impression is missing for a batch and there is
-- room for a behaviour, the next impression and the next behaviour can interleave so that all the
-- behaviours that are handed out stay in the buffer, to be handed out again, and also so that the
-- new behaviour is in no batch and not in the buffer.
pub behaviours_miscounted :
    (s : Threads)
    → s.imp ≡ outside
    → s.bhv ≡ idle
    → s.mutex_flag ≡ true
    → s.idx_0 < room_0
    → batch_size ≤ s.cntl_1 + suc s.cntl_0
    → s.idx_1 < limit_1
    → ((s' : Threads) × GivesAll s.idx_1 s s' × (s'.idx_1 ≡ suc s.idx_1))
      × ((s' : Threads) × GivesAll s.idx_1 s s' × (s'.idx_1 ≡ 0))
behaviours_miscounted s i b flag room0 full room1 =
    let there = placed s in
    let reading = record there { read = s.idx_1; bhv = raising } in
    let late_read = record (handed there) { read = s.idx_1; bhv = raising } in
    let first = places s b flag room1 in
    (
      (
        counted (emptied (handed reading)),
        (
          Steps-trans first (
              next (read_idx_1 there refl) (
                Steps-trans (hands_out reading i room0 full) (
                  Steps-trans (empties (handed reading) refl)
                    (counts (emptied (handed reading)) refl)))),
          refl,
          refl,
          refl,
          refl,
        ),
        refl,
      ),
      (
        emptied (counted late_read),
        (
          Steps-trans first (
              Steps-trans (hands_out there i room0 full) (
                next (read_idx_1 (handed there) refl)
                  (Steps-trans (counts late_read refl) (empties (counted late_read) refl)))),
          refl,
          refl,
          refl,
          refl,
        ),
        refl,
      ),
    )
