-- ===== src/Examples/Overlap.antt =====
-- Runs of the parser's two threads.
use ftrl_online_pslite.Prelude.{◌+◌, ◌≤◌, ◌≡◌, refl, arith}
use ftrl_online_pslite.Parser.Buffer.{limit_1, batch_size}
use ftrl_online_pslite.Parser.Threads.{Imp, Bhv, Threads, begin, Step, Steps}
use ftrl_online_pslite.Parser.Threads.Bounds.{imp_end, bhv_end, merge_end, Steps-bounds}
use ftrl_online_pslite.Parser.Threads.Apart.{ApartSteps, pending, ApartSteps-counts}
use ftrl_online_pslite.Parser.Threads.Races.{GivesAll, behaviours_miscounted}

-- Both threads stand where they write.
abbrev both_write : Threads
unfolding begin
both_write = record begin { imp = Imp.storing; bhv = Bhv.placing }

to_both_write : Steps begin both_write
unfolding begin
to_both_write = Steps.next (Step.pass_flag begin refl refl) (
    Steps.next (Step.room_for_imp _ refl (omega arith))
      (Steps.next (Step.room_for_bhv _ refl (omega arith)) (Steps.here both_write)))

Steps-bounds_example :
    (both_write.idx_0 ≤ batch_size)
    × (both_write.idx_1 ≤ limit_1)
    × (imp_end both_write.imp both_write.idx_0 ≤ batch_size)
    × (bhv_end both_write.bhv both_write.idx_1 ≤ limit_1)
    × (merge_end both_write.imp both_write.len_0 both_write.len_1 ≤ batch_size + limit_1)
Steps-bounds_example = Steps-bounds both_write to_both_write

-- A behaviour is counted while an impression is written.
abbrev one_counted : Threads
unfolding begin
one_counted = record both_write { idx_1 = 1; taken = 1; bhv = Bhv.tallying }

to_one_counted : ApartSteps begin one_counted
unfolding begin
to_one_counted = ApartSteps.next (omega arith) (Step.pass_flag begin refl refl) (
    ApartSteps.next (omega arith) (Step.room_for_imp _ refl (omega arith)) (
      ApartSteps.next (omega arith) (Step.room_for_bhv _ refl (omega arith)) (
        ApartSteps.next (omega arith) (Step.read_idx_1 _ refl) (
          ApartSteps.next (omega arith) (Step.write_idx_1 _ refl)
            (ApartSteps.here one_counted (omega arith))))))

ApartSteps-counts_example :
    one_counted.taken ≡ one_counted.given + pending one_counted.imp one_counted.idx_1
ApartSteps-counts_example = ApartSteps-counts one_counted to_one_counted

-- 95 impressions and 4 behaviours wait.
abbrev nearly_due : Threads
unfolding begin
nearly_due = record begin { idx_0 = 95; cntl_0 = 95; idx_1 = 4; cntl_1 = 4; taken = 4 }

behaviours_miscounted_example :
    ((s' : Threads) × GivesAll 4 nearly_due s' × (s'.idx_1 ≡ 5))
    × ((s' : Threads) × GivesAll 4 nearly_due s' × (s'.idx_1 ≡ 0))
unfolding begin
behaviours_miscounted_example =
    behaviours_miscounted nearly_due refl refl refl (omega arith) (omega arith) (omega arith)
