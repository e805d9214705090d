-- ===== src/Tasks/Tests.antt =====
-- The queue at concrete inputs: two workers, a lease that runs out, a cancellation.
use boiler_reviews.Prelude.{
  ℕ, ◌+◌, ◌≡◌, refl, ◌⊎◌, true, false, none, some, List, [], ◌∷◌, arith, if◌then◌else◌, ◌==◌,
  nat_eq,
}
use boiler_reviews.Prelude.Int.{pos}
use boiler_reviews.Prelude.Json.{null}
use boiler_reviews.Prelude.Table.{find, put}
use boiler_reviews.Exec.{ok}
use boiler_reviews.Tasks.Model.{
  succeeded, DurableTask, TaskLease, Store, get, save, insert, with_key,
}
use boiler_reviews.Tasks.Queue.{
  new_task, leased, lease_of, claimable, claim, progress, finish, enqueue, oldest_claimable,
}
use boiler_reviews.Tasks.Recovery.{Recovered, reconcile_expired_tasks}
use boiler_reviews.Tasks.Schedule.{Op, step, run}
use boiler_reviews.Tasks.Leases.{
  NoneClaimable, IsOldest, claim_lem, claim_fences, reconcile_expired_tasks_fences,
}
use boiler_reviews.Tasks.Repair.{IsRepaired, reconcile_expired_tasks-IsRepaired}
use boiler_reviews.Tasks.Fencing.{IsWellFormed}
use boiler_reviews.Tasks.History.{
  IsRefused, terminal_is_final, cancelled_while_queued_stays, run-IsWellFormed,
}

abbrev lease_one : TaskLease
lease_one = record { task_id = 7; owner = 1; fencing_token = 1 }

abbrev lease_two : TaskLease
lease_two = record { task_id = 7; owner = 2; fencing_token = 2 }

-- Worker 1 claims task 7 at time 100 for 60 seconds; worker 2 claims it at 161 and finishes it.
abbrev takeover : List Op
takeover =
    Op.enqueue 7 50 "solve" null none none
    ∷ Op.claim 100 1 60
    ∷ Op.progress lease_one (pos 250)
    ∷ Op.claim 161 2 60
    ∷ Op.finish lease_one null
    ∷ Op.finish lease_two null
    ∷ []

abbrev done_task : DurableTask
done_task = record {
  id = 7;
  account_id = none;
  task_type = "solve";
  status = succeeded;
  payload_json = null;
  result_json = some null;
  error_json = none;
  progress = 100;
  attempts = 2;
  lease_owner = some 2;
  lease_until = none;
  fencing_token = 2;
  cancel_requested = false;
  idempotency_key = none;
  created_at = 50;
}

takeover_runs : get 7 (run takeover []) ≡ some done_task
unfolding run step enqueue insert with_key claim oldest_claimable progress finish find put
takeover_runs = refl

run-IsWellFormed_example : IsWellFormed done_task
run-IsWellFormed_example = run-IsWellFormed takeover 7 done_task takeover_runs

terminal_is_final_example :
    get 7 (run (Op.claim 500 3 60 ∷ Op.fail lease_two null ∷ []) (done_task ∷ [])) ≡ some done_task
unfolding find
terminal_is_final_example =
    terminal_is_final (Op.claim 500 3 60 ∷ Op.fail lease_two null ∷ []) (done_task ∷ []) 7 done_task
      (refl, tt) refl refl

abbrev waiting_task : DurableTask
waiting_task = new_task 7 50 "solve" null none none

abbrev dropped_task : DurableTask
dropped_task = record waiting_task { cancel_requested = true }

cancelled_while_queued_stays_example :
    get 7 (run (Op.claim 500 3 60 ∷ Op.recover 900 ∷ []) (dropped_task ∷ [])) ≡ some dropped_task
unfolding find
cancelled_while_queued_stays_example =
    cancelled_while_queued_stays (Op.claim 500 3 60 ∷ Op.recover 900 ∷ []) (dropped_task ∷ []) 7
      dropped_task (refl, tt) refl refl refl

-- Task 7 as worker 1 holds it.
abbrev held_task : DurableTask
held_task = leased 100 1 60 waiting_task

abbrev table : Store
table = held_task ∷ []

claim_lem_example :
    ((claim 161 2 60 table ≡ (ok none, table)) × NoneClaimable 161 table)
    ⊎ ((t : DurableTask) × (get t.id table ≡ some t)
        × (claimable 161 t ≡ true)
        × IsOldest 161 t table
        × (claim 161 2 60 table
            ≡ (ok (some (lease_of 2 (leased 161 2 60 t))), save (leased 161 2 60 t) table))
        × ((i : ℕ)
            → get i (claim 161 2 60 table).1
              ≡ (if t.id == i then some (leased 161 2 60 t) else get i table)))
unfolding find
claim_lem_example = claim_lem 161 2 60 table (refl, tt)

claim_fences_example :
    IsRefused lease_one (run (Op.finish lease_two null ∷ []) (leased 161 2 60 held_task ∷ []))
unfolding claim oldest_claimable find put
claim_fences_example =
    claim_fences 161 2 60 table (leased 161 2 60 held_task ∷ []) lease_one lease_two
      (Op.finish lease_two null ∷ []) (refl, tt) refl refl (omega arith)

reconcile_expired_tasks-IsRepaired_example :
    (r : Recovered) × (s' : Store) × (reconcile_expired_tasks 161 table ≡ (ok r, s'))
    × IsRepaired 161 table s' r.requeued r.cancelled
    × (r.expired ≡ r.requeued + r.cancelled)
reconcile_expired_tasks-IsRepaired_example = reconcile_expired_tasks-IsRepaired 161 table

reconcile_expired_tasks_fences_example :
    IsRefused lease_one (run (Op.claim 170 1 60 ∷ []) (reconcile_expired_tasks 161 table).1)
unfolding find
reconcile_expired_tasks_fences_example =
    reconcile_expired_tasks_fences 161 table lease_one held_task (Op.claim 170 1 60 ∷ []) (refl, tt)
      refl refl (omega arith)
