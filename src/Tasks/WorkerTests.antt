-- ===== src/Tasks/WorkerTests.antt =====
-- The worker at concrete inputs: a handler that outlives its lease.
use boiler_reviews.Prelude.{
  ◌≡◌, refl, ◌⊎◌, true, false, String, Option, none, some, [], ◌∷◌, string_eq,
}
use mathlib.Core.Path.{subst}
use boiler_reviews.Prelude.Json.{null}
use boiler_reviews.Prelude.Table.{find, put}
use boiler_reviews.Exec.{ok, err, pure, conflict, session_scope}
use boiler_reviews.Tasks.Model.{DurableTask, TaskLease, succeeded, get}
use boiler_reviews.Tasks.Queue.{new_task, leased, stale, holds, claim, oldest_claimable}
use boiler_reviews.Tasks.Schedule.{Op, step, run}
use boiler_reviews.Tasks.Fencing.{Kept, Kept-refl}
use boiler_reviews.Tasks.Worker.{Handler, Others, TaskWorker, handle_session, run_once}
use boiler_reviews.Tasks.Attempts.{IsSafe, run_once-is_terminal}
use boiler_reviews.Tasks.Late.{Ends, handle_session_lem}

abbrev echo : Handler
echo t lease = pure null

echo-IsSafe : IsSafe echo
echo-IsSafe t lease s s' r u e = let same : s ≡ s' = cc in subst (Kept s) same (Kept-refl s)

abbrev always : String → Option Handler
always name = some echo

abbrev others : Others
others = record { before = Op.claim 161 2 60 ∷ []; during = []; between = Op.claim 222 3 60 ∷ [] }

abbrev worker : TaskWorker
worker = record { handlers = always; owner = 1; lease_seconds = 60 }

abbrev waiting : DurableTask
waiting = new_task 7 50 "solve" null none none

abbrev ended : DurableTask
ended = record waiting { id = 8; status = succeeded; progress = 100; result_json = some null }

always-IsSafe : (name : String) (h : Handler) → always name ≡ some h → IsSafe h
always-IsSafe name h e = let same : echo ≡ h = cc in subst IsSafe same echo-IsSafe

run_once-is_terminal_example :
    get 8 (run_once worker 100 others (waiting ∷ ended ∷ [])).1 ≡ some ended
unfolding find
run_once-is_terminal_example =
    run_once-is_terminal worker 100 others (waiting ∷ ended ∷ []) 8 ended always-IsSafe
      (refl, (refl, tt)) refl refl

abbrev held : DurableTask
held = leased 100 1 60 waiting

abbrev lease_1 : TaskLease
lease_1 = record { task_id = 7; owner = 1; fencing_token = 1 }

-- The lease of worker 1 runs out at 160; worker 2 claims the task at 161, while the handler of worker 1 runs.
handle_session_lem_example :
    ((holds lease_1 held ≡ false)
      × (handle_session echo lease_1 (Op.claim 161 2 60 ∷ []) (held ∷ [])
          ≡ (err (conflict stale), run (Op.claim 161 2 60 ∷ []) (held ∷ []))))
    ⊎ ((holds lease_1 held ≡ true)
        × Ends echo lease_1 (Op.claim 161 2 60 ∷ []) (held ∷ []) held (leased 161 2 60 held))
unfolding find put claim oldest_claimable run step session_scope
handle_session_lem_example =
    handle_session_lem echo lease_1 (Op.claim 161 2 60 ∷ []) (held ∷ []) held (leased 161 2 60 held)
      null refl refl refl

-- Worker 1 ends the task of worker 2.
overtaken : handle_session echo lease_1 (Op.claim 161 2 60 ∷ []) (held ∷ []) ≡ (
  ok true,
  record (leased 161 2 60 held) {
    status = succeeded;
    progress = 100;
    result_json = some null;
    lease_until = none;
  }
      ∷ [],
)
unfolding find put claim oldest_claimable run step session_scope handle_session
overtaken = refl
