-- ===== src/Tasks/Schedule.antt =====
-- Any number of workers, requests and repairs, in any order: each step is one operation of
-- tasks/queue.py or ops/recovery.py in a session of its own.
use boiler_reviews.Prelude.{ℕ, String, Option, List, [], ◌∷◌}
use boiler_reviews.Prelude.Int.{ℤ}
use boiler_reviews.Prelude.Json.{Json}
use boiler_reviews.Exec.{session_scope}
use boiler_reviews.Tasks.Model.{TaskLease, Store}
use boiler_reviews.Tasks.Queue
use boiler_reviews.Tasks.Recovery.{reconcile_expired_tasks}

pub data Op : Type 0 where
  enqueue : ℕ → ℕ → String → Json → Option ℕ → Option String → Op
  claim : ℕ → ℕ → ℕ → Op
  heartbeat : ℕ → TaskLease → ℕ → Op
  progress : TaskLease → ℤ → Op
  finish : TaskLease → Json → Op
  fail : TaskLease → Json → Op
  request_cancel : ℕ → Option ℕ → Op
  recover : ℕ → Op

unfoldable pub step : Op → Store → Store
unfolding session_scope
step (enqueue id now task_type payload account key) s =
    (session_scope (Queue.enqueue id now task_type payload account key) s).1
step (claim now owner seconds) s = (session_scope (Queue.claim now owner seconds) s).1
step (heartbeat now lease seconds) s = (session_scope (Queue.heartbeat now lease seconds) s).1
step (progress lease value) s = (session_scope (Queue.progress lease value) s).1
step (finish lease result) s = (session_scope (Queue.finish lease result) s).1
step (fail lease error) s = (session_scope (Queue.fail lease error) s).1
step (request_cancel id account) s = (session_scope (Queue.request_cancel id account) s).1
step (recover now) s = (session_scope (reconcile_expired_tasks now) s).1

unfoldable pub run : List Op → Store → Store
run [] s = s
run (op ∷ ops) s = run ops (step op s)
