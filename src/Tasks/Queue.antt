-- ===== src/Tasks/Queue.antt =====
-- src/boiler_reviews/tasks/queue.py, operation by operation. The clock, and the id that a new row is
-- given, are arguments. An operation is one transaction, so no other one comes between; only `claim` locks its row, so for the rest this is an assumption.
use boiler_reviews.Prelude.{
  ℕ, ◌+◌, min, String, Bool, true, false, Option, none, some, [], ◌∷◌, ◌==◌, nat_eq, string_eq,
  option_eq, if◌then◌else◌, ◌&&◌, ◌||◌, not, ltb,
}
use boiler_reviews.Prelude.Int.{ℤ, pos, negsuc}
use boiler_reviews.Prelude.Json.{Json}
use boiler_reviews.Exec.{
  Exec, pure, raise, gets, modify, or_raise, raise_if, ◌>>=◌, ◌>>◌, ok, not_found, conflict,
}
use boiler_reviews.Tasks.Model.{
  queued, running, succeeded, failed, cancelled, is_queued, is_running, is_terminal, DurableTask,
  TaskLease, Store, get, save, with_key, insert,
}

abbrev pub new_task : ℕ → ℕ → String → Json → Option ℕ → Option String → DurableTask
new_task id now task_type payload account key = record {
  id = id;
  account_id = account;
  task_type = task_type;
  status = queued;
  payload_json = payload;
  result_json = none;
  error_json = none;
  progress = 0;
  attempts = 0;
  lease_owner = none;
  lease_until = none;
  fencing_token = 0;
  cancel_requested = false;
  idempotency_key = key;
  created_at = now;
}

-- `if idempotency_key:` skips a missing key and an empty one.
abbrev pub existing_task : Option String → Store → Option DurableTask
existing_task none s = none
existing_task (some key) s = if key == "" then none else with_key key s

abbrev pub return_or_insert : Option DurableTask → DurableTask → Exec Store DurableTask
return_or_insert (some existing) t s = (ok existing, s)
return_or_insert none t s = insert t s

unfoldable pub enqueue : ℕ → ℕ → String → Json → Option ℕ → Option String → Exec Store DurableTask
enqueue id now task_type payload account key s =
    return_or_insert (existing_task key s) (new_task id now task_type payload account key) s

abbrev pub expired : Option ℕ → ℕ → Bool
expired none now = true
expired (some until) now = ltb until now

-- The `where` of `claim`.
abbrev pub claimable : ℕ → DurableTask → Bool
claimable now t =
    (is_queued t.status || is_running t.status)
    && expired t.lease_until now
    && not t.cancel_requested

abbrev earlier : DurableTask → Option DurableTask → DurableTask
earlier t none = t
earlier t (some u) = if ltb u.created_at t.created_at then u else t

-- `order_by(created_at.asc())` and the first row.
unfoldable pub oldest_claimable : ℕ → Store → Option DurableTask
oldest_claimable now [] = none
oldest_claimable now (t ∷ s) =
    let rest = oldest_claimable now s in if claimable now t then some (earlier t rest) else rest

abbrev pub leased : ℕ → ℕ → ℕ → DurableTask → DurableTask
leased now owner lease_seconds t = record t {
  status = running;
  lease_owner = some owner;
  lease_until = some (now + lease_seconds);
  fencing_token = t.fencing_token + 1;
  attempts = t.attempts + 1;
}

abbrev pub lease_of : ℕ → DurableTask → TaskLease
lease_of owner t = record { task_id = t.id; owner = owner; fencing_token = t.fencing_token }

abbrev take_lease : ℕ → ℕ → ℕ → Option DurableTask → Exec Store (Option TaskLease)
take_lease now owner lease_seconds none s = (ok none, s)
take_lease now owner lease_seconds (some t) s = (
  ok (some (lease_of owner (leased now owner lease_seconds t))),
  save (leased now owner lease_seconds t) s,
)

unfoldable pub claim : ℕ → ℕ → ℕ → Exec Store (Option TaskLease)
claim now owner lease_seconds s = take_lease now owner lease_seconds (oldest_claimable now s) s

-- The test of `_owned`, the other way round.
abbrev pub holds : TaskLease → DurableTask → Bool
holds lease t =
    t.lease_owner == some lease.owner
    && t.fencing_token == lease.fencing_token
    && is_running t.status

abbrev pub stale : String
stale = "Task lease is stale; refusing a fenced write."

unfoldable pub owned : TaskLease → Exec Store DurableTask
owned lease = do
  task ← or_raise (← gets (get lease.task_id)) (not_found "Task not found.")
  raise_if (not (holds lease task)) (conflict stale)
  pure task

-- The task is written back before the result is returned.
abbrev pub write : DurableTask → Exec Store DurableTask
write t = do modify (save t); pure t

abbrev pub extend_or_cancel : ℕ → ℕ → DurableTask → Exec Store DurableTask
extend_or_cancel now lease_seconds task =
    if task.cancel_requested
    then (write (record task { status = cancelled })
        >> raise (conflict "Task cancellation was requested."))
    else write (record task { lease_until = some (now + lease_seconds) })

unfoldable pub heartbeat : ℕ → TaskLease → ℕ → Exec Store DurableTask
unfolding owned
heartbeat now lease lease_seconds = do task ← owned lease; extend_or_cancel now lease_seconds task

-- `max(0, min(100, value))`
abbrev pub clamp_percent : ℤ → ℕ
clamp_percent (pos n) = min 100 n
clamp_percent (negsuc n) = 0

unfoldable pub progress : TaskLease → ℤ → Exec Store DurableTask
unfolding owned
progress lease value = do task ← owned lease; write (record task { progress = clamp_percent value })

abbrev pub finished : Json → DurableTask → DurableTask
finished result task =
    if task.cancel_requested
    then record task { status = cancelled; lease_until = none }
    else record task {
      status = succeeded;
      progress = 100;
      result_json = some result;
      lease_until = none;
    }

unfoldable pub finish : TaskLease → Json → Exec Store DurableTask
unfolding owned
finish lease result = do task ← owned lease; write (finished result task)

abbrev pub failed_with : Json → DurableTask → DurableTask
failed_with error task = record task {
  status = if task.cancel_requested then cancelled else failed;
  error_json = some error;
  lease_until = none;
}

unfoldable pub fail : TaskLease → Json → Exec Store DurableTask
unfolding owned
fail lease error = do task ← owned lease; write (failed_with error task)

-- `task.account_id is not None and task.account_id != account_id`
abbrev pub foreign : Option ℕ → Option ℕ → Bool
foreign none asker = false
foreign (some owner) asker = not (asker == some owner)

unfoldable pub request_cancel : ℕ → Option ℕ → Exec Store DurableTask
request_cancel id account = do
  task ← or_raise (← gets (get id)) (not_found "Task not found.")
  raise_if (foreign task.account_id account) (conflict "Only the task owner may cancel this task.")
  if is_terminal task.status then pure task else write (record task { cancel_requested = true })
