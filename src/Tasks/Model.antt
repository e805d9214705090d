-- ===== src/Tasks/Model.antt =====
-- `DurableTask` of src/boiler_reviews/db/models.py and the lease of tasks/queue.py.
-- Row ids, accounts and worker names are texts that the code only compares: they are numbers here.
-- Times are whole seconds.
use boiler_reviews.Prelude.{
  ℕ, String, Bool, true, false, Option, none, some, List, [], ◌∷◌, ◌++◌, ◌==◌, nat_eq, string_eq,
  option_eq, if◌then◌else◌,
}
use boiler_reviews.Prelude.Json.{Json}
use boiler_reviews.Prelude.Table.{is_some}
use boiler_reviews.Prelude.Table
use boiler_reviews.Exec.{Exec, ok, err, integrity_error}

pub data TaskStatus : Type 0 where
  queued running succeeded failed cancelled : TaskStatus

abbrev pub is_queued : TaskStatus → Bool
is_queued queued = true
is_queued _ = false

abbrev pub is_running : TaskStatus → Bool
is_running running = true
is_running _ = false

-- `status in {"succeeded", "failed", "cancelled"}`
abbrev pub is_terminal : TaskStatus → Bool
is_terminal queued = false
is_terminal running = false
is_terminal _ = true

pub record DurableTask : Type 0 where
  pub id : ℕ
  pub account_id : Option ℕ
  pub task_type : String
  pub status : TaskStatus
  pub payload_json : Json
  pub result_json : Option Json
  pub error_json : Option Json
  pub progress : ℕ
  pub attempts : ℕ
  pub lease_owner : Option ℕ
  pub lease_until : Option ℕ
  pub fencing_token : ℕ
  pub cancel_requested : Bool
  pub idempotency_key : Option String
  pub created_at : ℕ

pub record TaskLease : Type 0 where
  pub task_id : ℕ
  pub owner : ℕ
  pub fencing_token : ℕ

-- The table `durable_tasks`, in the order of insertion.
abbrev pub Store : Type 0
Store = List DurableTask

abbrev pub task_id : DurableTask → ℕ
task_id t = t.id

-- `session.get(DurableTask, id)`
abbrev pub get : ℕ → Store → Option DurableTask
get = Table.find task_id

-- The write-back of a changed task.
abbrev pub save : DurableTask → Store → Store
save = Table.put task_id

-- `select(DurableTask).where(DurableTask.idempotency_key == key)`
unfoldable pub with_key : String → Store → Option DurableTask
with_key key [] = none
with_key key (t ∷ s) = if t.idempotency_key == some key then some t else with_key key s

abbrev key_taken : Option String → Store → Bool
key_taken none s = false
key_taken (some key) s = is_some (with_key key s)

-- `session.add(task); session.flush()`, under the table's primary key and its unique key.
unfoldable pub insert : DurableTask → Exec Store DurableTask
unfolding with_key
insert t s =
    if is_some (get t.id s)
    then (err (integrity_error "durable_tasks.id"), s)
    else if key_taken t.idempotency_key s
    then (err (integrity_error "durable_tasks.idempotency_key"), s)
    else (ok t, s ++ t ∷ [])
