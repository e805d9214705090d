-- ===== src/Tasks/Session.antt =====
-- What SQLAlchemy does with the rows of a session that stays open while others work: the session reads
-- each row once, and its commit writes the columns that it has changed to the rows as they then are.
use boiler_reviews.Prelude.{
  Bool, true, false, Option, none, some, [], ◌∷◌, ◌++◌, ◌==◌, nat_eq, string_eq, option_eq, not,
  select, if◌then◌else◌,
}
use boiler_reviews.Prelude.Table.{is_some}
use boiler_reviews.Prelude.Json.{Json, same_json, same_bool}
use boiler_reviews.Tasks.Model.{
  TaskStatus, queued, running, succeeded, failed, cancelled, DurableTask, Store, get,
}

abbrev pub same_status : TaskStatus → TaskStatus → Bool
same_status queued queued = true
same_status running running = true
same_status succeeded succeeded = true
same_status failed failed = true
same_status cancelled cancelled = true
same_status _ _ = false

abbrev pub same_json_column : Option Json → Option Json → Bool
same_json_column none none = true
same_json_column (some a) (some b) = same_json a b
same_json_column _ _ = false

-- A column as it was read, as the session has it, and as it is in the table.
abbrev pub column : {A : Type 0} → Bool → A → A → A
column same mine theirs = if same then theirs else mine

-- The row after the `UPDATE` of the changed columns.
unfoldable pub merged : DurableTask → DurableTask → DurableTask → DurableTask
unfolding same_json
merged base mine theirs = record {
  id = theirs.id;
  account_id = column (base.account_id == mine.account_id) mine.account_id theirs.account_id;
  task_type = column (base.task_type == mine.task_type) mine.task_type theirs.task_type;
  status = column (same_status base.status mine.status) mine.status theirs.status;
  payload_json =
      column (same_json base.payload_json mine.payload_json) mine.payload_json theirs.payload_json;
  result_json =
      column (same_json_column base.result_json mine.result_json) mine.result_json
        theirs.result_json;
  error_json =
      column (same_json_column base.error_json mine.error_json) mine.error_json theirs.error_json;
  progress = column (base.progress == mine.progress) mine.progress theirs.progress;
  attempts = column (base.attempts == mine.attempts) mine.attempts theirs.attempts;
  lease_owner = column (base.lease_owner == mine.lease_owner) mine.lease_owner theirs.lease_owner;
  lease_until = column (base.lease_until == mine.lease_until) mine.lease_until theirs.lease_until;
  fencing_token =
      column (base.fencing_token == mine.fencing_token) mine.fencing_token theirs.fencing_token;
  cancel_requested =
      column (same_bool base.cancel_requested mine.cancel_requested) mine.cancel_requested
        theirs.cancel_requested;
  idempotency_key =
      column (base.idempotency_key == mine.idempotency_key) mine.idempotency_key
        theirs.idempotency_key;
  created_at = column (base.created_at == mine.created_at) mine.created_at theirs.created_at;
}

abbrev pub merged_row : Option DurableTask → Option DurableTask → DurableTask → DurableTask
merged_row (some base) (some mine) theirs = merged base mine theirs
merged_row _ _ theirs = theirs

unfoldable pub merged_rows : Store → Store → Store → Store
unfolding merged
merged_rows base mine [] = []
merged_rows base mine (t ∷ s) =
    merged_row (get t.id base) (get t.id mine) t ∷ merged_rows base mine s

-- The rows that the session has inserted, under ids that no other session drew.
unfoldable pub add_rows : Store → Store → Store
add_rows [] s = s
add_rows (t ∷ new) s = add_rows new (if is_some (get t.id s) then s else s ++ t ∷ [])

abbrev pub new_rows : Store → Store → Store
new_rows base mine = select (λ t. not (is_some (get t.id base))) mine

-- The table after the commit of a session that read `base` and has `mine`, when others have made it `theirs`.
unfoldable pub committed : Store → Store → Store → Store
unfolding merged_rows add_rows
committed base mine theirs = add_rows (new_rows base mine) (merged_rows base mine theirs)
