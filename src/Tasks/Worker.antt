-- ===== src/Tasks/Worker.antt =====
-- `TaskWorker.run_once` of src/boiler_reviews/tasks/queue.py. The handlers are parameters: each works in
-- the session that it is given, and may raise. Other workers act between the sessions of one call and while
-- a handler runs.
use boiler_reviews.Prelude.{ℕ, String, Bool, true, false, Option, none, some, List}
use boiler_reviews.Prelude.Json.{Json, str, obj, end, field}
use boiler_reviews.Exec.{
  Exec, Result, Error, ok, err, pure, gets, ◌>>=◌, ◌>>◌, session_scope, not_found, conflict,
  permission_denied, infeasible_plan, validation, assertion_error, integrity_error, attribute_error,
  value_error, type_error, key_error, recursion_error,
}
use boiler_reviews.Tasks.Model.{DurableTask, TaskLease, Store, get}
use boiler_reviews.Tasks.Queue.{claim, fail, finish}
use boiler_reviews.Tasks.Session.{committed}
use boiler_reviews.Tasks.Schedule.{Op, run}

abbrev pub Handler : Type 0
Handler = DurableTask → TaskLease → Exec Store Json

pub record TaskWorker : Type 0 where
  pub handlers : String → Option Handler
  pub owner : ℕ
  pub lease_seconds : ℕ

-- `type(error).__name__` and `str(error)`
abbrev named : Error → String × String
named (not_found m) = ("NotFoundError", m)
named (conflict m) = ("ConflictError", m)
named (permission_denied m) = ("PermissionDenied", m)
named (infeasible_plan m) = ("InfeasiblePlan", m)
named (validation m fields) = ("ValidationError", m)
named (assertion_error m) = ("AssertionError", m)
named (integrity_error m) = ("IntegrityError", m)
named (attribute_error m) = ("AttributeError", m)
named (value_error m) = ("ValueError", m)
named (type_error m) = ("TypeError", m)
named (key_error m) = ("KeyError", m)
named (recursion_error m) = ("RecursionError", m)

abbrev pub error_payload : Error → Json
error_payload e =
    let (name, message) = named e in
    obj (field "type" (str name) (field "message" (str message) end))

abbrev pub unknown_payload : String → Json
unknown_payload task_type =
    obj (field "code" (str "unknown_task_type") (field "task_type" (str task_type) end))

abbrev pub handle_current : Handler → TaskLease → Option DurableTask → Exec Store Bool
handle_current h lease none = pure false
handle_current h lease (some current) = do result ← h current lease; finish lease result; pure true

-- The session of the `try` block, on the rows as it has read them.
unfoldable pub handle : Handler → TaskLease → Exec Store Bool
unfolding finish
handle h lease = do current ← gets (get lease.task_id); handle_current h lease current

-- The end of that session: a commit writes what it has changed to the table, which others have brought to
-- `theirs` meanwhile; a raise drops it.
abbrev pub end_session : Store → Store → Result Bool × Store → Result Bool × Store
end_session base theirs (ok b, mine) = (ok b, committed base mine theirs)
end_session base theirs (err e, mine) = (err e, theirs)

-- `session.get` in `finish` returns the row that the session has read before the handler ran, so what others
-- do `during` the session is not seen by it.
unfoldable pub handle_session : Handler → TaskLease → List Op → Store → Result Bool × Store
unfolding handle run committed
handle_session h lease during s = end_session s (run during s) (handle h lease s)

-- What the others do: before the session of the handler, during it, and before `fail`.
pub record Others : Type 0 where
  pub before : List Op
  pub during : List Op
  pub between : List Op

-- `fail` in the `except` block: a `ConflictError` is dropped, and the first error is raised again.
abbrev pub raise_again : Error → Result DurableTask → Result Bool
raise_again e (ok task) = err e
raise_again e (err (conflict m)) = err e
raise_again e (err other) = err other

abbrev pub conclude : TaskLease → List Op → Result Bool × Store → Result Bool × Store
conclude lease between (ok b, s) = (ok b, s)
conclude lease between (err e, s) =
    let (r, s') = session_scope (fail lease (error_payload e)) (run between s) in
    (raise_again e r, s')

abbrev pub failed_unknown : Result DurableTask → Result Bool
failed_unknown (ok task) = ok true
failed_unknown (err e) = err e

abbrev pub dispatch : Option Handler → String → TaskLease → Others → Store → Result Bool × Store
dispatch none task_type lease others s =
    let (r, s') = session_scope (fail lease (unknown_payload task_type)) s in (failed_unknown r, s')
dispatch (some h) task_type lease others s =
    conclude lease others.between (handle_session h lease others.during s)

abbrev pub run_task :
    TaskWorker → TaskLease → Option DurableTask → Others → Store → Result Bool × Store
run_task w lease none others s = (ok false, s)
run_task w lease (some task) others s =
    dispatch (w.handlers task.task_type) task.task_type lease others (run others.before s)

abbrev pub run_claimed :
    TaskWorker → Others → Result (Option TaskLease) × Store → Result Bool × Store
run_claimed w others (ok none, s) = (ok false, s)
run_claimed w others (ok (some lease), s) = run_task w lease (get lease.task_id s) others s
run_claimed w others (err e, s) = (err e, s)

unfoldable pub run_once : TaskWorker → ℕ → Others → Store → Result Bool × Store
unfolding claim fail handle_session run session_scope
run_once w now others s = run_claimed w others (session_scope (claim now w.owner w.lease_seconds) s)
