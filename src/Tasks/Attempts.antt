-- ===== src/Tasks/Attempts.antt =====
-- What one call of `run_once` leaves alone.
use mathlib.Core.Path.{subst}
use boiler_reviews.Prelude.{
  ℕ, ◌≡◌, refl, Bool, true, Option, none, some, List, String, nat_eq, ap, ◌∙◌,
}
use boiler_reviews.Prelude.Json.{Json}
use boiler_reviews.Prelude.Table.{HasUniqueKeys}
use boiler_reviews.Exec.{Result, ok, err, pure, ◌>>◌, session_scope, >>=-eq-ok}
use boiler_reviews.Tasks.Model.{is_terminal, DurableTask, TaskLease, Store, task_id, get}
use boiler_reviews.Tasks.Queue.{claim, finish}
use boiler_reviews.Tasks.Schedule.{Op, run}
use boiler_reviews.Tasks.Fencing.{Kept, Kept-refl, finish-Kept, fail-Kept}
use boiler_reviews.Tasks.Steps.{claim-Kept}
use boiler_reviews.Tasks.History.{Kept-trans, run-Kept}
use boiler_reviews.Tasks.Merge.{HasRow, committed-HasRow}
use boiler_reviews.Tasks.Worker.{
  Handler, TaskWorker, Others, handle_current, handle, handle_session, end_session, conclude,
  dispatch, run_task, run_claimed, run_once, error_payload, unknown_payload,
}

-- A handler's own writes keep every task: documented of the handlers, which work on other tables.
abbrev pub IsSafe : Handler → Type 0
IsSafe h =
    (t : DurableTask) (lease : TaskLease) (s s' : Store) (r : Json)
    → HasUniqueKeys task_id s
    → h t lease s ≡ (ok r, s')
    → Kept s s'

finish-returned :
    (lease : TaskLease) (r : Json) (s s' : Store) (t : DurableTask)
    → finish lease r s ≡ (ok t, s')
    → Kept s s'
finish-returned lease r s s' t e =
    let same : (session_scope (finish lease r) s).1 ≡ s' = unfold session_scope in rw e refl in
    subst (Kept s) same (finish-Kept lease r s)

handle_current-Kept :
    (h : Handler) (lease : TaskLease) (o : Option DurableTask) (s s' : Store) (b : Bool)
    → IsSafe h
    → HasUniqueKeys task_id s
    → handle_current h lease o s ≡ (ok b, s')
    → Kept s s'
handle_current-Kept h lease none s s' b safe u e =
    let same : s ≡ s' = cc in subst (Kept s) same (Kept-refl s)
handle_current-Kept h lease (some t) s s' b safe u e =
    let (r, s1, returned, rest) = >>=-eq-ok (h t lease) (λ r. finish lease r >> pure true) s e in
    let (t', s2, done, last) = >>=-eq-ok (finish lease r) (λ _. pure true) s1 rest in
    let same : s2 ≡ s' = cc in
    subst (Kept s) same
      (Kept-trans s s1 s2 (safe t lease s s1 r u returned) (finish-returned lease r s1 s2 t' done))

-- A step that keeps every task keeps a row that has ended.
Kept-HasRow :
    (s s' : Store) (i : ℕ) (t : DurableTask)
    → is_terminal t.status ≡ true
    → Kept s s'
    → HasRow i t s
    → HasRow i t s'
Kept-HasRow s s' i t ended kept h =
    let (t', found', ev) = kept.tasks i t h.found in
    record { unique = kept.unique h.unique; found = found' ∙ ap some (ev.terminal_fixed ended) }

end_session-HasRow :
    (base theirs : Store) (x : Result Bool × Store) (i : ℕ) (t : DurableTask)
    → HasRow i t base
    → HasRow i t theirs
    → ((b : Bool) (mine : Store) → x ≡ (ok b, mine) → HasRow i t mine)
    → HasRow i t (end_session base theirs x).1
end_session-HasRow base theirs (ok b, mine) i t h k m =
    committed-HasRow base mine theirs i t h (m b mine refl) k
end_session-HasRow base theirs (err e, mine) i t h k m = k

module _ (i : ℕ) (t : DurableTask) (ended : is_terminal t.status ≡ true) where
  handle_session-HasRow :
      (h : Handler) (lease : TaskLease) (during : List Op) (s : Store)
      → IsSafe h
      → HasRow i t s
      → HasRow i t (handle_session h lease during s).1
  unfolding handle_session
  handle_session-HasRow h lease during s safe row =
      end_session-HasRow s (run during s) (handle h lease s) i t row
        (Kept-HasRow s (run during s) i t ended (run-Kept during s row.unique) row)
        (unfold handle in
          λ b mine e.
            Kept-HasRow s mine i t ended
              (handle_current-Kept h lease (get lease.task_id s) s mine b safe row.unique e) row)

  conclude-HasRow :
      (lease : TaskLease) (between : List Op) (x : Result Bool × Store)
      → HasRow i t x.1
      → HasRow i t (conclude lease between x).1
  conclude-HasRow lease between (ok b, s) row = row
  conclude-HasRow lease between (err e, s) row =
      let after = Kept-HasRow s (run between s) i t ended (run-Kept between s row.unique) row in
      Kept-HasRow (run between s) _ i t ended (fail-Kept lease (error_payload e) (run between s))
        after

  dispatch-HasRow :
      (o : Option Handler) (task_type : String) (lease : TaskLease) (others : Others) (s : Store)
      → ((h : Handler) → o ≡ some h → IsSafe h)
      → HasRow i t s
      → HasRow i t (dispatch o task_type lease others s).1
  dispatch-HasRow none task_type lease others s safe row =
      Kept-HasRow s _ i t ended (fail-Kept lease (unknown_payload task_type) s) row
  dispatch-HasRow (some h) task_type lease others s safe row =
      conclude-HasRow lease others.between (handle_session h lease others.during s)
        (handle_session-HasRow h lease others.during s (safe h refl) row)

  run_task-HasRow :
      (w : TaskWorker) (lease : TaskLease) (o : Option DurableTask) (others : Others) (s : Store)
      → ((name : String) (h : Handler) → w.handlers name ≡ some h → IsSafe h)
      → HasRow i t s
      → HasRow i t (run_task w lease o others s).1
  run_task-HasRow w lease none others s safe row = row
  run_task-HasRow w lease (some x) others s safe row =
      dispatch-HasRow (w.handlers x.task_type) x.task_type lease others (run others.before s)
        (safe x.task_type)
        (Kept-HasRow s (run others.before s) i t ended (run-Kept others.before s row.unique) row)

  run_claimed-HasRow :
      (w : TaskWorker) (others : Others) (x : Result (Option TaskLease) × Store)
      → ((name : String) (h : Handler) → w.handlers name ≡ some h → IsSafe h)
      → HasRow i t x.1
      → HasRow i t (run_claimed w others x).1
  run_claimed-HasRow w others (ok none, s) safe row = row
  run_claimed-HasRow w others (ok (some lease), s) safe row =
      run_task-HasRow w lease (get lease.task_id s) others s safe row
  run_claimed-HasRow w others (err e, s) safe row = row

-- A call of `run_once`, whatever the others do meanwhile and however its handler ends, leaves every
-- task that has succeeded, failed or been cancelled as it is, if the handlers' own writes keep tasks so.
pub run_once-is_terminal :
    (w : TaskWorker) (now : ℕ) (others : Others) (s : Store) (i : ℕ) (t : DurableTask)
    → ((name : String) (h : Handler) → w.handlers name ≡ some h → IsSafe h)
    → HasUniqueKeys task_id s
    → get i s ≡ some t
    → is_terminal t.status ≡ true
    → get i (run_once w now others s).1 ≡ some t
unfolding run_once
run_once-is_terminal w now others s i t safe u found ended =
    let claimed = session_scope (claim now w.owner w.lease_seconds) s in
    let row =
      Kept-HasRow s claimed.1 i t ended (claim-Kept now w.owner w.lease_seconds s u)
        (record { unique = u; found = found }) in
    (run_claimed-HasRow i t ended w others claimed safe row).found
