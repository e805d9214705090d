-- ===== src/Tasks/Late.antt =====
-- A worker whose lease is lost: before the session of its handler, and while the handler runs.
use boiler_reviews.Prelude.{
  ℕ, ◌≡◌, refl, ◌⊎◌, inl, inr, ap, ◌∙◌, Bool, true, false, some, List, arith, ◌==◌, nat_eq,
  if◌then◌else◌, Bool-cases,
}
use mathlib.Core.Path.{subst}
use boiler_reviews.Prelude.Table.{find-key}
use boiler_reviews.Prelude.Json.{Json}
use boiler_reviews.Exec.{Result, ok, err, pure, conflict, bind-ok, bind-err, ◌>>◌}
use boiler_reviews.Tasks.Model.{
  DurableTask, TaskLease, Store, task_id, get, save, cancelled, succeeded,
}
use boiler_reviews.Tasks.Queue.{finish, finished, holds, owned, stale, write}
use boiler_reviews.Tasks.Schedule.{Op, run}
use boiler_reviews.Tasks.History.{lost-IsRefused}
use boiler_reviews.Tasks.Fencing.{holds-running}
use boiler_reviews.Tasks.Session.{merged, committed}
use boiler_reviews.Tasks.Merge.{get-committed, nat_refl, option_refl}
use boiler_reviews.Tasks.Worker.{Handler, handle, handle_session, end_session}

owned-held :
    (lease : TaskLease) (s : Store) (t : DurableTask)
    → get lease.task_id s ≡ some t
    → holds lease t ≡ true
    → owned lease s ≡ (ok t, s)
unfolding owned
owned-held lease s t found held = ground (arith, found, held)

finish-held :
    (lease : TaskLease) (r : Json) (s : Store) (t : DurableTask)
    → get lease.task_id s ≡ some t
    → holds lease t ≡ true
    → finish lease r s ≡ (ok (finished r t), save (finished r t) s)
unfolding finish
finish-held lease r s t found held =
    bind-ok (owned lease) (λ task. write (finished r task)) s (owned-held lease s t found held) refl

finished-id : (r : Json) (t : DurableTask) → (finished r t).id ≡ t.id
finished-id r t = ground arith

-- The row of the task after the commit: as the session ended it, under the newest lease.
finished-merged :
    (lease : TaskLease) (r : Json) (t other : DurableTask)
    → holds lease t ≡ true
    → let final = merged t (finished r t) other in
      (final.status ≡ (if t.cancel_requested then cancelled else succeeded))
      × (final.fencing_token ≡ other.fencing_token)
      × (final.lease_owner ≡ other.lease_owner)
unfolding merged
finished-merged lease r t other held =
    let running_now = holds-running lease t held in
    elim (Bool-cases t.cancel_requested) [
      | inl asked ↦
          rw (asked, running_now, nat_refl t.fencing_token, option_refl t.lease_owner)
            (refl, refl, refl)
      | inr free ↦
          rw (free, running_now, nat_refl t.fencing_token, option_refl t.lease_owner)
            (refl, refl, refl)
    ]

handle-returned :
    (h : Handler) (lease : TaskLease) (s s' : Store) (current : DurableTask) (r : Json)
    (x : Result Bool × Store)
    → get lease.task_id s ≡ some current
    → h current lease s ≡ (ok r, s')
    → (finish lease r >> pure true) s' ≡ x
    → handle h lease s ≡ x
unfolding handle
handle-returned h lease s s' current r x found returned rest =
    rw found
      (bind-ok (h current lease) (λ result. finish lease result >> pure true) s returned rest)

module _ (h : Handler) (lease : TaskLease) (during : List Op) (s : Store)
    (current other : DurableTask) (r : Json) (found : get lease.task_id s ≡ some current)
    (returned : h current lease s ≡ (ok r, s))
    (there : get lease.task_id (run during s) ≡ some other) where
  handle_session-lost :
      holds lease current ≡ false
      → handle_session h lease during s ≡ (err (conflict stale), run during s)
  unfolding handle_session
  handle_session-lost lost =
      let refused = (lost-IsRefused lease s current found lost).2 r in
      ap (end_session s (run during s)) (
        handle-returned h lease s s current r (err (conflict stale), s) found returned
          (bind-err (finish lease r) (λ _. pure true) s refused))

  handle_session-held :
      holds lease current ≡ true
      → handle_session h lease during s
        ≡ (ok true, committed s (save (finished r current) s) (run during s))
  unfolding handle_session
  handle_session-held held = ap (end_session s (run during s)) (
      handle-returned h lease s s current r (ok true, save (finished r current) s) found returned
        (bind-ok (finish lease r) (λ _. pure true) s (finish-held lease r s current found held)
          refl))

-- The table after the commit of a session that has changed one row, which others have left in the table.
get-committed_one :
    (k : ℕ) (base theirs : Store) (current changed other : DurableTask) (i : ℕ)
    → changed.id ≡ k
    → get k base ≡ some current
    → get k theirs ≡ some other
    → get i (committed base (save changed base) theirs)
      ≡ (if k == i then some (merged current changed other) else get i theirs)
get-committed_one k base theirs current changed other i here found there =
    let read : get changed.id base ≡ some current = rw here found in
    get-committed base theirs current changed i read ∙ elim (Bool-cases (k == i)) [
      | inl same ↦
          let at_i : get i theirs ≡ some other =
            subst (λ j. get j theirs ≡ some other) ((nat_eq.beq_iff k i).0 same) there in
          rw (here, same, at_i) refl
      | inr differs ↦ rw (here, differs) refl
    ]

-- A session that ends the task: it returns, and the table is that of the others but for the task, which is
-- ended under whatever token and owner it then has.
pub Ends : Handler → TaskLease → List Op → Store → DurableTask → DurableTask → Type 0
Ends h lease during s current other =
    (s' : Store) × (final : DurableTask) × (handle_session h lease during s ≡ (ok true, s'))
    × (final.status ≡ (if current.cancel_requested then cancelled else succeeded))
    × (final.fencing_token ≡ other.fencing_token)
    × (final.lease_owner ≡ other.lease_owner)
    × ((i : ℕ) → get i s' ≡ (if lease.task_id == i then some final else get i (run during s)))

-- A handler that leaves the tasks alone returns, and the task is in the table before and after what others
-- do while it runs. If the lease did not hold when the session read the task, the session raises the
-- conflict and writes nothing. If it held then, the session ends the task, as cancelled if that was asked
-- before and as succeeded otherwise, and changes no other task, whatever the others have done: also
-- when the task has passed to another worker, whose token and owner the ended task then has.
pub handle_session_lem :
    (h : Handler) (lease : TaskLease) (during : List Op) (s : Store) (current other : DurableTask)
    (r : Json)
    → get lease.task_id s ≡ some current
    → h current lease s ≡ (ok r, s)
    → get lease.task_id (run during s) ≡ some other
    → ((holds lease current ≡ false)
        × (handle_session h lease during s ≡ (err (conflict stale), run during s)))
      ⊎ ((holds lease current ≡ true) × Ends h lease during s current other)
unfolding Ends
handle_session_lem h lease during s current other r found returned there =
    elim (Bool-cases (holds lease current)) [
      | inr lost ↦
          inl (lost, handle_session-lost h lease during s current other r found returned there lost)
      | inl held ↦
          let ended = finished r current in
          let here : ended.id ≡ lease.task_id =
            finished-id r current ∙ find-key task_id lease.task_id current s found in
          let (status, token, owner) = finished-merged lease r current other held in
          inr (
            held,
            (
              committed s (save ended s) (run during s),
              merged current ended other,
              handle_session-held h lease during s current other r found returned there held,
              status,
              token,
              owner,
              λ i.
                  get-committed_one lease.task_id s (run during s) current ended other i here found
                    there,
            ),
          )
    ]
