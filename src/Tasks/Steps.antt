-- ===== src/Tasks/Steps.antt =====
-- Every operation keeps every task up to `Evolves`; so does any sequence of operations.
use mathlib.Core.Path.{subst}
use boiler_reviews.Prelude.{
  ℕ, ◌≡◌, refl, ◌⊎◌, inl, inr, true, Option, none, some, [], ◌∷◌, arith, nat_eq, string_eq,
  option_eq, if◌then◌else◌, Bool-cases, Option-cases,
}
use boiler_reviews.Prelude.Table.{find-key, find-append, find, HasUniqueKeys, append-HasUniqueKeys}
use boiler_reviews.Exec.{session_scope, ok, session_scope-keeps, >>=-eq-ok}
use boiler_reviews.Tasks.Model.{
  is_terminal, DurableTask, TaskLease, Store, task_id, get, save, insert,
}
use boiler_reviews.Tasks.Queue
use boiler_reviews.Tasks.Queue.{
  owned, holds, extend_or_cancel, return_or_insert, existing_task, oldest_claimable, claimable,
  leased,
}
use boiler_reviews.Tasks.Recovery.{recover_rows, reconcile_expired_tasks, released, interrupted}
use boiler_reviews.Tasks.Schedule.{Op, step}
use boiler_reviews.Tasks.Fencing.{
  IsWellFormed, Evolves, Evolves-refl, Kept, Kept-refl, save-Kept, owned-ok, finish-Kept, fail-Kept,
  progress-Kept,
}

-- The call has read a task and written it back changed.
Rewrites : Store → DurableTask → Store → Type 0
Rewrites s a s' = (t : DurableTask) × (get a.id s ≡ some t) × Evolves t a × (s' ≡ save a s)

Rewrites-Kept : (s s' : Store) (a : DurableTask) → Rewrites s a s' → Kept s s'
unfolding Rewrites
Rewrites-Kept s s' a (t, found, ev, wrote) = rw wrote (save-Kept s t a a.id found ev)

heartbeat-Rewrites :
    (now : ℕ) (lease : TaskLease) (seconds : ℕ) (s s' : Store) (a : DurableTask)
    → Queue.heartbeat now lease seconds s ≡ (ok a, s')
    → Rewrites s a s'
unfolding Rewrites Queue.heartbeat
heartbeat-Rewrites now lease seconds s s' a h =
    let (t, u, read, wrote) = >>=-eq-ok (owned lease) (extend_or_cancel now seconds) s h in
    let (found, held, same) = owned-ok lease s u t read in
    let key = find-key task_id lease.task_id t s found in
    (t, ground arith, ground arith, ground arith)

request_cancel-ok :
    (id : ℕ) (account : Option ℕ) (s s' : Store) (a t : DurableTask)
    → get id s ≡ some t
    → Queue.request_cancel id account s ≡ (ok a, s')
    → (s' ≡ s) ⊎ ((s' ≡ save a s) × Evolves t a)
unfolding Queue.request_cancel
request_cancel-ok id account s s' a t found h = elim (Bool-cases (is_terminal t.status)) [
  | inl ended ↦ inl (ground (arith, found))
  | inr live ↦ inr (ground arith, ground arith)
]

request_cancel-Kept :
    (id : ℕ) (account : Option ℕ) (s s' : Store) (a : DurableTask)
    → Queue.request_cancel id account s ≡ (ok a, s')
    → Kept s s'
unfolding Queue.request_cancel
request_cancel-Kept id account s s' a h = elim (Option-cases (get id s)) [
  | inl missing ↦ absurd (ground arith)
  | inr (t, found) ↦ elim (request_cancel-ok id account s s' a t found h) [
    | inl same ↦ rw same (Kept-refl s)
    | inr (wrote, ev) ↦ rw wrote (save-Kept s t a id found ev)
  ]
]

-- The task that `claim` picks is in the table, and its row was claimable.
pub oldest_claimable-get :
    (now : ℕ) (s : Store) (t : DurableTask)
    → HasUniqueKeys task_id s
    → oldest_claimable now s ≡ some t
    → (get t.id s ≡ some t) × (claimable now t ≡ true)
unfolding oldest_claimable find
oldest_claimable-get now [] t u h = cc
oldest_claimable-get now (x ∷ s) t u h = ground (arith, oldest_claimable-get now s t u.1)

pub claim-Kept :
    (now owner seconds : ℕ) (s : Store)
    → HasUniqueKeys task_id s
    → Kept s (session_scope (Queue.claim now owner seconds) s).1
unfolding Queue.claim session_scope
claim-Kept now owner seconds s u = elim (Option-cases (oldest_claimable now s)) [
  | inl nothing ↦ rw nothing (Kept-refl s)
  | inr (t, found) ↦ rw found (
      let (read, ready) = oldest_claimable-get now s t u found in
      save-Kept s t (leased now owner seconds t) t.id read (ground arith))
]

insert-Kept :
    (t u : DurableTask) (s s' : Store) → IsWellFormed t → insert t s ≡ (ok u, s') → Kept s s'
unfolding insert find
insert-Kept t u s s' w h = record {
  unique = λ k. ground (arith, append-HasUniqueKeys task_id s t k);
  tasks = λ i x hx. (x, ground (arith, find-append task_id i s (t ∷ [])), Evolves-refl x);
  created = λ i x n hx. subst IsWellFormed (ground (arith, find-append task_id i s (t ∷ []))) w;
}

return_or_insert-Kept :
    (o : Option DurableTask) (t u : DurableTask) (s s' : Store)
    → IsWellFormed t
    → return_or_insert o t s ≡ (ok u, s')
    → Kept s s'
return_or_insert-Kept none t u s s' w h = insert-Kept t u s s' w h
return_or_insert-Kept (some x) t u s s' w h = let same : s' ≡ s = cc in rw same (Kept-refl s)

abbrev pub recovered : ℕ → Option DurableTask → Option DurableTask
recovered now none = none
recovered now (some t) = some (if interrupted now t then released t else t)

pub recover_rows-get :
    (now i : ℕ) (s : Store) → get i (recover_rows now s).1 ≡ recovered now (get i s)
unfolding recover_rows find
recover_rows-get now i [] = refl
recover_rows-get now i (x ∷ s) = ground (arith, recover_rows-get now i s)

recover_rows-HasUniqueKeys :
    (now : ℕ) (s : Store) → HasUniqueKeys task_id s → HasUniqueKeys task_id (recover_rows now s).1
unfolding recover_rows
recover_rows-HasUniqueKeys now [] u = tt
recover_rows-HasUniqueKeys now (x ∷ s) u =
    ground (arith, recover_rows-HasUniqueKeys now s u.1, recover_rows-get now x.id s)

pub recover-Kept : (now : ℕ) (s : Store) → Kept s (recover_rows now s).1
recover-Kept now s = record {
  unique = recover_rows-HasUniqueKeys now s;
  tasks = λ i t h. (
    if interrupted now t then released t else t,
    ground (arith, recover_rows-get now i s),
    ground arith,
  );
  created = λ i t n h. absurd (ground (arith, recover_rows-get now i s));
}

-- One operation, by any worker, keeps every task up to `Evolves`.
pub step-Kept : (op : Op) (s : Store) → HasUniqueKeys task_id s → Kept s (step op s)
unfolding step session_scope
step-Kept (Op.enqueue id now task_type payload account key) s u =
    session_scope-keeps (Kept s) (Queue.enqueue id now task_type payload account key) s
      (Kept-refl s)
      (unfold Queue.enqueue in
        λ a s'. return_or_insert-Kept (existing_task key s) _ a s s' (ground arith))
step-Kept (Op.claim now owner seconds) s u = claim-Kept now owner seconds s u
step-Kept (Op.heartbeat now lease seconds) s u =
    session_scope-keeps (Kept s) (Queue.heartbeat now lease seconds) s (Kept-refl s)
      λ a s' h. Rewrites-Kept s s' a (heartbeat-Rewrites now lease seconds s s' a h)
step-Kept (Op.progress lease value) s u = progress-Kept lease value s
step-Kept (Op.finish lease result) s u = finish-Kept lease result s
step-Kept (Op.fail lease error) s u = fail-Kept lease error s
step-Kept (Op.request_cancel id account) s u =
    session_scope-keeps (Kept s) (Queue.request_cancel id account) s (Kept-refl s)
      λ a s'. request_cancel-Kept id account s s' a
step-Kept (Op.recover now) s u = unfold reconcile_expired_tasks in recover-Kept now s
