-- ===== src/Tasks/Fencing.antt =====
-- What no operation of the queue can do to a task, whatever the order of the workers' calls.
use boiler_reviews.Prelude.{
  ℕ, ◌≤◌, ◌≡◌, refl, inl, inr, true, false, none, some, arith, ◌==◌, nat_eq, string_eq, option_eq,
  Bool-cases,
}
use mathlib.Core.Path.{subst}
use boiler_reviews.Prelude.Int.{ℤ}
use boiler_reviews.Prelude.Json.{Json}
use boiler_reviews.Prelude.Table.{is_some, find-put, find-key, HasUniqueKeys, put-HasUniqueKeys}
use boiler_reviews.Exec.{◌>>=◌, session_scope, ok, session_scope-keeps, >>=-eq-ok}
use boiler_reviews.Tasks.Model.{
  queued, running, succeeded, is_terminal, DurableTask, TaskLease, Store, task_id, get, save,
}
use boiler_reviews.Tasks.Queue.{
  owned, holds, write, finished, failed_with, progress, finish, fail, clamp_percent,
}

-- What every row satisfies.
pub record IsWellFormed (t : DurableTask) : Type 0 where
  pub progress_le : t.progress ≤ 100
  pub succeeded_done : t.status ≡ succeeded → (t.progress ≡ 100) × (is_some t.result_json ≡ true)
  pub running_leased :
      t.status ≡ running → (is_some t.lease_owner ≡ true) × (is_some t.lease_until ≡ true)
  pub attempts_eq : t.attempts ≡ t.fencing_token

-- How one task may differ after an operation.
pub record Evolves (t t' : DurableTask) : Type 0 where
  pub same_id : t'.id ≡ t.id
  pub token_le : t.fencing_token ≤ t'.fencing_token
  pub terminal_fixed : is_terminal t.status ≡ true → t' ≡ t
  pub cancel_kept : t.cancel_requested ≡ true → t'.cancel_requested ≡ true
  pub not_reclaimed : t.cancel_requested ≡ true → t'.fencing_token ≡ t.fencing_token
  pub queued_stuck : t.cancel_requested ≡ true → t.status ≡ queued → t' ≡ t
  pub lost :
      (lease : TaskLease)
      → lease.fencing_token ≤ t.fencing_token
      → holds lease t ≡ false
      → holds lease t' ≡ false
  pub well_formed : IsWellFormed t → IsWellFormed t'

pub Evolves-refl : (t : DurableTask) → Evolves t t
Evolves-refl t = record {
  same_id = refl;
  token_le = omega arith;
  terminal_fixed = λ _. refl;
  cancel_kept = λ h. h;
  not_reclaimed = λ _. refl;
  queued_stuck = λ _ _. refl;
  lost = λ _ _ h. h;
  well_formed = λ w. w;
}

-- What an operation leaves of the table: its key, and every task up to `Evolves`.
pub record Kept (s s' : Store) : Type 0 where
  pub unique : HasUniqueKeys task_id s → HasUniqueKeys task_id s'
  pub tasks :
      (i : ℕ) (t : DurableTask)
      → get i s ≡ some t
      → (t' : DurableTask) × (get i s' ≡ some t') × Evolves t t'
  pub created : (i : ℕ) (t : DurableTask) → get i s ≡ none → get i s' ≡ some t → IsWellFormed t

pub Kept-refl : (s : Store) → Kept s s
Kept-refl s = record {
  unique = λ u. u;
  tasks = λ i t h. (t, h, Evolves-refl t);
  created = λ i t n h. absurd (cc);
}

save-Evolves :
    (s : Store) (t u : DurableTask) (k : ℕ)
    → get k s ≡ some t
    → Evolves t u
    → (i : ℕ) (x : DurableTask) → get i s ≡ some x
    → (u.id == i) ≡ true
    → Evolves x u
save-Evolves s t u k h ev i x hx same =
    let key = find-key task_id k t s h in
    let one : t ≡ x = ground (arith, key, hx) in subst (λ y. Evolves y u) one ev

pub save-Kept :
    (s : Store) (t u : DurableTask) (k : ℕ) → get k s ≡ some t → Evolves t u → Kept s (save u s)
save-Kept s t u k h ev = record {
  unique = put-HasUniqueKeys task_id u s;
  tasks = λ i x hx. elim (Bool-cases (u.id == i)) [
    | inl same ↦ (u, ground (arith, find-put task_id i u s), save-Evolves s t u k h ev i x hx same)
    | inr other ↦ (x, ground (arith, find-put task_id i u s), Evolves-refl x)
  ];
  created = λ i x n hx. absurd (ground (arith, find-put task_id i u s));
}

pub owned-ok :
    (lease : TaskLease) (s s' : Store) (t : DurableTask)
    → owned lease s ≡ (ok t, s')
    → (get lease.task_id s ≡ some t) × (holds lease t ≡ true) × (s' ≡ s)
unfolding owned
owned-ok lease s s' t h = ground arith

owned-write-Kept :
    (lease : TaskLease) (f : DurableTask → DurableTask) (s : Store)
    → ((t : DurableTask) → holds lease t ≡ true → Evolves t (f t))
    → Kept s (session_scope (do task ← owned lease; write (f task)) s).1
owned-write-Kept lease f s ev =
    session_scope-keeps (Kept s) (do task ← owned lease; write (f task)) s (Kept-refl s)
      λ a s' h.
        let (t, u, read, wrote) = >>=-eq-ok (owned lease) (λ task. write (f task)) s h in
        let (found, held, same) = owned-ok lease s u t read in
        let s'-eq : s' ≡ save (f t) s = cc (wrote, same) in
        rw s'-eq (save-Kept s t (f t) lease.task_id found (ev t held))

-- The lock of a terminal or unclaimed task is held by no lease.
pub holds-running :
    (lease : TaskLease) (t : DurableTask) → holds lease t ≡ true → t.status ≡ running
holds-running lease t h = ground arith

finished-Evolves :
    (lease : TaskLease) (r : Json) (t : DurableTask)
    → holds lease t ≡ true
    → Evolves t (finished r t)
finished-Evolves lease r t h = ground arith

failed_with-Evolves :
    (lease : TaskLease) (r : Json) (t : DurableTask)
    → holds lease t ≡ true
    → Evolves t (failed_with r t)
failed_with-Evolves lease r t h = ground arith

pub finish-Kept :
    (lease : TaskLease) (r : Json) (s : Store) → Kept s (session_scope (finish lease r) s).1
unfolding finish
finish-Kept lease r s = owned-write-Kept lease (finished r) s (finished-Evolves lease r)

pub fail-Kept :
    (lease : TaskLease) (r : Json) (s : Store) → Kept s (session_scope (fail lease r) s).1
unfolding fail
fail-Kept lease r s = owned-write-Kept lease (failed_with r) s (failed_with-Evolves lease r)

pub progress-Kept :
    (lease : TaskLease) (v : ℤ) (s : Store) → Kept s (session_scope (progress lease v) s).1
unfolding progress
progress-Kept lease v s =
    owned-write-Kept lease (λ t. record t { progress = clamp_percent v }) s (λ t h. ground arith)
