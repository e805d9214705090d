-- ===== src/Tasks/History.antt =====
-- What holds of a task after any sequence of operations by any workers.
use mathlib.Core.Path.{subst}
use boiler_reviews.Prelude.{
  ℕ, ◌≤◌, ◌≡◌, refl, sym, ap, ◌∙◌, true, false, some, List, [], ◌∷◌, arith, nat_eq, inl, inr,
  Option-cases,
}
use boiler_reviews.Prelude.Int.{ℤ}
use boiler_reviews.Prelude.Json.{Json}
use boiler_reviews.Prelude.Table.{find, HasUniqueKeys}
use boiler_reviews.Exec.{err, conflict}
use boiler_reviews.Tasks.Model.{queued, is_terminal, DurableTask, TaskLease, Store, task_id, get}
use boiler_reviews.Tasks.Queue.{holds, heartbeat, progress, finish, fail, stale}
use boiler_reviews.Tasks.Schedule.{Op, step, run}
use boiler_reviews.Tasks.Fencing.{Evolves, IsWellFormed, Kept, Kept-refl}
use boiler_reviews.Tasks.Steps.{step-Kept}

Evolves-trans : (t u v : DurableTask) → Evolves t u → Evolves u v → Evolves t v
Evolves-trans t u v p q = record {
  same_id = q.same_id ∙ p.same_id;
  token_le = omega arith;
  terminal_fixed = λ h.
      let e = p.terminal_fixed h in
      q.terminal_fixed (subst (λ x. is_terminal x.status ≡ true) (sym e) h) ∙ e;
  cancel_kept = λ h. q.cancel_kept (p.cancel_kept h);
  not_reclaimed = λ h. q.not_reclaimed (p.cancel_kept h) ∙ p.not_reclaimed h;
  queued_stuck = λ h k.
      let e = p.queued_stuck h k in q.queued_stuck (p.cancel_kept h) (ap (λ x. x.status) e ∙ k) ∙ e;
  lost = λ lease le h. q.lost lease (omega arith) (p.lost lease le h);
  well_formed = λ w. q.well_formed (p.well_formed w);
}

pub Kept-trans : (a b c : Store) → Kept a b → Kept b c → Kept a c
Kept-trans a b c p q = record {
  unique = λ u. q.unique (p.unique u);
  tasks = λ i t h.
      let (t', found, ev) = p.tasks i t h in
      let (t'', found', ev') = q.tasks i t' found in (t'', found', Evolves-trans t t' t'' ev ev');
  created = λ i t n h. elim (Option-cases (get i b)) [
    | inl absent ↦ q.created i t absent h
    | inr (t', found) ↦
        let (t'', found', ev) = q.tasks i t' found in
        let same : t'' ≡ t = cc (found', h) in
        subst IsWellFormed same (ev.well_formed (p.created i t' n found))
  ];
}

pub run-Kept : (ops : List Op) (s : Store) → HasUniqueKeys task_id s → Kept s (run ops s)
unfolding run
run-Kept [] s u = Kept-refl s
run-Kept (op ∷ ops) s u =
    let first = step-Kept op s u in
    Kept-trans s (step op s) (run ops (step op s)) first (run-Kept ops (step op s) (first.unique u))

-- A task in a terminal state keeps its row unchanged, whatever operations follow.
pub terminal_is_final :
    (ops : List Op) (s : Store) (i : ℕ) (t : DurableTask)
    → HasUniqueKeys task_id s
    → get i s ≡ some t
    → is_terminal t.status ≡ true
    → get i (run ops s) ≡ some t
terminal_is_final ops s i t u found ended =
    let (t', found', ev) = (run-Kept ops s u).tasks i t found in
    found' ∙ ap some (ev.terminal_fixed ended)

-- A task that is queued when its cancellation is requested stays queued with the same row, whatever
-- operations follow: no operation ever moves it to `cancelled`.
pub cancelled_while_queued_stays :
    (ops : List Op) (s : Store) (i : ℕ) (t : DurableTask)
    → HasUniqueKeys task_id s
    → get i s ≡ some t
    → t.status ≡ queued
    → t.cancel_requested ≡ true
    → get i (run ops s) ≡ some t
cancelled_while_queued_stays ops s i t u found waiting cancel =
    let (t', found', ev) = (run-Kept ops s u).tasks i t found in
    found' ∙ ap some (ev.queued_stuck cancel waiting)

-- Every row that the operations make from an empty table is well formed.
pub run-IsWellFormed :
    (ops : List Op) (i : ℕ) (t : DurableTask) → get i (run ops []) ≡ some t → IsWellFormed t
unfolding find
run-IsWellFormed ops i t found = (run-Kept ops [] tt).created i t refl found

-- The four writes that a lease allows, refused with the store unchanged.
abbrev pub IsRefused : TaskLease → Store → Type 0
IsRefused lease s =
    ((now seconds : ℕ) → heartbeat now lease seconds s ≡ (err (conflict stale), s))
    × ((value : ℤ) → progress lease value s ≡ (err (conflict stale), s))
    × ((result : Json) → finish lease result s ≡ (err (conflict stale), s))
    × ((error : Json) → fail lease error s ≡ (err (conflict stale), s))

pub lost-IsRefused :
    (lease : TaskLease) (s : Store) (t : DurableTask)
    → get lease.task_id s ≡ some t
    → holds lease t ≡ false
    → IsRefused lease s
unfolding heartbeat progress finish fail
lost-IsRefused lease s t found lost = (
  λ now seconds. ground arith,
  λ value. ground arith,
  λ result. ground arith,
  λ error. ground arith,
)

-- A lease that its task no longer honours, and that is not from the future, stays refused after any
-- operations.
pub lost_forever :
    (ops : List Op) (lease : TaskLease) (s : Store) (t : DurableTask)
    → HasUniqueKeys task_id s
    → get lease.task_id s ≡ some t
    → lease.fencing_token ≤ t.fencing_token
    → holds lease t ≡ false
    → IsRefused lease (run ops s)
lost_forever ops lease s t u found le lost =
    let (t', found', ev) = (run-Kept ops s u).tasks lease.task_id t found in
    lost-IsRefused lease (run ops s) t' found' (ev.lost lease le lost)
