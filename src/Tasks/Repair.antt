-- ===== src/Tasks/Repair.antt =====
-- What the repair of src/boiler_reviews/ops/recovery.py does to each row, told without its code.
use boiler_reviews.Prelude.{
  ℕ, suc, ◌+◌, ◌≤◌, ◌<◌, ◌≡◌, ◌≢◌, ◌⊎◌, inl, inr, refl, Bool, true, false, Option, none, some, [],
  ◌∷◌, arith, Bool-cases, if◌then◌else◌,
}
use boiler_reviews.Exec.{ok}
use boiler_reviews.Tasks.Model.{
  TaskStatus, DurableTask, Store, running, queued, cancelled, is_running,
}
use boiler_reviews.Tasks.Recovery.{Recovered, interrupted, recover_rows, reconcile_expired_tasks}

-- A row whose lease has run out.
abbrev pub HasExpired : ℕ → DurableTask → Type 0
HasExpired now t =
    (t.status ≡ running) × ((until : ℕ) × (t.lease_until ≡ some until) × (until < now))

abbrev pub IsCurrent : ℕ → DurableTask → Type 0
IsCurrent now t =
    (t.status ≢ running)
    ⊎ ((t.lease_until ≡ none) ⊎ ((until : ℕ) × (t.lease_until ≡ some until) × (now ≤ until)))

-- The table before and after a repair, the number of tasks that are queued again and of those that
-- are cancelled.
pub data IsRepaired (now : ℕ) : Store → Store → ℕ → ℕ → Type 0 where
  done : IsRepaired now [] [] 0 0
  cancel :
      {t : DurableTask} {s s' : Store} {q c : ℕ}
      → HasExpired now t
      → t.cancel_requested ≡ true
      → IsRepaired now s s' q c
      → IsRepaired now
          (t ∷ s)
          (record t { status = cancelled; lease_owner = none; lease_until = none } ∷ s')
          q
          (suc c)
  requeue :
      {t : DurableTask} {s s' : Store} {q c : ℕ}
      → HasExpired now t
      → t.cancel_requested ≡ false
      → IsRepaired now s s' q c
      → IsRepaired now
          (t ∷ s)
          (record t { status = queued; lease_owner = none; lease_until = none } ∷ s')
          (suc q)
          c
  leave :
      {t : DurableTask} {s s' : Store} {q c : ℕ}
      → IsCurrent now t
      → IsRepaired now s s' q c
      → IsRepaired now (t ∷ s) (t ∷ s') q c

status_running : (x : TaskStatus) → is_running x ≡ true → x ≡ running
status_running running h = refl
status_running queued h = absurd (cc)
status_running TaskStatus.succeeded h = absurd (cc)
status_running TaskStatus.failed h = absurd (cc)
status_running cancelled h = absurd (cc)

interrupted-HasExpired : (now : ℕ) (t : DurableTask) → interrupted now t ≡ true → HasExpired now t
interrupted-HasExpired now t h = go t.lease_until refl
  where
    go : (o : Option ℕ) → t.lease_until ≡ o → HasExpired now t
    go none e = absurd (ground (arith, h, e))
    go (some until) e =
        (status_running t.status (ground (arith, h)), (until, e, ground (arith, h, e)))

interrupted-IsCurrent : (now : ℕ) (t : DurableTask) → interrupted now t ≡ false → IsCurrent now t
interrupted-IsCurrent now t h = elim (Bool-cases (is_running t.status)) [
  | inr other ↦ inl (λ e. absurd (ground (arith, other, e)))
  | inl runs ↦ inr (go t.lease_until refl runs)
]
  where
    go :
        (o : Option ℕ)
        → t.lease_until ≡ o
        → is_running t.status ≡ true
        → (t.lease_until ≡ none) ⊎ ((until : ℕ) × (t.lease_until ≡ some until) × (now ≤ until))
    go none e runs = inl e
    go (some until) e runs = inr (until, e, ground (arith, h, e, runs))

-- The step of the loop, with the requested cancellation told apart.
expired-IsRepaired :
    (now : ℕ) (t : DurableTask) (s s' : Store) (r : Recovered) (asked : Bool)
    → t.cancel_requested ≡ asked
    → HasExpired now t
    → IsRepaired now s s' r.requeued r.cancelled
    → r.expired ≡ r.requeued + r.cancelled
    → let r' =
        if asked
        then record r { expired = suc r.expired; cancelled = suc r.cancelled }
        else record r { expired = suc r.expired; requeued = suc r.requeued } in
      IsRepaired now
        (t ∷ s)
        (record t {
          lease_owner = none;
          lease_until = none;
          status = if asked then cancelled else queued;
        }
          ∷ s')
        r'.requeued
        r'.cancelled
      × (r'.expired ≡ r'.requeued + r'.cancelled)
expired-IsRepaired now t s s' r true asked late rest counts =
    (cancel late asked rest, omega (arith, counts))
expired-IsRepaired now t s s' r false unasked late rest counts =
    (requeue late unasked rest, omega (arith, counts))

recover_rows-IsRepaired :
    (now : ℕ) (s : Store)
    → let (r, s') = recover_rows now s in
      IsRepaired now s s' r.requeued r.cancelled × (r.expired ≡ r.requeued + r.cancelled)
unfolding recover_rows
recover_rows-IsRepaired now [] = (done, refl)
recover_rows-IsRepaired now (t ∷ s) =
    let (rest, counts) = recover_rows-IsRepaired now s in
    let (r, s') = recover_rows now s in
    elim (Bool-cases (interrupted now t)) [
      | inr current ↦ rw current (leave (interrupted-IsCurrent now t current) rest, counts)
      | inl late ↦ rw late (
          expired-IsRepaired now t s s' r t.cancel_requested refl
            (interrupted-HasExpired now t late) rest counts)
    ]

-- The repair returns. It cancels each running task whose lease has run out and whose cancellation was
-- requested, queues every other such task again, takes the lease from both, leaves every other row as it
-- is, and reports how many rows it cancelled, how many it queued again, and their sum.
pub reconcile_expired_tasks-IsRepaired :
    (now : ℕ) (s : Store)
    → (r : Recovered) × (s' : Store) × (reconcile_expired_tasks now s ≡ (ok r, s'))
      × IsRepaired now s s' r.requeued r.cancelled
      × (r.expired ≡ r.requeued + r.cancelled)
unfolding reconcile_expired_tasks
reconcile_expired_tasks-IsRepaired now s =
    let (repaired, counts) = recover_rows-IsRepaired now s in
    ((recover_rows now s).0, (recover_rows now s).1, refl, repaired, counts)
