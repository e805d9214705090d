-- ===== src/Tasks/Leases.antt =====
-- What a claim and a repair do, and that each shuts out the earlier holders of the lease.
use boiler_reviews.Prelude.{
  ℕ, ◌≤◌, ◌<◌, ◌≡◌, ◌⊎◌, inl, inr, true, false, none, some, List, [], ◌∷◌, arith, ◌==◌, nat_eq, All,
  if◌then◌else◌, Option-cases,
}
use boiler_reviews.Prelude.Table.{find-put, HasUniqueKeys, put-HasUniqueKeys}
use boiler_reviews.Exec.{ok}
use boiler_reviews.Tasks.Model.{DurableTask, TaskLease, Store, task_id, get, save}
use boiler_reviews.Tasks.Queue.{claim, claimable, oldest_claimable, leased, lease_of}
use boiler_reviews.Tasks.Recovery.{recover_rows, reconcile_expired_tasks, interrupted, released}
use boiler_reviews.Tasks.Schedule.{Op, run}
use boiler_reviews.Tasks.Steps.{oldest_claimable-get, recover_rows-get, recover-Kept}
use boiler_reviews.Tasks.History.{IsRefused, lost_forever}

-- No row can be claimed.
abbrev pub NoneClaimable : ℕ → Store → Type 0
NoneClaimable now = All (λ t. claimable now t ≡ false)

-- No claimable row is older than `t`.
abbrev pub IsOldest : ℕ → DurableTask → Store → Type 0
IsOldest now t = All (λ u. claimable now u ≡ true → t.created_at ≤ u.created_at)

oldest_claimable-NoneClaimable :
    (now : ℕ) (s : Store) → oldest_claimable now s ≡ none → NoneClaimable now s
unfolding oldest_claimable
oldest_claimable-NoneClaimable now [] h = tt
oldest_claimable-NoneClaimable now (t ∷ s) h =
    (ground arith, oldest_claimable-NoneClaimable now s (ground arith))

IsOldest-mono :
    (now : ℕ) (t u : DurableTask) (s : Store)
    → t.created_at ≤ u.created_at
    → IsOldest now u s
    → IsOldest now t s
IsOldest-mono now t u [] le h = tt
IsOldest-mono now t u (x ∷ s) le h = (λ c. omega (arith, h.0 c), IsOldest-mono now t u s le h.1)

NoneClaimable-IsOldest :
    (now : ℕ) (t : DurableTask) (s : Store) → NoneClaimable now s → IsOldest now t s
NoneClaimable-IsOldest now t [] h = tt
NoneClaimable-IsOldest now t (x ∷ s) h = (λ c. absurd (cc), NoneClaimable-IsOldest now t s h.1)

oldest_claimable-IsOldest :
    (now : ℕ) (s : Store) (t : DurableTask) → oldest_claimable now s ≡ some t → IsOldest now t s
unfolding oldest_claimable
oldest_claimable-IsOldest now [] t h = cc
oldest_claimable-IsOldest now (x ∷ s) t h = elim (Option-cases (oldest_claimable now s)) [
  | inl empty ↦
      (ground arith, NoneClaimable-IsOldest now t s (oldest_claimable-NoneClaimable now s empty))
  | inr (u, found) ↦ (
    ground arith,
    IsOldest-mono now t u s (ground arith) (oldest_claimable-IsOldest now s u found),
  )
]

-- `claim` leaves the table alone and returns no lease exactly when no row is claimable. Otherwise it
-- leases an oldest claimable row, with the next fencing token, and leaves every other row alone.
pub claim_lem :
    (now owner seconds : ℕ) (s : Store)
    → HasUniqueKeys task_id s
    → ((claim now owner seconds s ≡ (ok none, s)) × NoneClaimable now s)
      ⊎ ((t : DurableTask) × (get t.id s ≡ some t)
          × (claimable now t ≡ true)
          × IsOldest now t s
          × (claim now owner seconds s ≡ (
            ok (some (lease_of owner (leased now owner seconds t))),
            save (leased now owner seconds t) s,
          ))
          × ((i : ℕ)
              → get i (claim now owner seconds s).1
                ≡ (if t.id == i then some (leased now owner seconds t) else get i s)))
unfolding claim
claim_lem now owner seconds s u = elim (Option-cases (oldest_claimable now s)) [
  | inl empty ↦ inl (rw empty, oldest_claimable-NoneClaimable now s empty)
  | inr (t, found) ↦
      let (read, ready) = oldest_claimable-get now s t u found in
      inr (
        t,
        read,
        ready,
        oldest_claimable-IsOldest now s t found,
        rw found,
        λ i. rw found (ground (arith, find-put task_id i (leased now owner seconds t) s)),
      )
]

claim-ok :
    (now owner seconds : ℕ) (s s' : Store) (new : TaskLease)
    → HasUniqueKeys task_id s
    → claim now owner seconds s ≡ (ok (some new), s')
    → (t : DurableTask) × (get t.id s ≡ some t)
      × (new ≡ lease_of owner (leased now owner seconds t))
      × (s' ≡ save (leased now owner seconds t) s)
unfolding claim
claim-ok now owner seconds s s' new u h = elim (Option-cases (oldest_claimable now s)) [
  | inl empty ↦ absurd (ground arith)
  | inr (t, found) ↦ (t, (oldest_claimable-get now s t u found).0, ground arith, ground arith)
]

-- Once a task is claimed anew, a lease with an earlier fencing token is refused for ever: whatever
-- operations follow, none of its writes goes through.
pub claim_fences :
    (now owner seconds : ℕ) (s s' : Store) (old new : TaskLease) (ops : List Op)
    → HasUniqueKeys task_id s
    → claim now owner seconds s ≡ (ok (some new), s')
    → old.task_id ≡ new.task_id
    → old.fencing_token < new.fencing_token
    → IsRefused old (run ops s')
claim_fences now owner seconds s s' old new ops u claimed same earlier =
    let (x, read, lease, wrote) = claim-ok now owner seconds s s' new u claimed in
    let y = leased now owner seconds x in
    let kept : HasUniqueKeys task_id s' = rw wrote (put-HasUniqueKeys task_id y s u) in
    let found : get old.task_id s' ≡ some y =
      rw wrote (ground (arith, find-put task_id old.task_id y s)) in
    lost_forever ops old s' y kept found (ground arith) (ground arith)

-- A worker whose lease ran out before a repair is refused for ever, whatever operations follow.
pub reconcile_expired_tasks_fences :
    (now : ℕ) (s : Store) (lease : TaskLease) (t : DurableTask) (ops : List Op)
    → HasUniqueKeys task_id s
    → get lease.task_id s ≡ some t
    → interrupted now t ≡ true
    → lease.fencing_token ≤ t.fencing_token
    → IsRefused lease (run ops (reconcile_expired_tasks now s).1)
unfolding reconcile_expired_tasks
reconcile_expired_tasks_fences now s lease t ops u found late le =
    lost_forever ops lease (recover_rows now s).1 (released t) ((recover-Kept now s).unique u)
      (ground (arith, recover_rows-get now lease.task_id s)) le (ground arith)
