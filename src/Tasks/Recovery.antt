-- ===== src/Tasks/Recovery.antt =====
-- `reconcile_expired_tasks` of src/boiler_reviews/ops/recovery.py.
use boiler_reviews.Prelude.{
  ℕ, suc, Bool, false, Option, none, some, [], ◌∷◌, if◌then◌else◌, ◌&&◌, ltb,
}
use boiler_reviews.Exec.{Exec, ok}
use boiler_reviews.Tasks.Model.{DurableTask, Store, queued, cancelled, is_running}

pub record Recovered : Type 0 where
  pub expired : ℕ
  pub requeued : ℕ
  pub cancelled : ℕ

-- `lease_until < now`, which SQL does not grant to a missing value.
abbrev pub lapsed : Option ℕ → ℕ → Bool
lapsed none now = false
lapsed (some until) now = ltb until now

abbrev pub interrupted : ℕ → DurableTask → Bool
interrupted now t = is_running t.status && lapsed t.lease_until now

abbrev pub released : DurableTask → DurableTask
released t = record t {
  lease_owner = none;
  lease_until = none;
  status = if t.cancel_requested then cancelled else queued;
}

abbrev tally : DurableTask → Recovered → Recovered
tally t r =
    if t.cancel_requested
    then record r { expired = suc r.expired; cancelled = suc r.cancelled }
    else record r { expired = suc r.expired; requeued = suc r.requeued }

unfoldable pub recover_rows : ℕ → Store → Recovered × Store
recover_rows now [] = (record { expired = 0; requeued = 0; cancelled = 0 }, [])
recover_rows now (t ∷ s) =
    let (r, s') = recover_rows now s in
    if interrupted now t then (tally t r, released t ∷ s') else (r, t ∷ s')

unfoldable pub reconcile_expired_tasks : ℕ → Exec Store Recovered
unfolding recover_rows
reconcile_expired_tasks now s = let (r, s') = recover_rows now s in (ok r, s')
