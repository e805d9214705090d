-- ===== src/Outbox/Events.antt =====
-- `claim_events` and `process_events` of src/boiler_reviews/tasks/outbox.py. The handler, which the
-- caller supplies, returns or raises; what it does outside of the database is the list of the events
-- that it has returned for. Its return and the commit of its session are two steps.
use boiler_reviews.Prelude.{
  ℕ, ◌+◌, String, Bool, true, false, Option, none, some, List, [], ◌∷◌, ◌++◌, map, ◌==◌, nat_eq,
  option_eq, string_eq, if◌then◌else◌, ◌&&◌, ◌||◌, not, ltb, leb, select, take, contains, any,
}
use boiler_reviews.Prelude.Sort.{sorted_by}
use boiler_reviews.Prelude.Table.{is_some}
use boiler_reviews.Prelude.Json.{Json}
use boiler_reviews.Exec.{Exec, Result, Error, ok, err, pure, raise_if, ◌>>◌, conflict}
use boiler_reviews.Outbox.Model.{OutboxEvent, event_id, get, save, is_processed}

abbrev pub lapsed : Option ℕ → ℕ → Bool
lapsed none now = true
lapsed (some until) now = ltb until now

-- The `where` of `claim_events`.
abbrev pub is_pending : ℕ → OutboxEvent → Bool
is_pending now e = not (is_processed e) && lapsed e.claimed_until now

abbrev pub older : OutboxEvent → OutboxEvent → Bool
older a b = leb a.created_at b.created_at

-- `order_by(created_at.asc()).limit(limit)`
unfoldable pub claimable_rows : ℕ → ℕ → List OutboxEvent → List OutboxEvent
unfolding sorted_by
claimable_rows now limit s = take limit (sorted_by older (select (is_pending now) s))

abbrev pub claimed : ℕ → ℕ → ℕ → OutboxEvent → OutboxEvent
claimed now owner lease_seconds e = record e {
  claimed_by = some owner;
  claimed_until = some (now + lease_seconds);
  attempts = e.attempts + 1;
}

abbrev pub claim_if : ℕ → ℕ → ℕ → List ℕ → OutboxEvent → OutboxEvent
claim_if now owner lease_seconds ids e =
    if contains ids e.id then claimed now owner lease_seconds e else e

-- The loop over the selected rows, which are objects of the table's session.
unfoldable pub mark : ℕ → ℕ → ℕ → List ℕ → List OutboxEvent → List OutboxEvent
mark now owner lease_seconds ids [] = []
mark now owner lease_seconds ids (e ∷ s) =
    claim_if now owner lease_seconds ids e ∷ mark now owner lease_seconds ids s

abbrev pub claimable_ids : ℕ → ℕ → List OutboxEvent → List ℕ
claimable_ids now limit s = map event_id (claimable_rows now limit s)

unfoldable pub claim_events : ℕ → ℕ → ℕ → ℕ → List OutboxEvent → List ℕ × List OutboxEvent
unfolding claimable_rows mark
claim_events now owner limit lease_seconds s =
    let ids = claimable_ids now limit s in (ids, mark now owner lease_seconds ids s)

abbrev pub Handler : Type 0
Handler = String → Json → Result (Unit {0})

-- The table; the ids of the events that the handler has returned for, each time that it did; and the ids
-- of the events whose handler has returned in a session that has not committed yet.
pub record Delivery : Type 0 where
  pub events : List OutboxEvent
  pub handled : List ℕ
  pub in_flight : List ℕ

abbrev pub processed : ℕ → OutboxEvent → OutboxEvent
processed now e = record e { processed_at = some now; claimed_until = none }

abbrev pub fenced : String
fenced = "Outbox claim was fenced by another worker."

abbrev pub after_handler : ℕ → Result (Unit {0}) → Exec Delivery Bool
after_handler id (ok _) d =
    (ok true, record d { handled = id ∷ d.handled; in_flight = id ∷ d.in_flight })
after_handler id (err x) d = (err x, d)

abbrev pub handle_claimed : Handler → ℕ → ℕ → OutboxEvent → Exec Delivery Bool
handle_claimed handler owner id e = do
  raise_if (not (e.claimed_by == some owner)) (conflict fenced)
  after_handler id (handler e.event_type e.payload_json)

-- `event is None or event.processed_at is not None` skips the event.
abbrev pub handle_found : Handler → ℕ → ℕ → Option OutboxEvent → Exec Delivery Bool
handle_found handler owner id none = pure false
handle_found handler owner id (some e) =
    if is_processed e then pure false else handle_claimed handler owner id e

-- The session for one event up to the return of the handler: whether it was called.
unfoldable pub begin_event : Handler → ℕ → ℕ → Exec Delivery Bool
begin_event handler owner id d = handle_found handler owner id (get id d.events) d

abbrev complete_found : ℕ → Option OutboxEvent → List OutboxEvent → List OutboxEvent
complete_found now none s = s
complete_found now (some e) s = save (processed now e) s

-- The commit writes the two columns to the row of the event as it then is: no lock was taken and nothing
-- is tested again.
unfoldable pub complete : ℕ → ℕ → List OutboxEvent → List OutboxEvent
complete now id s = complete_found now (get id s) s

unfoldable pub remove_one : ℕ → List ℕ → List ℕ
remove_one id [] = []
remove_one id (k ∷ ids) = let rest = remove_one id ids in if k == id then ids else k ∷ rest

-- A claim; a session up to the return of its handler; the commit of such a session, or its loss by a
-- crash or a failure of the commit; the insertion of an event by a service.
pub data Step : Type 0 where
  claim : ℕ → ℕ → ℕ → ℕ → Step
  begin : ℕ → ℕ → Step
  commit : ℕ → ℕ → Step
  lose : ℕ → Step
  emit : OutboxEvent → Step

abbrev pub unclaimed : OutboxEvent → OutboxEvent
unclaimed e = record e { claimed_by = none; claimed_until = none; processed_at = none }

abbrev pub insert : OutboxEvent → List OutboxEvent → List OutboxEvent
insert e s =
    if is_some (get e.id s) || any (λ o. o.event_key == e.event_key) s
    then s
    else s ++ unclaimed e ∷ []

unfoldable pub step : Handler → Step → Delivery → Delivery
unfolding claim_events begin_event complete remove_one
step handler (claim now owner limit lease_seconds) d = record d {
  events = (claim_events now owner limit lease_seconds d.events).1;
}
step handler (begin owner id) d = (begin_event handler owner id d).1
step handler (commit now id) d =
    if contains d.in_flight id
    then record d { events = complete now id d.events; in_flight = remove_one id d.in_flight }
    else d
step handler (lose id) d = record d { in_flight = remove_one id d.in_flight }
step handler (emit e) d = record d { events = insert e d.events }

unfoldable pub run : Handler → List Step → Delivery → Delivery
unfolding step
run handler [] d = d
run handler (a ∷ steps) d = run handler steps (step handler a d)

-- What happens around the sessions of a call, for each event: what other workers do before its session,
-- what they do while its handler runs, and what its commit raises, if it does.
pub record Surroundings : Type 0 where
  pub before : ℕ → List Step
  pub during : ℕ → List Step
  pub failure : ℕ → Option Error

abbrev pub commit_event : ℕ → ℕ → Option Error → Exec Delivery Bool
commit_event now id none d =
    (ok true, record d { events = complete now id d.events; in_flight = remove_one id d.in_flight })
commit_event now id (some x) d = (err x, record d { in_flight = remove_one id d.in_flight })

-- What follows the call of the handler.
abbrev pub end_event :
    Handler → ℕ → Surroundings → ℕ → Result Bool × Delivery → Result Bool × Delivery
end_event handler now around id (ok false, d) = (ok false, d)
end_event handler now around id (ok true, d) =
    commit_event now id (around.failure id) (run handler (around.during id) d)
end_event handler now around id (err x, d) = (err x, d)

-- The session for one event: whether it was processed.
unfoldable pub handle_event : Handler → ℕ → ℕ → Surroundings → ℕ → Exec Delivery Bool
unfolding begin_event complete remove_one run
handle_event handler now owner around id d =
    end_event handler now around id (begin_event handler owner id d)

abbrev pub count_one : Bool → Result ℕ → Result ℕ
count_one done (ok n) = ok (if done then n + 1 else n)
count_one done (err x) = err x

-- The rest of the loop, unless the session raised.
abbrev pub go_on : Exec Delivery ℕ → Result Bool × Delivery → Result ℕ × Delivery
go_on rest (ok done, d) = let (n, d') = rest d in (count_one done n, d')
go_on rest (err x, d) = (err x, d)

-- The loop over the claimed ids.
unfoldable pub process_ids : Handler → ℕ → ℕ → Surroundings → List ℕ → Exec Delivery ℕ
unfolding handle_event run
process_ids handler now owner around [] d = (ok 0, d)
process_ids handler now owner around (id ∷ ids) d =
    go_on (process_ids handler now owner around ids)
      (handle_event handler now owner around id (run handler (around.before id) d))

unfoldable pub process_events : Handler → ℕ → ℕ → ℕ → Surroundings → ℕ → Exec Delivery ℕ
unfolding claim_events process_ids
process_events handler now later owner around limit d =
    let (ids, s) = claim_events now owner limit 60 d.events in
    process_ids handler later owner around ids (record d { events = s })
