-- ===== src/Outbox/Handled.antt =====
-- No event is marked as processed before the handler has returned for it: an event is handled at least
-- once, whatever the other workers do and whichever commits are lost.
use boiler_reviews.Prelude.{
  ℕ, ◌≡◌, refl, ◌⊎◌, inl, inr, Bool, true, false, Option, none, some, List, [], ◌∷◌, arith, ◌==◌,
  nat_eq, string_eq, option_eq, contains, Option-cases, Bool-cases, All, contains-All,
}
use mathlib.Core.Path.{subst}
use boiler_reviews.Prelude.Table.{find, find-append}
use boiler_reviews.Exec.{Exec, Result, Error, ok, err}
use boiler_reviews.Outbox.Model.{OutboxEvent, event_id, get, is_processed}
use boiler_reviews.Outbox.Events.{
  Handler, Delivery, Surroundings, Step, unclaimed, claim, begin, commit, lose, emit, claimable_ids,
  claim_events, insert, after_handler, begin_event, complete, remove_one, step, run, commit_event,
  end_event, handle_event, process_ids, process_events, go_on,
}
use boiler_reviews.Outbox.Marks.{get-mark, is_processed_row, mark-is_processed_row, get-complete}

-- Every processed event, and every one in flight, is one that the handler has returned for.
abbrev pub IsHandled : Delivery → Type 0
IsHandled d =
    ((k : ℕ) → (is_processed_row (get k d.events) ≡ false) ⊎ (contains d.handled k ≡ true))
    × All (λ k. contains d.handled k ≡ true) d.in_flight

-- Events that are not processed stay so, or had been handled.
events-IsHandled :
    (s : List OutboxEvent) (d : Delivery)
    → IsHandled d
    → ((k : ℕ) → is_processed_row (get k d.events) ≡ false → is_processed_row (get k s) ≡ false)
    → IsHandled (record d { events = s })
events-IsHandled s d h fresh =
    ((λ k. elim (h.0 k) [ inl no_mark ↦ inl (fresh k no_mark) | inr there ↦ inr there ]), h.1)

claim-IsHandled :
    (now owner limit lease_seconds : ℕ) (d : Delivery)
    → IsHandled d
    → IsHandled (record d { events = (claim_events now owner limit lease_seconds d.events).1 })
unfolding claim_events
claim-IsHandled now owner limit lease_seconds d h =
    let ids = claimable_ids now limit d.events in
    events-IsHandled _ d h (λ k fresh.
      rw
        (
          get-mark now owner lease_seconds ids k d.events,
          mark-is_processed_row now owner lease_seconds ids (get k d.events),
        )
        fresh)

remove_one-All : (P : ℕ → Type 0) (id : ℕ) (ids : List ℕ) → All P ids → All P (remove_one id ids)
unfolding remove_one
remove_one-All P id [] h = tt
remove_one-All P id (k ∷ ids) (here, there) = elim (Bool-cases (k == id)) [
  | inl found ↦ rw found there
  | inr other ↦ rw other (here, remove_one-All P id ids there)
]

complete-IsHandled :
    (now id : ℕ) (d : Delivery)
    → IsHandled d
    → contains d.handled id ≡ true
    → IsHandled
        (record d { events = complete now id d.events; in_flight = remove_one id d.in_flight })
complete-IsHandled now id d h returned = (
  λ k. elim (Bool-cases (id == k)) [
    | inl here ↦
        inr (subst (λ j. contains d.handled j ≡ true) ((nat_eq.beq_iff id k).0 here) returned)
    | inr other ↦ elim (h.0 k) [
      | inl no_mark ↦ inl (rw (get-complete now id k d.events, other) no_mark)
      | inr there ↦ inr there
    ]
  ],
  remove_one-All (λ k. contains d.handled k ≡ true) id d.in_flight h.1,
)

lose-IsHandled :
    (id : ℕ) (d : Delivery)
    → IsHandled d
    → IsHandled (record d { in_flight = remove_one id d.in_flight })
lose-IsHandled id d h = (h.0, remove_one-All (λ k. contains d.handled k ≡ true) id d.in_flight h.1)

handled-All :
    (id : ℕ) (handled ids : List ℕ)
    → All (λ k. contains handled k ≡ true) ids
    → All (λ k. contains (id ∷ handled) k ≡ true) ids
handled-All id handled [] h = tt
handled-All id handled (k ∷ ids) (here, there) =
    (ground (arith, here), handled-All id handled ids there)

-- How the first part of a session ends: the delivery is as it should be, and if the handler was called, it
-- has returned for the event.
abbrev IsBegun : ℕ → Result Bool × Delivery → Type 0
IsBegun id (ok true, d) = IsHandled d × (contains d.handled id ≡ true)
IsBegun id (ok false, d) = IsHandled d
IsBegun id (err x, d) = IsHandled d

after_handler-IsBegun :
    (id : ℕ) (r : Result (Unit {0})) (d : Delivery)
    → IsHandled d
    → IsBegun id (after_handler id r d)
after_handler-IsBegun id (ok _) d h =
    let here : contains (id ∷ d.handled) id ≡ true =
      ground (arith, (nat_eq.beq_iff id id).1 refl) in
    (
      (
        λ k. elim (h.0 k) [ inl no_mark ↦ inl no_mark | inr there ↦ inr (ground (arith, there)) ],
        (here, handled-All id d.handled d.in_flight h.1),
      ),
      here,
    )
after_handler-IsBegun id (err x) d h = h

begin_event-IsBegun :
    (handler : Handler) (owner id : ℕ) (d : Delivery)
    → IsHandled d
    → IsBegun id (begin_event handler owner id d)
unfolding begin_event
begin_event-IsBegun handler owner id d h = elim (Option-cases (get id d.events)) [
  | inl missing ↦ rw missing h
  | inr (e, found) ↦ elim (Bool-cases (is_processed e)) [
    | inl old ↦ rw (found, old) h
    | inr fresh ↦ elim (Bool-cases (e.claimed_by == some owner)) [
      | inl mine ↦
          rw (found, fresh, mine)
            (after_handler-IsBegun id (handler e.event_type e.payload_json) d h)
      | inr theirs ↦ rw (found, fresh, theirs) h
    ]
  ]
]

begun-IsHandled : (id : ℕ) (x : Result Bool × Delivery) → IsBegun id x → IsHandled x.1
begun-IsHandled id (ok true, d) h = h.0
begun-IsHandled id (ok false, d) h = h
begun-IsHandled id (err x, d) h = h

emit-IsHandled :
    (e : OutboxEvent) (d : Delivery)
    → IsHandled d
    → IsHandled (record d { events = insert e d.events })
unfolding find
emit-IsHandled e d h = events-IsHandled _ d h (λ k fresh.
    ground
      (arith, fresh, nat_eq.beq_iff e.id k, find-append event_id k d.events (unclaimed e ∷ [])))

pub step-IsHandled :
    (handler : Handler) (a : Step) (d : Delivery) → IsHandled d → IsHandled (step handler a d)
unfolding step
step-IsHandled handler (claim now owner limit lease_seconds) d h =
    claim-IsHandled now owner limit lease_seconds d h
step-IsHandled handler (begin owner id) d h =
    begun-IsHandled id (begin_event handler owner id d) (begin_event-IsBegun handler owner id d h)
step-IsHandled handler (commit now id) d h = elim (Bool-cases (contains d.in_flight id)) [
  | inl flying ↦ rw flying (
      complete-IsHandled now id d h
        (contains-All (λ k. contains d.handled k ≡ true) d.in_flight id h.1 flying))
  | inr closed ↦ rw closed h
]
step-IsHandled handler (lose id) d h = lose-IsHandled id d h
step-IsHandled handler (emit e) d h = emit-IsHandled e d h

begin_event-handled :
    (handler : Handler) (owner id k : ℕ) (d : Delivery)
    → contains d.handled k ≡ true
    → contains (begin_event handler owner id d).1.handled k ≡ true
unfolding begin_event
begin_event-handled handler owner id k d h = elim (Option-cases (get id d.events)) [
  | inl missing ↦ rw missing h
  | inr (e, found) ↦ elim (Bool-cases (is_processed e)) [
    | inl old ↦ rw (found, old) h
    | inr fresh ↦ elim (Bool-cases (e.claimed_by == some owner)) [
      | inl mine ↦ rw (found, fresh, mine) (go (handler e.event_type e.payload_json))
      | inr theirs ↦ rw (found, fresh, theirs) h
    ]
  ]
]
  where
    go : (r : Result (Unit {0})) → contains (after_handler id r d).1.handled k ≡ true
    go (ok _) = ground (arith, h)
    go (err x) = h

-- What the handler has returned for is never taken back.
step-handled :
    (handler : Handler) (a : Step) (k : ℕ) (d : Delivery)
    → contains d.handled k ≡ true
    → contains (step handler a d).handled k ≡ true
unfolding step
step-handled handler (claim now owner limit lease_seconds) k d h = h
step-handled handler (begin owner id) k d h = begin_event-handled handler owner id k d h
step-handled handler (commit now id) k d h = elim (Bool-cases (contains d.in_flight id)) [
  | inl flying ↦ rw flying h
  | inr closed ↦ rw closed h
]
step-handled handler (lose id) k d h = h
step-handled handler (emit e) k d h = h

run-handled :
    (handler : Handler) (steps : List Step) (k : ℕ) (d : Delivery)
    → contains d.handled k ≡ true
    → contains (run handler steps d).handled k ≡ true
unfolding run
run-handled handler [] k d h = h
run-handled handler (a ∷ steps) k d h =
    run-handled handler steps k (step handler a d) (step-handled handler a k d h)

pub run-IsHandled :
    (handler : Handler) (steps : List Step) (d : Delivery)
    → IsHandled d
    → IsHandled (run handler steps d)
unfolding run
run-IsHandled handler [] d h = h
run-IsHandled handler (a ∷ steps) d h =
    run-IsHandled handler steps (step handler a d) (step-IsHandled handler a d h)

commit_event-IsHandled :
    (now id : ℕ) (failure : Option Error) (d : Delivery)
    → IsHandled d
    → contains d.handled id ≡ true
    → IsHandled (commit_event now id failure d).1
commit_event-IsHandled now id none d h returned = complete-IsHandled now id d h returned
commit_event-IsHandled now id (some x) d h returned = lose-IsHandled id d h

end_event-IsHandled :
    (handler : Handler) (now : ℕ) (around : Surroundings) (id : ℕ) (x : Result Bool × Delivery)
    → IsBegun id x
    → IsHandled (end_event handler now around id x).1
end_event-IsHandled handler now around id (ok false, d) h = h
end_event-IsHandled handler now around id (ok true, d) (h, returned) =
    commit_event-IsHandled now id (around.failure id) (run handler (around.during id) d)
      (run-IsHandled handler (around.during id) d h)
      (run-handled handler (around.during id) id d returned)
end_event-IsHandled handler now around id (err x, d) h = h

handle_event-IsHandled :
    (handler : Handler) (now owner : ℕ) (around : Surroundings) (id : ℕ) (d : Delivery)
    → IsHandled d
    → IsHandled (handle_event handler now owner around id d).1
unfolding handle_event
handle_event-IsHandled handler now owner around id d h =
    end_event-IsHandled handler now around id (begin_event handler owner id d)
      (begin_event-IsBegun handler owner id d h)

go_on-IsHandled :
    (rest : Exec Delivery ℕ) (x : Result Bool × Delivery)
    → ((d : Delivery) → IsHandled d → IsHandled (rest d).1)
    → IsHandled x.1
    → IsHandled (go_on rest x).1
go_on-IsHandled rest (ok done, d) keeps h = keeps d h
go_on-IsHandled rest (err e, d) keeps h = h

process_ids-IsHandled :
    (handler : Handler) (now owner : ℕ) (around : Surroundings) (ids : List ℕ) (d : Delivery)
    → IsHandled d
    → IsHandled (process_ids handler now owner around ids d).1
unfolding process_ids
process_ids-IsHandled handler now owner around [] d h = h
process_ids-IsHandled handler now owner around (id ∷ ids) d h =
    go_on-IsHandled (process_ids handler now owner around ids)
      (handle_event handler now owner around id (run handler (around.before id) d))
      (process_ids-IsHandled handler now owner around ids)
      (handle_event-IsHandled handler now owner around id _
        (run-IsHandled handler (around.before id) d h))

-- If every processed event, and every one whose session has yet to commit, is one that the handler has
-- returned for, this is so after a call of `process_events` too, whether or not it raises: whatever other
-- workers do before each of its sessions and while its handler runs, and whichever commits fail.
pub process_events-IsHandled :
    (handler : Handler) (now later owner limit : ℕ) (around : Surroundings) (d : Delivery)
    → IsHandled d
    → IsHandled (process_events handler now later owner around limit d).1
unfolding process_events
process_events-IsHandled handler now later owner limit around d h =
    process_ids-IsHandled handler later owner around _ _ (claim-IsHandled now owner limit 60 d h)
