-- ===== src/Outbox/Delivered.antt =====
-- A call of `process_events` under a live claim processes everything that it claimed.
use mathlib.Core.Path.{subst}
use boiler_reviews.Prelude.{
  ℕ, ◌+◌, ◌≡◌, refl, sym, ◌⊎◌, inl, inr, String, Bool, true, false, none, some, List, [], ◌∷◌,
  arith, ◌==◌, nat_eq, string_eq, option_eq, if◌then◌else◌, contains, Option-cases, Bool-cases, All,
}
use boiler_reviews.Prelude.Json.{Json}
use boiler_reviews.Prelude.Table.{HasUniqueKeys, find-append, find-key}
use boiler_reviews.Exec.{Exec, Result, ok}
use boiler_reviews.Outbox.Model.{OutboxEvent, event_id, get, is_processed}
use boiler_reviews.Outbox.Events.{
  Handler, Delivery, Surroundings, Step, claimable_ids, mark, claim_events, insert, unclaimed,
  begin_event, complete, remove_one, handle_event, step, run, go_on, process_ids, process_events,
}
use boiler_reviews.Outbox.Marks.{
  get-mark, is_processed_row, mark-is_processed_row, claim-HasUniqueKeys, claimable_ids-IsPending,
  IsPending, get-complete, step-keeps,
}
use boiler_reviews.Outbox.Claimed.{
  Held, IsReady, IsOther, IsCalm, run-IsCalm, same-IsCalm, complete-IsCalm,
}

abbrev pub IsDone : Delivery → ℕ → Type 0
IsDone d k = is_processed_row (get k d.events) ≡ true

claim-IsDone :
    (now owner limit lease_seconds k : ℕ) (d : Delivery)
    → IsDone d k
    → IsDone (record d { events = (claim_events now owner limit lease_seconds d.events).1 }) k
unfolding claim_events
claim-IsDone now owner limit lease_seconds k d h =
    let ids = claimable_ids now limit d.events in
    rw
      (
        get-mark now owner lease_seconds ids k d.events,
        mark-is_processed_row now owner lease_seconds ids (get k d.events),
      )
      h

complete-IsDone :
    (now id k : ℕ) (s : List OutboxEvent)
    → is_processed_row (get k s) ≡ true
    → is_processed_row (get k (complete now id s)) ≡ true
complete-IsDone now id k s h = elim (Option-cases (get k s)) [
  | inl missing ↦ absurd (ground (arith, h, missing))
  | inr (e, found) ↦ ground (arith, h, found, get-complete now id k s)
]

-- The commit marks the event of its session, which is there.
complete-marks :
    (now id owner until : ℕ) (s : List OutboxEvent)
    → Held owner until (get id s)
    → is_processed_row (get id (complete now id s)) ≡ true
complete-marks now id owner until s h = elim (Option-cases (get id s)) [
  | inl missing ↦ absurd (rw missing at h)
  | inr (e, found) ↦ rw (get-complete now id id s, (nat_eq.beq_iff id id).1 refl, found) refl
]

insert-IsDone :
    (e : OutboxEvent) (k : ℕ) (s : List OutboxEvent)
    → is_processed_row (get k s) ≡ true
    → is_processed_row (get k (insert e s)) ≡ true
insert-IsDone e k s h = ground (arith, find-append event_id k s (unclaimed e ∷ []))

step-IsDone :
    (handler : Handler) (a : Step) (k : ℕ) (d : Delivery) → IsDone d k → IsDone (step handler a d) k
step-IsDone handler a k d h =
    step-keeps (λ s. is_processed_row (get k s) ≡ true) handler a d
      (λ now owner limit lease_seconds e. claim-IsDone now owner limit lease_seconds k d h)
      (λ now id. complete-IsDone now id k d.events h) (λ e. insert-IsDone e k d.events h) h

run-IsDone :
    (handler : Handler) (steps : List Step) (k : ℕ) (d : Delivery)
    → IsDone d k
    → IsDone (run handler steps d) k
unfolding run
run-IsDone handler [] k d h = h
run-IsDone handler (a ∷ steps) k d h =
    run-IsDone handler steps k (step handler a d) (step-IsDone handler a k d h)

abbrev pub Returns : Handler → Type 0
Returns handler = (event_type : String) (payload : Json) → handler event_type payload ≡ ok tt

-- The owner's session for a held event finds it processed, or calls the handler, which returns.
begin_event-cases :
    (handler : Handler) (owner until id : ℕ) (d : Delivery)
    → Returns handler
    → IsReady owner until d id
    → ((begin_event handler owner id d ≡ (ok false, d)) × IsDone d id)
      ⊎ ((d' : Delivery) × (begin_event handler owner id d ≡ (ok true, d'))
          × (d'.events ≡ d.events))
unfolding begin_event
begin_event-cases handler owner until id d returns h = elim (Option-cases (get id d.events)) [
  | inl missing ↦ absurd (rw missing at h)
  | inr (e, found) ↦ elim (Bool-cases (is_processed e)) [
    | inl old ↦ inl (rw (found, old) refl, rw found old)
    | inr fresh ↦ elim (subst (Held owner until) found h) [
      | inl old ↦ absurd (ground (arith, old, fresh))
      | inr (mine, live) ↦
          let same : (e.claimed_by == some owner) ≡ true = ground (arith, mine) in
          inr (
            record d { handled = id ∷ d.handled; in_flight = id ∷ d.in_flight },
            rw (found, fresh, same, returns e.event_type e.payload_json) refl,
            refl,
          )
    ]
  ]
]

-- No commit of the call fails.
abbrev pub Commits : Surroundings → Type 0
Commits around = (id : ℕ) → around.failure id ≡ none

-- How the owner's session for an event ends: it returns, the event is processed, what was processed still
-- is, and the other events are held as before.
abbrev Ends : ℕ → ℕ → ℕ → List ℕ → Delivery → Result Bool × Delivery → Type 0
Ends owner until id ids d x =
    (b : Bool) × (d' : Delivery) × (x ≡ (ok b, d'))
    × IsDone d' id
    × ((k : ℕ) → IsDone d k → IsDone d' k)
    × IsCalm owner until ids d'

handle_event-Ends :
    (handler : Handler) (now owner until : ℕ) (around : Surroundings) (id : ℕ) (ids : List ℕ)
    (d : Delivery)
    → Returns handler
    → Commits around
    → All (IsOther owner until) (around.during id)
    → IsCalm owner until (id ∷ ids) d
    → Ends owner until id ids d (handle_event handler now owner around id d)
unfolding handle_event
handle_event-Ends handler now owner until around id ids d returns commits os calm =
    elim (begin_event-cases handler owner until id d returns calm.1.0) [
      | inl (skipped, done) ↦ rw skipped (false, d, refl, done, (λ k h. h), (calm.0, calm.1.1))
      | inr (d₁, called, same) ↦
          let calm₁ = same-IsCalm owner until (id ∷ ids) d d₁ (sym same) calm in
          let d₂ = run handler (around.during id) d₁ in
          let calm₂ = run-IsCalm handler (around.during id) owner until (id ∷ ids) d₁ os calm₁ in
          rw (called, commits id)
            (
              true,
              record d₂ {
                events = complete now id d₂.events;
                in_flight = remove_one id d₂.in_flight;
              },
              refl,
              complete-marks now id owner until d₂.events calm₂.1.0,
              (λ k h. complete-IsDone now id k d₂.events (
                  run-IsDone handler (around.during id) k d₁
                    (subst (λ s. is_processed_row (get k s) ≡ true) (sym same) h))),
              complete-IsCalm now id owner until ids (remove_one id d₂.in_flight) d₂
                  (calm₂.0, calm₂.1.1),
            )
    ]

-- How the loop ends: it returns, the events of `ids` are processed, and so are those that were.
abbrev AllDone : List ℕ → Delivery → Result ℕ × Delivery → Type 0
AllDone ids d x =
    (n : ℕ) × (d' : Delivery) × (x ≡ (ok n, d'))
    × All (IsDone d') ids
    × ((k : ℕ) → IsDone d k → IsDone d' k)

go_on-AllDone :
    (rest : Exec Delivery ℕ) (b : Bool) (id : ℕ) (ids : List ℕ) (d d₁ : Delivery)
    → IsDone d₁ id
    → ((k : ℕ) → IsDone d k → IsDone d₁ k)
    → AllDone ids d₁ (rest d₁)
    → AllDone (id ∷ ids) d (go_on rest (ok b, d₁))
go_on-AllDone rest b id ids d d₁ here kept (n, d', e, done, kept') =
    (if b then n + 1 else n, d', rw e refl, (kept' id here, done), λ k h. kept' k (kept k h))

process_ids-AllDone :
    (handler : Handler) (now owner until : ℕ) (around : Surroundings) (ids : List ℕ) (d : Delivery)
    → Returns handler
    → Commits around
    → ((id : ℕ) → All (IsOther owner until) (around.before id))
    → ((id : ℕ) → All (IsOther owner until) (around.during id))
    → IsCalm owner until ids d
    → AllDone ids d (process_ids handler now owner around ids d)
unfolding process_ids
process_ids-AllDone handler now owner until around [] d returns commits os os' calm =
    (0, d, refl, tt, λ k h. h)
process_ids-AllDone handler now owner until around (id ∷ ids) d returns commits os os' calm =
    let after = run handler (around.before id) d in
    let calm' = run-IsCalm handler (around.before id) owner until (id ∷ ids) d (os id) calm in
    let (b, d₁, e, here, kept, calm₁) =
      handle_event-Ends handler now owner until around id ids after returns commits (os' id)
        calm' in
    subst (λ x. AllDone (id ∷ ids) d (go_on (process_ids handler now owner around ids) x)) (sym e)
      (go_on-AllDone (process_ids handler now owner around ids) b id ids d d₁ here
        (λ k h. kept k (run-IsDone handler (around.before id) k d h))
        (process_ids-AllDone handler now owner until around ids d₁ returns commits os os' calm₁))

claimed-IsReady :
    (now owner limit : ℕ) (s : List OutboxEvent)
    → HasUniqueKeys event_id s
    → All
        (λ k. Held owner (now + 60) (get k (claim_events now owner limit 60 s).1))
        (claimable_ids now limit s)
unfolding claim_events
claimed-IsReady now owner limit s u =
    go (claimable_ids now limit s) (claimable_ids-IsPending now limit s u) (λ k h. h)
  where
    go :
        (part : List ℕ)
        → All (IsPending now s) part
        → ((k : ℕ) → contains part k ≡ true → contains (claimable_ids now limit s) k ≡ true)
        → All
            (λ k. Held owner (now + 60) (get k (mark now owner 60 (claimable_ids now limit s) s)))
            part
    go [] h within = tt
    go (k ∷ part) ((e, found, pending), h) within =
        let key = find-key event_id k e s found in
        let chosen : contains (claimable_ids now limit s) e.id ≡ true =
          subst (λ j. contains (claimable_ids now limit s) j ≡ true) (sym key)
            (within k (ground (arith, nat_eq.beq_iff k k))) in
        (
          rw (get-mark now owner 60 (claimable_ids now limit s) k s, found, chosen)
              (inr (refl, refl)),
          go part h (λ j c. within j (ground (arith, c))),
        )

-- If the handler always returns, no commit of the call fails, the ids are unique, and the clocks of the claims
-- that others make before its sessions and during them have not passed the end of its own claim,
-- `process_events` returns, and every event that was pending within the limit is then processed.
pub process_events-delivers :
    (handler : Handler) (now later owner limit : ℕ) (around : Surroundings) (d : Delivery)
    → Returns handler
    → Commits around
    → HasUniqueKeys event_id d.events
    → ((id : ℕ) → All (IsOther owner (now + 60)) (around.before id))
    → ((id : ℕ) → All (IsOther owner (now + 60)) (around.during id))
    → (n : ℕ) × (d' : Delivery) × (process_events handler now later owner around limit d
        ≡ (ok n, d'))
      × All (IsDone d') (claimable_ids now limit d.events)
unfolding process_events claim_events
process_events-delivers handler now later owner limit around d returns commits u os os' =
    let (n, d', e, done, kept) =
      process_ids-AllDone handler later owner (now + 60) around (claimable_ids now limit d.events)
        (record d { events = (claim_events now owner limit 60 d.events).1 }) returns commits os os'
        (
          claim-HasUniqueKeys now owner limit 60 d.events u,
          claimed-IsReady now owner limit d.events u,
        ) in
    (n, d', e, done)
