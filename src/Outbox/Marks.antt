-- ===== src/Outbox/Marks.antt =====
-- What the sessions of the outbox do to the row of an event.
use boiler_reviews.Prelude.{
  ℕ, ◌≡◌, refl, inl, inr, Bool, true, false, Option, none, some, List, [], ◌∷◌, map, arith, ◌==◌,
  nat_eq, option_eq, string_eq, select, take, any, All, All-with, take-All, Option-cases,
  Bool-cases, ◌||◌, sym, contains, if◌then◌else◌,
}
use mathlib.Core.Path.{subst}
use boiler_reviews.Prelude.Sort.{sorted_by, sorted_by-All}
use boiler_reviews.Prelude.Table.{
  find, is_some, HasUniqueKeys, put-HasUniqueKeys, append-HasUniqueKeys, find-put, find-key,
}
use boiler_reviews.Exec.{Result, ok, err}
use boiler_reviews.Outbox.Model.{OutboxEvent, event_id, get, is_processed}
use boiler_reviews.Outbox.Events.{
  is_pending, older, claimable_rows, claimable_ids, claim_if, mark, insert, unclaimed, Handler,
  Delivery, Step, claim, begin, commit, lose, emit, claim_events, processed, after_handler,
  handle_claimed, begin_event, complete, step,
}

abbrev pub map_some : {A B : Type 0} → (A → B) → Option A → Option B
map_some f none = none
map_some f (some a) = some (f a)

pub get-mark :
    (now owner lease_seconds : ℕ) (ids : List ℕ) (k : ℕ) (s : List OutboxEvent)
    → get k (mark now owner lease_seconds ids s)
      ≡ map_some (claim_if now owner lease_seconds ids) (get k s)
unfolding mark find
get-mark now owner lease_seconds ids k [] = refl
get-mark now owner lease_seconds ids k (e ∷ s) =
    ground (arith, get-mark now owner lease_seconds ids k s)

-- Whether a row with this id is processed.
abbrev pub is_processed_row : Option OutboxEvent → Bool
is_processed_row none = false
is_processed_row (some e) = is_processed e

-- Every row is found under its id.
pub rows-found :
    (s : List OutboxEvent) → HasUniqueKeys event_id s → All (λ e. get e.id s ≡ some e) s
unfolding find
rows-found s u = go s u (λ e h. h)
  where
    go :
        (part : List OutboxEvent)
        → HasUniqueKeys event_id part
        → ((e : OutboxEvent) → get e.id part ≡ some e → get e.id s ≡ some e)
        → All (λ e. get e.id s ≡ some e) part
    go [] u h = tt
    go (e ∷ part) (fresh, u) h = (
      h e (ground (arith, nat_eq.beq_iff e.id e.id)),
      go part u (λ o p. h o (ground (arith, fresh, p, nat_eq.beq_iff e.id o.id))),
    )

map-All : (P : ℕ → Type 0) (s : List OutboxEvent) → All (λ e. P e.id) s → All P (map event_id s)
map-All P [] h = tt
map-All P (e ∷ s) (p, h) = (p, map-All P s h)

-- The row with this id is pending.
abbrev pub IsPending : ℕ → List OutboxEvent → ℕ → Type 0
IsPending now s k = (e : OutboxEvent) × (get k s ≡ some e) × (is_pending now e ≡ true)

-- A claim returns the ids of pending rows.
pub claimable_ids-IsPending :
    (now limit : ℕ) (s : List OutboxEvent)
    → HasUniqueKeys event_id s
    → All (IsPending now s) (claimable_ids now limit s)
unfolding claimable_rows
claimable_ids-IsPending now limit s u = map-All (IsPending now s) (claimable_rows now limit s) (
    weaken (take limit (sorted_by older (select (is_pending now) s))) (
      take-All P limit _ (
        sorted_by-All P older _
          (All-with (λ e. get e.id s ≡ some e) (is_pending now) s (rows-found s u)))))
  where
    P : OutboxEvent → Type 0
    P e = (get e.id s ≡ some e) × (is_pending now e ≡ true)

    weaken : (es : List OutboxEvent) → All P es → All (λ e. IsPending now s e.id) es
    weaken [] h = tt
    weaken (e ∷ es) ((found, fits), h) = ((e, found, fits), weaken es h)

mark-HasUniqueKeys :
    (now owner lease_seconds : ℕ) (ids : List ℕ) (s : List OutboxEvent)
    → HasUniqueKeys event_id s
    → HasUniqueKeys event_id (mark now owner lease_seconds ids s)
unfolding mark
mark-HasUniqueKeys now owner lease_seconds ids [] u = tt
mark-HasUniqueKeys now owner lease_seconds ids (e ∷ s) (fresh, u) = (
  ground (arith, fresh, get-mark now owner lease_seconds ids e.id s),
  mark-HasUniqueKeys now owner lease_seconds ids s u,
)

insert-HasUniqueKeys :
    (e : OutboxEvent) (s : List OutboxEvent)
    → HasUniqueKeys event_id s
    → HasUniqueKeys event_id (insert e s)
insert-HasUniqueKeys e s u =
    elim (Bool-cases (is_some (get e.id s) || any (λ o. o.event_key == e.event_key) s)) [
      | inl taken ↦ rw taken u
      | inr fresh ↦
          rw fresh (append-HasUniqueKeys event_id s (unclaimed e) u (missing (get e.id s) _ fresh))
    ]
  where
    missing : (o : Option OutboxEvent) (b : Bool) → (is_some o || b) ≡ false → o ≡ none
    missing none b h = refl
    missing (some o) b h = absurd (cc)

-- A session writes nothing to the table before its handler returns.
after_handler-events :
    (id : ℕ) (r : Result (Unit {0})) (d : Delivery) → (after_handler id r d).1.events ≡ d.events
after_handler-events id (ok _) d = refl
after_handler-events id (err x) d = refl

handle_claimed-events :
    (handler : Handler) (owner id : ℕ) (e : OutboxEvent) (d : Delivery)
    → (handle_claimed handler owner id e d).1.events ≡ d.events
handle_claimed-events handler owner id e d = elim (Bool-cases (e.claimed_by == some owner)) [
  | inl mine ↦ rw mine (after_handler-events id (handler e.event_type e.payload_json) d)
  | inr theirs ↦ rw theirs refl
]

pub begin_event-events :
    (handler : Handler) (owner id : ℕ) (d : Delivery)
    → (begin_event handler owner id d).1.events ≡ d.events
unfolding begin_event
begin_event-events handler owner id d = elim (Option-cases (get id d.events)) [
  | inl missing ↦ rw missing refl
  | inr (e, found) ↦ elim (Bool-cases (is_processed e)) [
    | inl old ↦ rw (found, old) refl
    | inr fresh ↦ rw (found, fresh) (handle_claimed-events handler owner id e d)
  ]
]

-- The commit marks the row of its event, and no other.
pub get-complete :
    (now id k : ℕ) (s : List OutboxEvent)
    → get k (complete now id s) ≡ (if id == k then map_some (processed now) (get k s) else get k s)
unfolding complete
get-complete now id k s = elim (Option-cases (get id s)) [
  | inl missing ↦ ground (arith, missing, nat_eq.beq_iff id k)
  | inr (e, found) ↦ ground (
    arith,
    found,
    find-key event_id id e s found,
    nat_eq.beq_iff id k,
    nat_eq.beq_iff e.id k,
    find-put event_id k (processed now e) s,
  )
]

pub complete-HasUniqueKeys :
    (now id : ℕ) (s : List OutboxEvent)
    → HasUniqueKeys event_id s
    → HasUniqueKeys event_id (complete now id s)
unfolding complete
complete-HasUniqueKeys now id s u = elim (Option-cases (get id s)) [
  | inl missing ↦ rw missing u
  | inr (e, found) ↦ rw found (put-HasUniqueKeys event_id (processed now e) s u)
]

pub mark-is_processed_row :
    (now owner lease_seconds : ℕ) (ids : List ℕ) (o : Option OutboxEvent)
    → is_processed_row (map_some (claim_if now owner lease_seconds ids) o) ≡ is_processed_row o
mark-is_processed_row now owner lease_seconds ids none = refl
mark-is_processed_row now owner lease_seconds ids (some e) = ground arith

-- A property of the table that claims, commits and inserts keep is kept by every step.
pub step-keeps :
    (P : List OutboxEvent → Type 0) (handler : Handler) (a : Step) (d : Delivery)
    → ((now owner limit lease_seconds : ℕ)
        → a ≡ claim now owner limit lease_seconds
        → P (claim_events now owner limit lease_seconds d.events).1)
    → ((now id : ℕ) → P (complete now id d.events))
    → ((e : OutboxEvent) → P (insert e d.events))
    → P d.events
    → P (step handler a d).events
unfolding step
step-keeps P handler (claim now owner limit lease_seconds) d claims commits inserts h =
    claims now owner limit lease_seconds refl
step-keeps P handler (begin owner id) d claims commits inserts h =
    subst P (sym (begin_event-events handler owner id d)) h
step-keeps P handler (commit now id) d claims commits inserts h =
    elim (Bool-cases (contains d.in_flight id)) [
      | inl flying ↦ rw flying (commits now id)
      | inr closed ↦ rw closed h
    ]
step-keeps P handler (lose id) d claims commits inserts h = h
step-keeps P handler (emit e) d claims commits inserts h = inserts e

pub claim-HasUniqueKeys :
    (now owner limit lease_seconds : ℕ) (s : List OutboxEvent)
    → HasUniqueKeys event_id s
    → HasUniqueKeys event_id (claim_events now owner limit lease_seconds s).1
unfolding claim_events
claim-HasUniqueKeys now owner limit lease_seconds s u =
    mark-HasUniqueKeys now owner lease_seconds (claimable_ids now limit s) s u

pub step-HasUniqueKeys :
    (handler : Handler) (a : Step) (d : Delivery)
    → HasUniqueKeys event_id d.events
    → HasUniqueKeys event_id (step handler a d).events
step-HasUniqueKeys handler a d u =
    step-keeps (HasUniqueKeys event_id) handler a d
      (λ now owner limit lease_seconds e.
        claim-HasUniqueKeys now owner limit lease_seconds d.events u)
      (λ now id. complete-HasUniqueKeys now id d.events u) (λ e. insert-HasUniqueKeys e d.events u)
      u
