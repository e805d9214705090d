-- ===== src/Outbox/Claimed.antt =====
-- A live claim keeps the other workers off: the call that made it handles all of its events.
use boiler_reviews.Prelude.{
  ℕ, ◌≤◌, ◌≡◌, refl, ◌⊎◌, inl, inr, true, Option, none, some, List, [], ◌∷◌, ◌++◌, arith, ◌==◌,
  nat_eq, string_eq, option_eq, contains, any, ◌||◌, Option-cases, Bool-cases, All, contains-All,
  sym,
}
use mathlib.Core.Path.{subst}
use boiler_reviews.Prelude.Table.{HasUniqueKeys, is_some, find-append, find-key}
use boiler_reviews.Outbox.Model.{OutboxEvent, event_id, get, is_processed}
use boiler_reviews.Outbox.Events.{
  Handler, Delivery, Step, claim, begin, commit, lose, emit, is_pending, claimable_ids, claim_if,
  claim_events, insert, unclaimed, complete, step, run,
}
use boiler_reviews.Outbox.Marks.{
  get-mark, IsPending, claimable_ids-IsPending, step-HasUniqueKeys, step-keeps, get-complete,
  complete-HasUniqueKeys,
}

-- The event is processed, or claimed by the owner until that time.
abbrev pub Held : ℕ → ℕ → Option OutboxEvent → Type 0
Held owner until none = ⊥
Held owner until (some e) =
    (is_processed e ≡ true) ⊎ ((e.claimed_by ≡ some owner) × (e.claimed_until ≡ some until))

abbrev pub IsReady : ℕ → ℕ → Delivery → ℕ → Type 0
IsReady owner until d id = Held owner until (get id d.events)

-- What any worker does while the claim is live: the clock of another claim has not passed its end.
abbrev pub IsOther : ℕ → ℕ → Step → Type 0
IsOther owner until (claim now o limit lease_seconds) = now ≤ until
IsOther owner until (begin o id) = Unit
IsOther owner until (commit now id) = Unit
IsOther owner until (lose id) = Unit
IsOther owner until (emit e) = Unit

claim_if-Held :
    (now o lease_seconds owner until : ℕ) (ids : List ℕ) (e : OutboxEvent)
    → now ≤ until
    → (contains ids e.id ≡ true → is_pending now e ≡ true)
    → Held owner until (some e)
    → Held owner until (some (claim_if now o lease_seconds ids e))
claim_if-Held now o lease_seconds owner until ids e early pending h =
    elim (Bool-cases (contains ids e.id)) [
      | inl chosen ↦ elim h [
        | inl done ↦ rw chosen (inl done)
        | inr (mine, live) ↦ absurd (ground (arith, pending chosen))
      ]
      | inr left ↦ rw left h
    ]

pending-at :
    (now : ℕ) (s : List OutboxEvent) (k : ℕ) (e : OutboxEvent)
    → get k s ≡ some e
    → IsPending now s k
    → is_pending now e ≡ true
pending-at now s k e found (e', found', pending) =
    let same : e' ≡ e = cc in subst (λ x. is_pending now x ≡ true) same pending

claim-IsReady :
    (now o limit lease_seconds owner until : ℕ) (s : List OutboxEvent) (k : ℕ)
    → HasUniqueKeys event_id s
    → now ≤ until
    → Held owner until (get k s)
    → Held owner until (get k (claim_events now o limit lease_seconds s).1)
unfolding claim_events
claim-IsReady now o limit lease_seconds owner until s k u early h = elim (Option-cases (get k s)) [
  | inl missing ↦ absurd (rw missing at h)
  | inr (e, found) ↦
      let ids = claimable_ids now limit s in
      let key = find-key event_id k e s found in
      rw (get-mark now o lease_seconds ids k s, found)
        (claim_if-Held now o lease_seconds owner until ids e early
          (λ chosen. pending-at now s k e found (
            contains-All (IsPending now s) ids k (claimable_ids-IsPending now limit s u)
              (subst (λ j. contains ids j ≡ true) key chosen)))
          (subst (Held owner until) found h))
]

pub complete-Held :
    (now id owner until k : ℕ) (s : List OutboxEvent)
    → Held owner until (get k s)
    → Held owner until (get k (complete now id s))
complete-Held now id owner until k s h = elim (Option-cases (get k s)) [
  | inl missing ↦ absurd (rw missing at h)
  | inr (x, found) ↦ elim (Bool-cases (id == k)) [
    | inl here ↦ rw (get-complete now id k s, here, found) (inl refl)
    | inr other ↦ rw (get-complete now id k s, other) h
  ]
]

insert-Held :
    (e : OutboxEvent) (s : List OutboxEvent) (owner until k : ℕ)
    → Held owner until (get k s)
    → Held owner until (get k (insert e s))
insert-Held e s owner until k h = elim (Option-cases (get k s)) [
  | inl missing ↦ absurd (rw missing at h)
  | inr (x, found) ↦
      elim (Bool-cases (is_some (get e.id s) || any (λ o. o.event_key == e.event_key) s)) [
        | inl taken ↦ rw taken h
        | inr fresh ↦
            let kept : get k (s ++ unclaimed e ∷ []) ≡ get k s =
              ground (arith, found, find-append event_id k s (unclaimed e ∷ [])) in
            rw fresh (subst (Held owner until) (sym kept) h)
      ]
]

step-IsReady :
    (handler : Handler) (a : Step) (owner until k : ℕ) (d : Delivery)
    → HasUniqueKeys event_id d.events
    → IsOther owner until a
    → IsReady owner until d k
    → IsReady owner until (step handler a d) k
step-IsReady handler a owner until k d u early h =
    step-keeps (λ s. Held owner until (get k s)) handler a d
      (λ now o limit lease_seconds e.
        claim-IsReady now o limit lease_seconds owner until d.events k u
          (subst (IsOther owner until) e early) h)
      (λ now id. complete-Held now id owner until k d.events h)
      (λ e. insert-Held e d.events owner until k h) h

-- The claimed events are still held, and ids are unique.
abbrev pub IsCalm : ℕ → ℕ → List ℕ → Delivery → Type 0
IsCalm owner until ids d = HasUniqueKeys event_id d.events × All (IsReady owner until d) ids

All-map : (P Q : ℕ → Type 0) (ids : List ℕ) → ((k : ℕ) → P k → Q k) → All P ids → All Q ids
All-map P Q [] f h = tt
All-map P Q (k ∷ ids) f (here, there) = (f k here, All-map P Q ids f there)

pub run-IsCalm :
    (handler : Handler) (steps : List Step) (owner until : ℕ) (ids : List ℕ) (d : Delivery)
    → All (IsOther owner until) steps
    → IsCalm owner until ids d
    → IsCalm owner until ids (run handler steps d)
unfolding run
run-IsCalm handler [] owner until ids d os h = h
run-IsCalm handler (a ∷ steps) owner until ids d (o, os) (u, h) =
    run-IsCalm handler steps owner until ids (step handler a d) os (
      step-HasUniqueKeys handler a d u,
      All-map (IsReady owner until d) (IsReady owner until (step handler a d)) ids
          (λ k. step-IsReady handler a owner until k d u o) h,
    )

-- The table of another delivery with the same rows.
pub same-IsCalm :
    (owner until : ℕ) (ids : List ℕ) (d d' : Delivery)
    → d.events ≡ d'.events
    → IsCalm owner until ids d
    → IsCalm owner until ids d'
same-IsCalm owner until ids d d' same =
    subst (λ s. HasUniqueKeys event_id s × All (λ k. Held owner until (get k s)) ids) same

pub complete-IsCalm :
    (now id owner until : ℕ) (ids flying : List ℕ) (d : Delivery)
    → IsCalm owner until ids d
    → IsCalm owner until ids (record d { events = complete now id d.events; in_flight = flying })
complete-IsCalm now id owner until ids flying d (u, h) = (
  complete-HasUniqueKeys now id d.events u,
  All-map (IsReady owner until d) _ ids (λ k. complete-Held now id owner until k d.events) h,
)
