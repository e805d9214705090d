-- ===== src/Reviews/Transition.antt =====
-- `_transition` step by step: on a consistent store each step returns, and leaves a known store.
use boiler_reviews.Prelude.{
  ℕ, zero, suc, ◌<◌, ◌≡◌, refl, Bool, true, false, Option, none, some, List, arith, nat_eq, pair_eq,
  Bool-cases, Option-cases, inl, inr,
}
use boiler_reviews.Prelude.Int.{ℤ, pos, ltb_ℤ}
use boiler_reviews.Prelude.Table.{find, is_some, find-key}
use boiler_reviews.Exec.{pure, ok, bind-ok}
use boiler_reviews.Reviews.Model.{
  Review, ReviewRevision, CourseAggregate, Group, Store, review_group, revision_key,
  aggregate_group,
}
use boiler_reviews.Reviews.Stats.{
  Direction, minus, with_row, adjust_aggregate, remove_empty_aggregate, set_aggregates, is_zero,
}
use boiler_reviews.Reviews.Service.{revision_row, published_row, retract, retract_if}
use boiler_reviews.Reviews.Totals.{approved}
use boiler_reviews.Reviews.Sums.{adjusted_rows, adjusted_row, retracted_rows}

-- A revision that the table has is read; the read changes nothing.
pub revision_row-ok :
    (r : Review) (n : ℕ) (s : Store) (v : ReviewRevision)
    → find revision_key (r.id, n) s.revisions ≡ some v
    → revision_row r n s ≡ (ok v, s)
unfolding revision_row
revision_row-ok r n s v h = ground (arith, h)

not_negative : (a : ℤ) (n : ℕ) → a ≡ pos n → ltb_ℤ a (pos 0) ≡ false
not_negative a n h = ground arith

pub adjust_aggregate-ok :
    (g : Group) (v : ReviewRevision) (d : Direction) (s : Store) (n : ℕ)
    → (adjusted_row d v g s.aggregates).review_count ≡ pos n
    → adjust_aggregate g v d s
      ≡ (ok (adjusted_row d v g s.aggregates), set_aggregates (adjusted_rows d v g s.aggregates) s)
unfolding adjust_aggregate adjusted_row adjusted_rows
adjust_aggregate-ok g v d s n h = rw (not_negative _ n h)

adjusted_row-group :
    (d : Direction) (v : ReviewRevision) (g : Group) (rows : List CourseAggregate)
    → aggregate_group (adjusted_row d v g rows) ≡ g
unfolding adjusted_row with_row
adjusted_row-group d v g rows = elim (Option-cases (find aggregate_group g rows)) [
  | inl missing ↦ rw missing
  | inr (a, found) ↦ rw found (find-key aggregate_group g a rows found)
]

remove_empty_aggregate-ok :
    (v : ReviewRevision) (g : Group) (s : Store)
    → remove_empty_aggregate
        (adjusted_row minus v g s.aggregates)
        (set_aggregates (adjusted_rows minus v g s.aggregates) s)
      ≡ (ok tt, set_aggregates (retracted_rows v g s.aggregates) s)
unfolding remove_empty_aggregate retracted_rows
remove_empty_aggregate-ok v g s =
    elim (Bool-cases (is_zero (adjusted_row minus v g s.aggregates).review_count)) [
      | inl empty ↦ rw (empty, adjusted_row-group minus v g s.aggregates)
      | inr some_left ↦ rw some_left
    ]

pub retract-ok :
    (r : Review) (v : ReviewRevision) (s : Store) (n : ℕ)
    → (adjusted_row minus v (review_group r) s.aggregates).review_count ≡ pos n
    → retract r v s ≡ (ok tt, set_aggregates (retracted_rows v (review_group r) s.aggregates) s)
unfolding retract
retract-ok r v s n h =
    bind-ok (adjust_aggregate (review_group r) v minus) remove_empty_aggregate s
      (adjust_aggregate-ok (review_group r) v minus s n h)
      (remove_empty_aggregate-ok v (review_group r) s)

-- The rows after an approved revision, if there is one, is taken out where `b` says so.
abbrev pub retracted_if :
    Bool → Group → Option ReviewRevision → List CourseAggregate → List CourseAggregate
retracted_if b g none rows = rows
retracted_if true g (some v) rows = retracted_rows v g rows
retracted_if false g (some v) rows = rows

-- The count that a retraction leaves is not negative.
abbrev pub CanRetract : Bool → Group → Option ReviewRevision → List CourseAggregate → Type 0
CanRetract b g none rows = Unit
CanRetract true g (some v) rows = (n : ℕ) × ((adjusted_row minus v g rows).review_count ≡ pos n)
CanRetract false g (some v) rows = Unit

pub retract_if-ok :
    (b : Bool) (r : Review) (old : Option ReviewRevision) (s : Store)
    → CanRetract b (review_group r) old s.aggregates
    → retract_if b r old s
      ≡ (ok tt, set_aggregates (retracted_if b (review_group r) old s.aggregates) s)
unfolding retract_if
retract_if-ok b r none s h = refl
retract_if-ok true r (some v) s h = retract-ok r v s h.0 h.1
retract_if-ok false r (some v) s h = refl

-- The approved revision is there, and its number is not zero, which Python takes for a missing one.
abbrev pub HasApproved : List ReviewRevision → Review → Option ℕ → Type 0
HasApproved vs r none = Unit
HasApproved vs r (some n) = (0 < n) × (is_some (find revision_key (r.id, n) vs) ≡ true)

pub published_row-ok :
    (r : Review) (o : Option ℕ) (s : Store)
    → HasApproved s.revisions r o
    → published_row r o s ≡ (ok (approved s.revisions r o), s)
unfolding published_row approved
published_row-ok r none s h = refl
published_row-ok r (some zero) s h = absurd (omega arith)
published_row-ok r (some (suc n)) s h =
    elim (Option-cases (find revision_key (r.id, suc n) s.revisions)) [
      | inl missing ↦ absurd (ground (arith, missing))
      | inr (v, found) ↦ rw found (
          bind-ok (revision_row r (suc n)) (λ x. pure (some x)) s
            (revision_row-ok r (suc n) s v found) refl)
    ]
