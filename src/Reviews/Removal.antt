-- ===== src/Reviews/Removal.antt =====
-- Taking a review out of the aggregates.
use boiler_reviews.Prelude.{
  ℕ, ◌≡◌, refl, sym, Bool, true, false, Option, none, some, List, arith, nat_eq, pair_eq,
}
use boiler_reviews.Prelude.Table.{find, put}
use boiler_reviews.Reviews.Model.{Review, ReviewRevision, CourseAggregate, review_group, review_id}
use boiler_reviews.Reviews.Service.{is_public}
use boiler_reviews.Reviews.Totals.{Column, review_count, amount_of, approved, total}
use boiler_reviews.Reviews.Sums.{
  Matches, AddsNothing, unmoved-Matches, retracted-Matches, lowered_count,
}
use boiler_reviews.Reviews.Transition.{CanRetract, retracted_if}
use boiler_reviews.Reviews.Consistency.{
  AddsNothing-not_public, AddsNothing-unapproved, Adds-approved,
}

-- Taking a review out of the aggregates, if it counts, when its new row adds nothing.
pub taken_out :
    (rows : List CourseAggregate) (vs : List ReviewRevision) (rs : List Review) (r r' : Review)
    → Matches rows vs rs
    → find review_id r'.id rs ≡ some r
    → AddsNothing vs r'
    → (b : Bool) (old : Option ReviewRevision) → b ≡ is_public r.status
    → old ≡ approved vs r r.published_revision
    → CanRetract b (review_group r) old rows
      × Matches (retracted_if b (review_group r) old rows) vs (put review_id r' rs)
taken_out rows vs rs r r' m read nothing b none public approved_eq = (
  tt,
  unmoved-Matches rows vs rs m r r' read
      λ c k. ground (arith, nothing c k, AddsNothing-unapproved vs r (sym approved_eq) c k),
)
taken_out rows vs rs r r' m read nothing true (some v) public approved_eq =
    let adds = Adds-approved vs r v (sym public) (sym approved_eq) in
    (
      (
        total review_count (review_group r) vs (put review_id r' rs),
        lowered_count rows vs rs m r r' read (review_group r) v adds nothing,
      ),
      retracted-Matches rows vs rs m r r' read (review_group r) v adds nothing,
    )
taken_out rows vs rs r r' m read nothing false (some v) public approved_eq = (
  tt,
  unmoved-Matches rows vs rs m r r' read
      λ c k. ground (arith, nothing c k, AddsNothing-not_public vs r (sym public) c k),
)

pub approved-id :
    (vs : List ReviewRevision) (r r' : Review) (o : Option ℕ)
    → r.id ≡ r'.id
    → approved vs r o ≡ approved vs r' o
unfolding approved
approved-id vs r r' none h = refl
approved-id vs r r' (some n) h = rw h

pub amount_of-unapproved :
    (c : Column) (vs : List ReviewRevision) (r : Review) (o : Option ℕ)
    → o ≡ none
    → amount_of c (approved vs r o) ≡ 0
unfolding approved
amount_of-unapproved c vs r none h = refl
amount_of-unapproved c vs r (some n) h = absurd (cc)
