-- ===== src/Reviews/Sums.antt =====
-- The stored aggregates hold the totals of the public approved revisions: this survives each way in
-- which a review and the rows change together.
use boiler_reviews.Prelude.{
  ℕ, ◌+◌, ◌≡◌, ◌≢◌, refl, some, List, arith, ◌==◌, nat_eq, pair_eq, if◌then◌else◌, Bool-cases,
  Option-cases, inl, inr,
}
use boiler_reviews.Prelude.Classes.{pair_beq_iff}
use boiler_reviews.Prelude.Int.{pos, ◌+ℤ◌, ◌-ℤ◌}
use boiler_reviews.Prelude.Table.{
  find, put, delete, HasUniqueKeys, put-HasUniqueKeys, append-HasUniqueKeys, find-delete,
  delete-HasUniqueKeys,
}
use boiler_reviews.Reviews.Model.{
  Review, ReviewRevision, CourseAggregate, Group, review_id, aggregate_group,
}
use boiler_reviews.Reviews.Stats.{
  Direction, plus, minus, moved, adjusted, empty_aggregate, with_row, is_zero,
}
use boiler_reviews.Reviews.Totals.{
  Column, review_count, sum_overall, sum_difficulty, sum_workload, recommend_count, column, amount,
  value, column-adjusted, contribution, total, total-put, total-count, find-adjusted,
}

-- The rows that `adjust_aggregate` leaves.
unfoldable pub adjusted_rows :
    Direction → ReviewRevision → Group → List CourseAggregate → List CourseAggregate
adjusted_rows d v g rows =
    let (a, rows') = with_row g rows in put aggregate_group (adjusted d v a) rows'

-- The row that `adjust_aggregate` returns.
unfoldable pub adjusted_row :
    Direction → ReviewRevision → Group → List CourseAggregate → CourseAggregate
adjusted_row d v g rows = adjusted d v (with_row g rows).0

-- The rows after a retraction, which drops a row whose count has come down to zero.
unfoldable pub retracted_rows : ReviewRevision → Group → List CourseAggregate → List CourseAggregate
retracted_rows v g rows =
    if is_zero (adjusted_row minus v g rows).review_count
    then delete aggregate_group g (adjusted_rows minus v g rows)
    else adjusted_rows minus v g rows

pub record Matches (rows : List CourseAggregate) (vs : List ReviewRevision) (rs : List Review)
    : Type 0 where
  pub unique : HasUniqueKeys aggregate_group rows
  pub sums : (c : Column) (g : Group) → value c g rows ≡ pos (total c g vs rs)
  pub nonempty :
      (g : Group) (a : CourseAggregate)
      → find aggregate_group g rows ≡ some a
      → a.review_count ≢ pos 0

pub find-adjusted_rows :
    (d : Direction) (v : ReviewRevision) (g k : Group) (rows : List CourseAggregate)
    → find aggregate_group k (adjusted_rows d v g rows)
      ≡ (if g == k then some (adjusted_row d v g rows) else find aggregate_group k rows)
unfolding adjusted_rows adjusted_row
find-adjusted_rows d v g k rows = find-adjusted d v g k rows

column-new :
    (c : Column) (d : Direction) (v : ReviewRevision) (g : Group)
    → column c (adjusted d v (empty_aggregate g)) ≡ moved d (pos 0) (amount c v)
column-new review_count d v g = refl
column-new sum_overall d v g = refl
column-new sum_difficulty d v g = refl
column-new sum_workload d v g = refl
column-new recommend_count d v g = refl

pub column-adjusted_row :
    (c : Column) (d : Direction) (v : ReviewRevision) (g : Group) (rows : List CourseAggregate)
    → column c (adjusted_row d v g rows) ≡ moved d (value c g rows) (amount c v)
unfolding adjusted_row value with_row
column-adjusted_row c d v g rows = elim (Option-cases (find aggregate_group g rows)) [
  | inl missing ↦ rw missing (column-new c d v g)
  | inr (a, found) ↦ rw found (column-adjusted c d v a)
]

adjusted_rows-HasUniqueKeys :
    (d : Direction) (v : ReviewRevision) (g : Group) (rows : List CourseAggregate)
    → HasUniqueKeys aggregate_group rows
    → HasUniqueKeys aggregate_group (adjusted_rows d v g rows)
unfolding adjusted_rows with_row
adjusted_rows-HasUniqueKeys d v g rows u = elim (Option-cases (find aggregate_group g rows)) [
  | inl missing ↦ rw missing (
      put-HasUniqueKeys aggregate_group _ _
        (append-HasUniqueKeys aggregate_group rows (empty_aggregate g) u missing))
  | inr (a, found) ↦ rw found (put-HasUniqueKeys aggregate_group _ _ u)
]

pub value-adjusted_rows :
    (c : Column) (d : Direction) (v : ReviewRevision) (g k : Group) (rows : List CourseAggregate)
    → value c k (adjusted_rows d v g rows)
      ≡ (if g == k then moved d (value c g rows) (amount c v) else value c k rows)
unfolding value
value-adjusted_rows c d v g k rows = elim (Bool-cases (g == k)) [
  | inl same ↦ rw (find-adjusted_rows, same, column-adjusted_row)
  | inr other ↦ rw (find-adjusted_rows, other)
]

value-delete :
    (c : Column) (g k : Group) (rows : List CourseAggregate)
    → HasUniqueKeys aggregate_group rows
    → value c k (delete aggregate_group g rows) ≡ (if g == k then pos 0 else value c k rows)
unfolding value
value-delete c g k rows u = elim (Bool-cases (g == k)) [
  | inl same ↦ rw (find-delete aggregate_group k g rows u, same)
  | inr other ↦ rw (find-delete aggregate_group k g rows u, other)
]

moved-pos : (n m : ℕ) → moved plus (pos n) m ≡ pos (n + m)
unfolding moved ◌+ℤ◌
moved-pos n m = ground arith

moved-back : (n m k : ℕ) → k + m ≡ n → moved minus (pos n) m ≡ pos k
unfolding moved ◌-ℤ◌
moved-back n m k h = ground arith

-- What a review adds, group by group, when its public approved revision is `v`.
abbrev pub Adds : List ReviewRevision → Review → Group → ReviewRevision → Type 0
Adds vs r g v =
    (c : Column) (k : Group) → contribution c k vs r ≡ (if g == k then amount c v else 0)

abbrev pub AddsNothing : List ReviewRevision → Review → Type 0
AddsNothing vs r = (c : Column) (k : Group) → contribution c k vs r ≡ 0

pub raised_count :
    (rows : List CourseAggregate) (vs : List ReviewRevision) (rs : List Review)
    → Matches rows vs rs
    → (g : Group) (v : ReviewRevision)
    → (adjusted_row plus v g rows).review_count ≡ pos (total review_count g vs rs + 1)
raised_count rows vs rs m g v = ground (
  arith,
  column-adjusted_row review_count plus v g rows,
  m.sums review_count g,
  moved-pos (total review_count g vs rs) 1,
)

module _ (rows : List CourseAggregate) (vs : List ReviewRevision) (rs : List Review)
    (m : Matches rows vs rs) (r r' : Review) (read : find review_id r'.id rs ≡ some r) where
  -- A review whose contribution stays the same.
  pub unmoved-Matches :
      ((c : Column) (k : Group) → contribution c k vs r' ≡ contribution c k vs r)
      → Matches rows vs (put review_id r' rs)
  unmoved-Matches same = record {
    unique = m.unique;
    sums = λ c g. ground (arith, m.sums c g, same c g, total-put c g vs rs r r');
    nonempty = m.nonempty;
  }

  -- A review that starts to count.
  pub published-Matches :
      (g : Group) (v : ReviewRevision)
      → AddsNothing vs r
      → Adds vs r' g v
      → Matches (adjusted_rows plus v g rows) vs (put review_id r' rs)
  published-Matches g v before after = record {
    unique = adjusted_rows-HasUniqueKeys plus v g rows m.unique;
    sums = λ c k. ground (
      arith,
      value-adjusted_rows c plus v g k rows,
      m.sums c g,
      m.sums c k,
      moved-pos (total c g vs rs) (amount c v),
      total-put c k vs rs r r',
      before c k,
      after c k,
      pair_beq_iff g k,
    );
    nonempty = λ k a h. ground (
      arith,
      find-adjusted_rows plus v g k rows,
      column-adjusted_row review_count plus v g rows,
      m.sums review_count g,
      moved-pos (total review_count g vs rs) 1,
      m.nonempty k a,
    );
  }

  -- A review that stops to count: the group's row falls by its revision, and goes when it is empty.
  lowered-sums :
      (g : Group) (v : ReviewRevision)
      → Adds vs r g v
      → AddsNothing vs r'
      → (c : Column) (k : Group)
      → value c k (adjusted_rows minus v g rows) ≡ pos (total c k vs (put review_id r' rs))
  lowered-sums g v before after c k = ground (
    arith,
    value-adjusted_rows c minus v g k rows,
    m.sums c g,
    m.sums c k,
    moved-back (total c g vs rs) (amount c v) (total c g vs (put review_id r' rs)),
    total-put c k vs rs r r',
    before c k,
    after c k,
    pair_beq_iff g k,
  )

  -- The count of the lowered row is not negative.
  pub lowered_count :
      (g : Group) (v : ReviewRevision)
      → Adds vs r g v
      → AddsNothing vs r'
      → (adjusted_row minus v g rows).review_count
        ≡ pos (total review_count g vs (put review_id r' rs))
  lowered_count g v before after = ground (
    arith,
    column-adjusted_row review_count minus v g rows,
    value-adjusted_rows review_count minus v g g rows,
    pair_beq_iff g g,
    lowered-sums g v before after review_count g,
  )

  pub retracted-Matches :
      (g : Group) (v : ReviewRevision)
      → Adds vs r g v
      → AddsNothing vs r'
      → Matches (retracted_rows v g rows) vs (put review_id r' rs)
  unfolding retracted_rows
  retracted-Matches g v before after =
      elim (Bool-cases (is_zero (adjusted_row minus v g rows).review_count)) [
        | inl empty ↦ rw empty (record {
          unique = delete-HasUniqueKeys aggregate_group g (adjusted_rows minus v g rows) u;
          sums = λ c k. ground (
            arith,
            value-delete c g k (adjusted_rows minus v g rows) u,
            lowered-sums g v before after c k,
            lowered_count g v before after,
            total-count c g vs (put review_id r' rs),
            pair_beq_iff g k,
          );
          nonempty = λ k a h. ground (
            arith,
            find-delete aggregate_group k g (adjusted_rows minus v g rows) u,
            find-adjusted_rows minus v g k rows,
            m.nonempty k a,
          );
        })
        | inr some_left ↦ rw some_left (record {
          unique = u;
          sums = lowered-sums g v before after;
          nonempty = λ k a h. ground (arith, find-adjusted_rows minus v g k rows, m.nonempty k a);
        })
      ]
    where
      u : HasUniqueKeys aggregate_group (adjusted_rows minus v g rows)
      u = adjusted_rows-HasUniqueKeys minus v g rows m.unique
