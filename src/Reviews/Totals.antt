-- ===== src/Reviews/Totals.antt =====
-- The columns of an aggregate, and what they should hold: the totals over the reviews of a group
-- whose approved revision is public.
use boiler_reviews.Prelude.{
  ℕ, ◌+◌, ◌≡◌, refl, Option, none, some, List, [], ◌∷◌, ◌++◌, arith, ◌==◌, nat_eq, pair_eq,
  if◌then◌else◌, ◌&&◌, Option-cases, inl, inr,
}
use boiler_reviews.Prelude.Int.{ℤ, pos}
use boiler_reviews.Prelude.Classes.{pair_beq_iff}
use boiler_reviews.Prelude.Table.{find, put, find-key, find-put, find-append}
use boiler_reviews.Reviews.Model.{
  Review, ReviewRevision, CourseAggregate, Group, review_group, review_id, revision_key,
  aggregate_group,
}
use boiler_reviews.Reviews.Stats.{Direction, flag, moved, adjusted, empty_aggregate, with_row}
use boiler_reviews.Reviews.Service.{is_public}

pub data Column : Type 0 where
  review_count sum_overall sum_difficulty sum_workload recommend_count : Column

abbrev pub column : Column → CourseAggregate → ℤ
column review_count a = a.review_count
column sum_overall a = a.sum_overall
column sum_difficulty a = a.sum_difficulty
column sum_workload a = a.sum_workload
column recommend_count a = a.recommend_count

-- What one revision adds to a column.
abbrev pub amount : Column → ReviewRevision → ℕ
amount review_count v = 1
amount sum_overall v = v.overall
amount sum_difficulty v = v.difficulty
amount sum_workload v = v.workload_hours
amount recommend_count v = flag v.would_recommend

pub column-adjusted :
    (c : Column) (d : Direction) (v : ReviewRevision) (a : CourseAggregate)
    → column c (adjusted d v a) ≡ moved d (column c a) (amount c v)
column-adjusted review_count d v a = refl
column-adjusted sum_overall d v a = refl
column-adjusted sum_difficulty d v a = refl
column-adjusted sum_workload d v a = refl
column-adjusted recommend_count d v a = refl

abbrev pub column_of : Column → Option CourseAggregate → ℤ
column_of c none = pos 0
column_of c (some a) = column c a

-- The stored value of a column for a group; a missing row stands for zeros.
unfoldable pub value : Column → Group → List CourseAggregate → ℤ
value c g rows = column_of c (find aggregate_group g rows)

-- The approved revision of a review, if it has one.
unfoldable pub approved : List ReviewRevision → Review → Option ℕ → Option ReviewRevision
approved vs r none = none
approved vs r (some n) = find revision_key (r.id, n) vs

abbrev pub amount_of : Column → Option ReviewRevision → ℕ
amount_of c none = 0
amount_of c (some v) = amount c v

-- What a review adds to a column of a group.
unfoldable pub contribution : Column → Group → List ReviewRevision → Review → ℕ
contribution c g vs r =
    if is_public r.status && review_group r == g
    then amount_of c (approved vs r r.published_revision)
    else 0

unfoldable pub total : Column → Group → List ReviewRevision → List Review → ℕ
total c g vs [] = 0
total c g vs (r ∷ rs) = contribution c g vs r + total c g vs rs

-- Rewriting one review moves the total by the difference of its contributions.
pub total-put :
    (c : Column) (g : Group) (vs : List ReviewRevision) (rs : List Review) (r r' : Review)
    → find review_id r'.id rs ≡ some r
    → total c g vs (put review_id r' rs) + contribution c g vs r
      ≡ total c g vs rs + contribution c g vs r'
unfolding total find put
total-put c g vs [] r r' h = cc
total-put c g vs (x ∷ rs) r r' h = ground (arith, total-put c g vs rs r r')

-- A group with no review to count has zero in every column.
contribution-count :
    (c : Column) (g : Group) (vs : List ReviewRevision) (r : Review)
    → contribution review_count g vs r ≡ 0
    → contribution c g vs r ≡ 0
unfolding contribution
contribution-count c g vs r h = elim (Option-cases (approved vs r r.published_revision)) [
  | inl missing ↦ rw missing (ground arith)
  | inr (v, found) ↦ ground arith
]

pub total-count :
    (c : Column) (g : Group) (vs : List ReviewRevision) (rs : List Review)
    → total review_count g vs rs ≡ 0
    → total c g vs rs ≡ 0
unfolding total
total-count c g vs [] h = refl
total-count c g vs (r ∷ rs) h = omega (arith, contribution-count c g vs r, total-count c g vs rs)

-- The rows after one revision is added or taken away.
pub find-adjusted :
    (d : Direction) (v : ReviewRevision) (g k : Group) (rows : List CourseAggregate)
    → let (a, rows') = with_row g rows in
      find aggregate_group k (put aggregate_group (adjusted d v a) rows')
      ≡ (if g == k then some (adjusted d v a) else find aggregate_group k rows)
unfolding with_row
find-adjusted d v g k rows = elim (Option-cases (find aggregate_group g rows)) [
  | inl missing ↦ rw missing (
      unfold find in
      ground (
        arith,
        pair_beq_iff g k,
        find-put aggregate_group k (adjusted d v (empty_aggregate g))
            (rows ++ empty_aggregate g ∷ []),
        find-append aggregate_group k rows (empty_aggregate g ∷ []),
      ))
  | inr (a, found) ↦ rw found (
      ground (
        arith,
        pair_beq_iff g k,
        find-key aggregate_group g a rows found,
        find-put aggregate_group k (adjusted d v a) rows,
      ))
]
