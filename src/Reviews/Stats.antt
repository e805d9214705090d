-- ===== src/Reviews/Stats.antt =====
-- `adjust_aggregate`, `remove_empty_aggregate`, `full_recompute` and `reconcile` of
-- src/boiler_reviews/reviews/stats.py.
use boiler_reviews.Prelude.{
  ℕ, ◌+◌, Bool, true, false, Option, none, some, List, [], ◌∷◌, ◌++◌, ◌==◌, nat_eq, pair_eq,
  option_eq, if◌then◌else◌,
}
use boiler_reviews.Prelude.Int.{ℤ, pos, negsuc, ◌+ℤ◌, ◌-ℤ◌, ltb_ℤ}
use boiler_reviews.Prelude.Table.{find, put, delete}
use boiler_reviews.Exec.{Exec, ok, err, assertion_error}
use boiler_reviews.Reviews.Model.{ReviewRevision, CourseAggregate, Store, Group, aggregate_group}

-- `direction`, which every call gives as 1 or -1.
pub data Direction : Type 0 where
  plus minus : Direction

abbrev pub flag : Bool → ℕ
flag true = 1
flag false = 0

-- `a + direction * n`
unfoldable pub moved : Direction → ℤ → ℕ → ℤ
moved plus a n = a +ℤ pos n
moved minus a n = a -ℤ pos n

abbrev pub adjusted : Direction → ReviewRevision → CourseAggregate → CourseAggregate
adjusted d v a = record a {
  review_count = moved d a.review_count 1;
  sum_overall = moved d a.sum_overall v.overall;
  sum_difficulty = moved d a.sum_difficulty v.difficulty;
  sum_workload = moved d a.sum_workload v.workload_hours;
  recommend_count = moved d a.recommend_count (flag v.would_recommend);
  revision = a.revision + 1;
}

abbrev pub empty_aggregate : Group → CourseAggregate
empty_aggregate (course, term) = record {
  course_id = course;
  term_id = term;
  review_count = pos 0;
  sum_overall = pos 0;
  sum_difficulty = pos 0;
  sum_workload = pos 0;
  recommend_count = pos 0;
  revision = 0;
}

abbrev pub row_or_new :
    Group → List CourseAggregate → Option CourseAggregate → CourseAggregate × List CourseAggregate
row_or_new g rows none = (empty_aggregate g, rows ++ empty_aggregate g ∷ [])
row_or_new g rows (some a) = (a, rows)

-- The group's row, which is added to the table if there is none.
unfoldable pub with_row : Group → List CourseAggregate → CourseAggregate × List CourseAggregate
with_row g rows = row_or_new g rows (find aggregate_group g rows)

abbrev pub set_aggregates : List CourseAggregate → Store → Store
set_aggregates rows s = record s { aggregates = rows }

unfoldable pub adjust_aggregate : Group → ReviewRevision → Direction → Exec Store CourseAggregate
unfolding with_row
adjust_aggregate g v d s =
    let (a, rows) = with_row g s.aggregates in
    let a' = adjusted d v a in
    let s' = set_aggregates (put aggregate_group a' rows) s in
    if ltb_ℤ a'.review_count (pos 0)
    then (err (assertion_error "published aggregate count cannot be negative"), s')
    else (ok a', s')

abbrev pub is_zero : ℤ → Bool
is_zero (pos n) = n == 0
is_zero (negsuc n) = false

unfoldable pub remove_empty_aggregate : CourseAggregate → Exec Store (Unit {0})
remove_empty_aggregate a s =
    if is_zero a.review_count
    then (ok tt, set_aggregates (delete aggregate_group (aggregate_group a) s.aggregates) s)
    else (ok tt, s)
