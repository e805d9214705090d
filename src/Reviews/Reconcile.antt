-- ===== src/Reviews/Reconcile.antt =====
-- `full_recompute` and `reconcile` of src/boiler_reviews/reviews/stats.py, and
-- `reconcile_and_record` of reviews/reconcile.py. The groups are visited in the order of the tables:
-- each is repaired by itself, so the order that `sorted` gives them does not show in the result.
use boiler_reviews.Prelude.{
  ℕ, suc, ◌+◌, Bool, true, false, Option, none, some, List, [], ◌∷◌, ◌++◌, map, length, ◌==◌,
  nat_eq, pair_eq, if◌then◌else◌, ◌&&◌, not,
}
use boiler_reviews.Prelude.Int.{ℤ, pos, negsuc}
use boiler_reviews.Prelude.Json.{num, bool}
use boiler_reviews.Prelude.Table.{find, put, delete, is_some}
use boiler_reviews.Exec.{Exec, ok, err}
use boiler_reviews.Reviews.Model.{
  Review, ReviewRevision, CourseAggregate, Store, Group, review_group, revision_key,
  aggregate_group,
}
use boiler_reviews.Reviews.Stats.{flag, set_aggregates}
use boiler_reviews.Reviews.Service.{is_public}

-- One entry of the dict that `full_recompute` returns.
pub record Counts : Type 0 where
  pub group : Group
  pub review_count : ℕ
  pub sum_overall : ℕ
  pub sum_difficulty : ℕ
  pub sum_workload : ℕ
  pub recommend_count : ℕ

abbrev pub counts_group : Counts → Group
counts_group e = e.group

abbrev pub zero_counts : Group → Counts
zero_counts g = record {
  group = g;
  review_count = 0;
  sum_overall = 0;
  sum_difficulty = 0;
  sum_workload = 0;
  recommend_count = 0;
}

abbrev pub counted : ReviewRevision → Counts → Counts
counted v e = record e {
  review_count = e.review_count + 1;
  sum_overall = e.sum_overall + v.overall;
  sum_difficulty = e.sum_difficulty + v.difficulty;
  sum_workload = e.sum_workload + v.workload_hours;
  recommend_count = e.recommend_count + flag v.would_recommend;
}

abbrev pub count_into : Group → ReviewRevision → List Counts → Option Counts → List Counts
count_into g v values none = values ++ counted v (zero_counts g) ∷ []
count_into g v values (some e) = put counts_group (counted v e) values

-- The body of the loop: `setdefault` and the five additions.
unfoldable pub count_one : Group → ReviewRevision → List Counts → List Counts
count_one g v values = count_into g v values (find counts_group g values)

abbrev pub published_of : List ReviewRevision → Review → Option ℕ → Option ReviewRevision
published_of vs r none = none
published_of vs r (some n) = find revision_key (r.id, n) vs

-- The join of a review with its approved revision, where the status is public.
unfoldable pub joined : List ReviewRevision → Review → Option ReviewRevision
joined vs r = if is_public r.status then published_of vs r r.published_revision else none

abbrev pub count_joined : Group → Option ReviewRevision → List Counts → List Counts
count_joined g none values = values
count_joined g (some v) values = count_one g v values

unfoldable pub recompute_from : List ReviewRevision → List Review → List Counts → List Counts
unfolding joined count_one
recompute_from vs [] values = values
recompute_from vs (r ∷ rs) values =
    recompute_from vs rs (count_joined (review_group r) (joined vs r) values)

unfoldable pub full_recompute : Store → List Counts
unfolding recompute_from
full_recompute s = recompute_from s.revisions s.reviews []

abbrev is_nat : ℤ → ℕ → Bool
is_nat (pos n) m = n == m
is_nat (negsuc n) m = false

abbrev pub same_counts : Counts → CourseAggregate → Bool
same_counts e a =
    is_nat a.review_count e.review_count
    && is_nat a.sum_overall e.sum_overall
    && is_nat a.sum_difficulty e.sum_difficulty
    && is_nat a.sum_workload e.sum_workload
    && is_nat a.recommend_count e.recommend_count

-- `expected.get(key, {"review_count": 0}) != actual.get(key, {"review_count": 0})`: a dict of five
-- entries never equals the default of one.
abbrev pub differs : Option Counts → Option CourseAggregate → Bool
differs none none = false
differs none (some a) = true
differs (some e) none = true
differs (some e) (some a) = not (same_counts e a)

-- `set(expected) | set(actual)`
abbrev pub add_groups : List Counts → List CourseAggregate → List Group
add_groups expected [] = map counts_group expected
add_groups expected (a ∷ rows) =
    if is_some (find counts_group (aggregate_group a) expected)
    then add_groups expected rows
    else aggregate_group a ∷ add_groups expected rows

abbrev pub overwritten : Counts → CourseAggregate → CourseAggregate
overwritten e a = record a {
  review_count = pos e.review_count;
  sum_overall = pos e.sum_overall;
  sum_difficulty = pos e.sum_difficulty;
  sum_workload = pos e.sum_workload;
  recommend_count = pos e.recommend_count;
  revision = a.revision + 1;
}

abbrev pub row_of : Counts → CourseAggregate
row_of e = record {
  course_id = e.group.0;
  term_id = e.group.1;
  review_count = pos e.review_count;
  sum_overall = pos e.sum_overall;
  sum_difficulty = pos e.sum_difficulty;
  sum_workload = pos e.sum_workload;
  recommend_count = pos e.recommend_count;
  revision = 1;
}

-- The three branches of `if repair`.
abbrev pub repaired :
    Group → Option Counts → Option CourseAggregate → List CourseAggregate → List CourseAggregate
repaired g none row rows = delete aggregate_group g rows
repaired g (some e) none rows = rows ++ row_of e ∷ []
repaired g (some e) (some a) rows = put aggregate_group (overwritten e a) rows

pub record Reconciled : Type 0 where
  pub groups_checked : ℕ
  pub mismatches : ℕ
  pub repaired : ℕ

-- The loop over the groups; each row is looked up in the rows that the call began with.
unfoldable pub reconcile_groups :
    Bool
    → List Counts
    → List CourseAggregate
    → List Group
    → List CourseAggregate
    → ℕ
    → ℕ × List CourseAggregate
reconcile_groups repair expected actual [] rows n = (n, rows)
reconcile_groups repair expected actual (g ∷ groups) rows n =
    let e = find counts_group g expected in
    let a = find aggregate_group g actual in
    reconcile_groups repair expected actual groups
      (if differs e a && repair then repaired g e a rows else rows)
      (if differs e a then suc n else n)

unfoldable pub reconcile : Bool → Exec Store Reconciled
unfolding reconcile_groups full_recompute
reconcile repair s =
    let expected = full_recompute s in
    let groups = add_groups expected s.aggregates in
    let (n, rows) = reconcile_groups repair expected s.aggregates groups s.aggregates 0 in
    (
      ok (record {
        groups_checked = length groups;
        mismatches = n;
        repaired = if repair then n else 0;
      }),
      set_aggregates rows s,
    )

abbrev audit_reconciled : Option ℕ → Bool → Reconciled → Store → Store
audit_reconciled actor repair r s = record s {
  audits =
      s.audits
      ++ record {
        actor_id = actor;
        event_type = "course_aggregates.reconciled";
        entity_type = "course_aggregate";
        entity_id = none;
        payload_json =
            ("groups_checked", num (pos r.groups_checked))
            ∷ ("mismatches", num (pos r.mismatches))
            ∷ ("repaired", num (pos r.repaired))
            ∷ ("repair", bool repair)
            ∷ [];
      }
        ∷ [];
}

unfoldable pub reconcile_and_record : Option ℕ → Bool → Exec Store Reconciled
unfolding reconcile
reconcile_and_record actor repair s =
    let (r, s') = reconcile repair s in
    elim r [
      | ok x ↦ (ok x, if x.mismatches == 0 then s' else audit_reconciled actor repair x s')
      | err e ↦ (err e, s')
    ]
