-- ===== src/Reviews/Agreement.antt =====
-- The recomputation and the stored aggregates agree on every consistent store.
use boiler_reviews.Prelude.{
  ℕ, ◌+◌, ◌≡◌, ◌≢◌, refl, sym, ap, ◌∙◌, ◌<◌, Bool, false, Option, none, some, List, [], ◌∷◌, arith,
  ◌==◌, nat_eq, pair_eq, if◌then◌else◌, Option-cases, inl, inr, length,
}
use boiler_reviews.Prelude.Classes.{pair_beq_iff}
use boiler_reviews.Prelude.Int.{pos}
use boiler_reviews.Prelude.Table.{find, find-put, find-key, find-append}
use boiler_reviews.Exec.{ok}
use boiler_reviews.Reviews.Model.{
  Review, ReviewRevision, CourseAggregate, Store, Group, review_group, aggregate_group,
}
use boiler_reviews.Reviews.Totals.{
  Column, review_count, sum_overall, sum_difficulty, sum_workload, recommend_count, amount,
  column_of, value, approved, contribution, total,
}
use boiler_reviews.Reviews.Consistency.{IsConsistent}
use boiler_reviews.Reviews.Operations.{Op, run}
use boiler_reviews.Reviews.Reachable.{run-IsConsistent}
use boiler_reviews.Reviews.Reconcile.{
  Counts, counts_group, zero_counts, counted, count_one, joined, count_joined, recompute_from,
  full_recompute, published_of, differs, add_groups, reconcile_groups, reconcile,
}

abbrev pub count : Column → Counts → ℕ
count review_count e = e.review_count
count sum_overall e = e.sum_overall
count sum_difficulty e = e.sum_difficulty
count sum_workload e = e.sum_workload
count recommend_count e = e.recommend_count

abbrev count_of : Column → Option Counts → ℕ
count_of c none = 0
count_of c (some e) = count c e

unfoldable pub tallied : Column → Group → List Counts → ℕ
tallied c g values = count_of c (find counts_group g values)

count-counted :
    (c : Column) (v : ReviewRevision) (e : Counts) → count c (counted v e) ≡ count c e + amount c v
count-counted review_count v e = refl
count-counted sum_overall v e = refl
count-counted sum_difficulty v e = refl
count-counted sum_workload v e = refl
count-counted recommend_count v e = refl

count-new :
    (c : Column) (v : ReviewRevision) (g : Group) → count c (counted v (zero_counts g)) ≡ amount c v
count-new review_count v g = refl
count-new sum_overall v g = omega arith
count-new sum_difficulty v g = omega arith
count-new sum_workload v g = omega arith
count-new recommend_count v g = omega arith

tallied-count_one :
    (c : Column) (g k : Group) (v : ReviewRevision) (values : List Counts)
    → tallied c k (count_one g v values) ≡ tallied c k values + (if g == k then amount c v else 0)
unfolding tallied count_one
tallied-count_one c g k v values = elim (Option-cases (find counts_group g values)) [
  | inl missing ↦ rw missing (
      unfold find in
      ground (
        arith,
        pair_beq_iff g k,
        count-new c v g,
        find-append counts_group k values (counted v (zero_counts g) ∷ []),
      ))
  | inr (e, found) ↦ rw found (
      ground (
        arith,
        pair_beq_iff g k,
        count-counted c v e,
        find-key counts_group g e values found,
        find-put counts_group k (counted v e) values,
      ))
]

published_of-eq-approved :
    (vs : List ReviewRevision) (r : Review) (o : Option ℕ) → published_of vs r o ≡ approved vs r o
unfolding approved
published_of-eq-approved vs r none = refl
published_of-eq-approved vs r (some n) = refl

tallied-count_joined :
    (c : Column) (k : Group) (vs : List ReviewRevision) (r : Review) (values : List Counts)
    → tallied c k (count_joined (review_group r) (joined vs r) values)
      ≡ tallied c k values + contribution c k vs r
unfolding joined contribution
tallied-count_joined c k vs r values = elim (Option-cases (approved vs r r.published_revision)) [
  | inl missing ↦ ground (arith, published_of-eq-approved vs r r.published_revision)
  | inr (v, found) ↦ ground (
    arith,
    published_of-eq-approved vs r r.published_revision,
    tallied-count_one c (review_group r) k v values,
  )
]

tallied-recompute_from :
    (c : Column) (k : Group) (vs : List ReviewRevision) (rs : List Review) (values : List Counts)
    → tallied c k (recompute_from vs rs values) ≡ tallied c k values + total c k vs rs
unfolding recompute_from total
tallied-recompute_from c k vs [] values = omega arith
tallied-recompute_from c k vs (r ∷ rs) values = omega (
  arith,
  tallied-recompute_from c k vs rs (count_joined (review_group r) (joined vs r) values),
  tallied-count_joined c k vs r values,
)

-- No entry counts zero reviews.
abbrev IsPositive : List Counts → Type 0
IsPositive values =
    (k : Group) (e : Counts) → find counts_group k values ≡ some e → 0 < e.review_count

count_one-IsPositive :
    (g : Group) (v : ReviewRevision) (values : List Counts)
    → IsPositive values
    → IsPositive (count_one g v values)
unfolding count_one
count_one-IsPositive g v values h k e found = elim (Option-cases (find counts_group g values)) [
  | inl missing ↦
      (unfold find in
        ground (
          arith,
          missing,
          h k e,
          find-append counts_group k values (counted v (zero_counts g) ∷ []),
        ))
  | inr (x, old) ↦ ground (arith, old, h k e, find-put counts_group k (counted v x) values)
]

count_joined-IsPositive :
    (g : Group) (o : Option ReviewRevision) (values : List Counts)
    → IsPositive values
    → IsPositive (count_joined g o values)
count_joined-IsPositive g none values h = h
count_joined-IsPositive g (some v) values h = count_one-IsPositive g v values h

recompute_from-IsPositive :
    (vs : List ReviewRevision) (rs : List Review) (values : List Counts)
    → IsPositive values
    → IsPositive (recompute_from vs rs values)
unfolding recompute_from
recompute_from-IsPositive vs [] values h = h
recompute_from-IsPositive vs (r ∷ rs) values h =
    recompute_from-IsPositive vs rs (count_joined (review_group r) (joined vs r) values)
      (count_joined-IsPositive (review_group r) (joined vs r) values h)

tallied-nil : (c : Column) (k : Group) → tallied c k [] ≡ 0
unfolding tallied find
tallied-nil review_count k = refl
tallied-nil sum_overall k = refl
tallied-nil sum_difficulty k = refl
tallied-nil sum_workload k = refl
tallied-nil recommend_count k = refl

-- The recomputation gives each group the totals over its public approved revisions.
pub full_recompute-total :
    (c : Column) (k : Group) (s : Store)
    → tallied c k (full_recompute s) ≡ total c k s.revisions s.reviews
unfolding full_recompute
full_recompute-total c k s =
    omega (arith, tallied-recompute_from c k s.revisions s.reviews [], tallied-nil c k)

full_recompute-IsPositive : (s : Store) → IsPositive (full_recompute s)
unfolding full_recompute
full_recompute-IsPositive s =
    recompute_from-IsPositive s.revisions s.reviews [] (unfold find in λ k e h. absurd (cc))

agree :
    (e : Option Counts) (a : Option CourseAggregate)
    → ((x : Counts) → e ≡ some x → 0 < x.review_count)
    → ((x : CourseAggregate) → a ≡ some x → x.review_count ≢ pos 0)
    → ((c : Column) → column_of c a ≡ pos (count_of c e))
    → differs e a ≡ false
agree none none p n same = refl
agree none (some a) p n same = absurd (n a refl (same review_count))
agree (some e) none p n same = absurd (ground (arith, p e refl, same review_count))
agree (some e) (some a) p n same = ground (
  arith,
  same review_count,
  same sum_overall,
  same sum_difficulty,
  same sum_workload,
  same recommend_count,
)

group-agrees :
    (s : Store)
    → IsConsistent s
    → (k : Group)
    → differs (find counts_group k (full_recompute s)) (find aggregate_group k s.aggregates) ≡ false
unfolding value tallied
group-agrees s inv k =
    agree (find counts_group k (full_recompute s)) (find aggregate_group k s.aggregates)
      (full_recompute-IsPositive s k) (inv.matches.nonempty k)
      λ c. inv.matches.sums c k ∙ ap pos (sym (full_recompute-total c k s))

reconcile_groups-agree :
    (repair : Bool) (expected : List Counts) (actual rows : List CourseAggregate)
    (groups : List Group) (n : ℕ)
    → ((k : Group) → differs (find counts_group k expected) (find aggregate_group k actual) ≡ false)
    → reconcile_groups repair expected actual groups rows n ≡ (n, rows)
unfolding reconcile_groups
reconcile_groups-agree repair expected actual rows [] n h = refl
reconcile_groups-agree repair expected actual rows (g ∷ groups) n h =
    rw (h g) (reconcile_groups-agree repair expected actual rows groups n h)

-- On a consistent store the reconciliation finds no mismatch and changes nothing.
pub reconcile-IsConsistent :
    (repair : Bool) (s : Store)
    → IsConsistent s
    → reconcile repair s ≡ (
      ok (record {
        groups_checked = length (add_groups (full_recompute s) s.aggregates);
        mismatches = 0;
        repaired = 0;
      }),
      s,
    )
unfolding reconcile
reconcile-IsConsistent repair s inv =
    rw
      (reconcile_groups-agree repair (full_recompute s) s.aggregates s.aggregates
        (add_groups (full_recompute s) s.aggregates) 0 (group-agrees s inv))
      (ground arith)

-- After any requests from a consistent store the reconciliation finds no mismatch and changes
-- nothing: the aggregates that `_transition` keeps up to date are what `full_recompute` counts.
pub reconcile_after_requests :
    (ops : List Op) (repair : Bool) (s : Store)
    → IsConsistent s
    → reconcile repair (run ops s) ≡ (
      ok (record {
        groups_checked = length (add_groups (full_recompute (run ops s)) (run ops s).aggregates);
        mismatches = 0;
        repaired = 0;
      }),
      run ops s,
    )
reconcile_after_requests ops repair s inv =
    reconcile-IsConsistent repair (run ops s) (run-IsConsistent ops s inv)
