-- ===== src/Planning/Alternatives.antt =====
-- src/boiler_reviews/planning/alternatives.py. Of a PlanResult, its bound (a float), its diagnostics and
-- its validator are left out.
use boiler_reviews.Prelude.{
  ℕ, ◌+◌, String, Bool, true, false, Option, List, [], ◌∷◌, ◌++◌, map, ◌==◌, nat_eq, string_eq,
  ◌&&◌, ◌||◌, not, leb, ltb, select, any, if◌then◌else◌,
}
use boiler_reviews.Prelude.Int.{ℤ, pos, ltb_ℤ}
use boiler_reviews.Prelude.Dict.{lookup}
use boiler_reviews.Catalog.Evaluate.{get_or}
use boiler_reviews.Planning.Model.{CourseSpec, PlanRequest, Assignment}
use boiler_reviews.Planning.Validator.{sum}
use boiler_reviews.Planning.Oracle.{load, largest, is_planned}

pub record ObjectiveVector : Type 0 where
  pub completion_terms : ℕ
  pub peak_workload : ℤ
  pub preference_points : ℤ
  pub selected_credits : ℤ

pub record PlanResult : Type 0 where
  pub status : String
  pub assignment : Assignment
  pub objective_value : Option ℤ

-- `a <= b`
abbrev pub leb_ℤ : ℤ → ℤ → Bool
leb_ℤ a b = not (ltb_ℤ b a)

unfoldable pub better_or_equal : ObjectiveVector → ObjectiveVector → Bool
better_or_equal a b =
    leb a.completion_terms b.completion_terms
    && (leb_ℤ a.peak_workload b.peak_workload
        && (leb_ℤ b.preference_points a.preference_points
            && leb_ℤ b.selected_credits a.selected_credits))

unfoldable pub strictly_better : ObjectiveVector → ObjectiveVector → Bool
strictly_better a b =
    ltb a.completion_terms b.completion_terms
    || (ltb_ℤ a.peak_workload b.peak_workload
        || (ltb_ℤ b.preference_points a.preference_points
            || ltb_ℤ b.selected_credits a.selected_credits))

unfoldable pub dominates : ObjectiveVector → ObjectiveVector → Bool
unfolding better_or_equal strictly_better
dominates a b = better_or_equal a b && strictly_better a b

-- `max(loads, default=0)`
abbrev pub peak : List ℤ → ℤ
peak [] = pos 0
peak (a ∷ rest) = largest a rest

abbrev pub sum_terms : Assignment → List CourseSpec → ℕ
sum_terms a [] = 0
sum_terms a (c ∷ courses) = get_or 0 c.code a + sum_terms a courses

unfoldable pub objective_vector : PlanRequest → Assignment → ObjectiveVector
unfolding get_or lookup
objective_vector r a = record {
  completion_terms = sum_terms a r.courses;
  peak_workload = peak (map (λ t. load r a t.index) r.terms);
  preference_points = sum (map (λ c. c.preference_score) (select (is_planned a) r.courses));
  selected_credits = sum (map (λ c. c.credit_units) (select (is_planned a) r.courses));
}

abbrev pub is_empty_assignment : Assignment → Bool
is_empty_assignment [] = true
is_empty_assignment (p ∷ a) = false

-- `result.feasible and result.assignment`
abbrev pub is_alternative : PlanResult → Bool
is_alternative p =
    (p.status == "optimal" || p.status == "feasible") && not (is_empty_assignment p.assignment)

abbrev pub vector : PlanRequest → PlanResult → ObjectiveVector
vector r p = objective_vector r p.assignment

-- The loop over the feasible results; `before` holds those it has passed.
unfoldable pub frontier_from : PlanRequest → List PlanResult → List PlanResult → List PlanResult
unfolding dominates objective_vector
frontier_from r before [] = []
frontier_from r before (candidate ∷ rest) =
    let others = before ++ rest in
    let frontier = frontier_from r (before ++ candidate ∷ []) rest in
    if any (λ other. dominates (vector r other) (vector r candidate)) others
    then frontier
    else candidate ∷ frontier

unfoldable pub pareto_frontier : PlanRequest → List PlanResult → List PlanResult
unfolding frontier_from
pareto_frontier r results = frontier_from r [] (select is_alternative results)
