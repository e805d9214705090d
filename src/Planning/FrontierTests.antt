-- ===== src/Planning/FrontierTests.antt =====
-- The Pareto frontier of plans at a concrete input.
use boiler_reviews.Prelude.{
  ◌≡◌, refl, ℕ, String, true, false, none, List, [], ◌∷◌, All, any, select, map,
}
use boiler_reviews.Prelude.Int.{pos, ◌+ℤ◌}
use boiler_reviews.Prelude.Dict.{lookup}
use boiler_reviews.Catalog.Evaluate.{get_or}
use boiler_reviews.Planning.Model.{CourseSpec, TermSpec, PlanRequest}
use boiler_reviews.Planning.Alternatives.{
  PlanResult, better_or_equal, strictly_better, dominates, objective_vector, is_alternative, vector,
  frontier_from, pareto_frontier,
}
use boiler_reviews.Planning.Frontier.{is_as_good, pareto_frontier_lem}

abbrev course : String → CourseSpec
course code = record {
  code = code;
  credit_units = pos 3000;
  available_terms = [];
  prerequisites = none;
  workload_hours = pos 10;
  preference_score = pos 1;
  co_requisites = [];
  requirement_groups = [];
}

abbrev term : ℕ → TermSpec
term n = record { id = "term"; index = n; min_credits = 0; max_credits = 18 }

abbrev request : PlanRequest
request = record {
  courses = course "CS1" ∷ course "CS2" ∷ [];
  terms = term 1 ∷ term 2 ∷ [];
  requirements = [];
  completed = [];
  completed_credits = pos 0;
  grades = [];
  permissions = [];
  placements = [];
  pinned = [];
  excluded = [];
  objective = "earliest_completion";
}

abbrev result : ℕ → ℕ → PlanResult
result first second = record {
  status = "feasible";
  assignment = ("CS1", first) ∷ ("CS2", second) ∷ [];
  objective_value = none;
}

-- Both courses in term 2 is later than both in term 1 and has the same load; one in each term has less.
abbrev results : List PlanResult
results = result 2 2 ∷ result 1 1 ∷ result 1 2 ∷ []

frontier_found :
    map (λ p. p.assignment) (pareto_frontier request results)
    ≡ map (λ p. p.assignment) (result 1 1 ∷ result 1 2 ∷ [])
unfolding pareto_frontier frontier_from dominates better_or_equal strictly_better objective_vector
    get_or lookup ◌+ℤ◌
frontier_found = refl

pareto_frontier_lem_example :
    All
      (λ f.
        any (λ x. dominates (vector request x) (vector request f)) (select is_alternative results)
        ≡ false)
      (pareto_frontier request results)
    × All
        (λ x. any (λ f. is_as_good request f x) (pareto_frontier request results) ≡ true)
        (select is_alternative results)
pareto_frontier_lem_example = pareto_frontier_lem request results
