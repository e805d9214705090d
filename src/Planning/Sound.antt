-- ===== src/Planning/Sound.antt =====
-- A plan that `validate_plan` accepts satisfies every constraint, stated one by one.
use boiler_reviews.Prelude.{
  ◌≡◌, String, true, false, List, [], ◌∷◌, map, length, nat_eq, string_eq, All, join-empty,
}
use boiler_reviews.Prelude.Int.{pos, ltb_ℤ}
use boiler_reviews.Planning.Model.{TermSpec, RequirementGroup, PlanRequest, Assignment, term_map}
use boiler_reviews.Planning.Validator.{
  validate_plan, plan_errors, assignment_errors, credits, is_in, term_error, selected_codes,
  requirement_credits, requirement_errors,
}
use boiler_reviews.Planning.Constraints.{IsPlan, is_empty_list-eq, report-false}
use boiler_reviews.Planning.Entries.{assignment_errors-IsScheduled}
use boiler_reviews.Planning.Groups.{requirement_errors-AreExclusive}

-- The credits of a term are within its bounds.
abbrev InBounds : PlanRequest → Assignment → TermSpec → Type 0
InBounds r a t =
    (ltb_ℤ (credits r (is_in t.index) a) (pos t.min_credits) ≡ false)
    × (ltb_ℤ (pos t.max_credits) (credits r (is_in t.index) a) ≡ false)

term_error-InBounds :
    (r : PlanRequest) (a : Assignment) (t : TermSpec) → term_error r a t ≡ [] → InBounds r a t
unfolding term_error
term_error-InBounds r a t h =
    let e = join-empty _ h in (report-false _ _ e.0, report-false _ _ e.1.0)

term_errors-All :
    (r : PlanRequest) (a : Assignment) (terms : List TermSpec)
    → All (λ xs. xs ≡ []) (map (term_error r a) terms)
    → All (InBounds r a) terms
term_errors-All r a [] h = tt
term_errors-All r a (t ∷ terms) (h, hs) =
    (term_error-InBounds r a t h, term_errors-All r a terms hs)

-- The group has the courses and the credits that it asks for.
abbrev IsFilled : PlanRequest → Assignment → RequirementGroup → Type 0
IsFilled r a g =
    (ltb_ℤ (pos (length (selected_codes r g a))) g.min_courses ≡ false)
    × (ltb_ℤ (requirement_credits r a g) g.min_credits ≡ false)

requirement_errors-All :
    (r : PlanRequest) (a : Assignment) (groups : List RequirementGroup) (allocated : List String)
    → requirement_errors r a allocated groups ≡ []
    → All (IsFilled r a) groups
unfolding requirement_errors
requirement_errors-All r a [] allocated h = tt
requirement_errors-All r a (g ∷ groups) allocated h =
    let e = join-empty _ h in
    ((report-false _ _ e.0, report-false _ _ e.1.0), requirement_errors-All r a groups _ e.1.1.1.0)

-- A plan that `validate_plan` calls valid is a plan: each planned course is in a known term where it is
-- offered, is not excluded, is where it is pinned, has its prerequisites met, and every co-requisite that the
-- assignment has an entry for is in the same term; each term has its credits within bounds, and each group
-- its courses and credits, of which none counts for two groups that do not share. Two things are left
-- out, as the code leaves them out: a co-requisite without an entry in the assignment, and a
-- prerequisite with an empty choice, for which `_evaluate` gives no reason.
pub validate_plan-IsPlan :
    (r : PlanRequest) (a : Assignment) → (validate_plan r a).valid ≡ true → IsPlan r a
unfolding validate_plan plan_errors assignment_errors
validate_plan-IsPlan r a h =
    let e = join-empty _ (is_empty_list-eq (plan_errors r a) h) in
    record {
      input_valid = e.0;
      courses_known = report-false _ _ e.1.0;
      scheduled = λ code n c found here.
          assignment_errors-IsScheduled r a a code n c (join-empty _ e.1.1.0) found here;
      term_credits = term_errors-All r a (term_map r) (join-empty _ e.1.1.1.0);
      exclusive = requirement_errors-AreExclusive r a r.requirements [] e.1.1.1.1.0;
      requirements = requirement_errors-All r a r.requirements [] e.1.1.1.1.0;
    }
