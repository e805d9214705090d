-- ===== src/Planning/AuditTests.antt =====
-- The degree audit at concrete inputs.
use boiler_reviews.Prelude.{◌≡◌, refl, String, Bool, true, false, List, [], ◌∷◌, map}
use boiler_reviews.Prelude.Int.{ℤ, pos}
use boiler_reviews.Prelude.Sort.{sorted_by}
use boiler_reviews.Prelude.Dict.{distinct}
use boiler_reviews.Catalog.Evaluate.{get_or}
use boiler_reviews.Planning.Audit.{RequirementGroup, eligible, audit_groups, audit_degree, Planned}
use boiler_reviews.Planning.Allocation.{exclusive, codes_of}
use boiler_reviews.Planning.Exclusive.{counted, audit_degree-exclusive, audit_degree-counted}

abbrev group : String → List String → Bool → RequirementGroup
group name codes double = record {
  id = name;
  label = name;
  course_codes = codes;
  min_courses = pos 2;
  min_credits = pos 0;
  allow_double_counting = double;
  is_unknown = false;
}

abbrev core : RequirementGroup
core = group "core" ("CS1" ∷ "CS2" ∷ "CS3" ∷ []) false

abbrev breadth : RequirementGroup
breadth = group "breadth" ("CS1" ∷ "CS2" ∷ "MA1" ∷ []) false

abbrev plan : Planned
plan = (1, "CS2" ∷ "MA1" ∷ []) ∷ []

abbrev groups : List RequirementGroup
groups = core ∷ breadth ∷ []

abbrev credits : List (String × ℤ)
credits = ("CS1", pos 3) ∷ ("CS2", pos 3) ∷ ("MA1", pos 4) ∷ []

-- CS1 and CS2 go to the first group, which leaves MA1 for the second.
allocated :
    map codes_of (audit_groups credits ("CS1" ∷ []) ("CS2" ∷ "MA1" ∷ []) [] groups)
    ≡ ("CS1" ∷ "CS2" ∷ []) ∷ ("MA1" ∷ []) ∷ []
unfolding audit_groups eligible sorted_by distinct get_or
allocated = refl

-- A course that is both completed and planned is counted twice for one group.
counted_twice :
    map codes_of (audit_groups credits ("CS1" ∷ []) ("CS1" ∷ []) [] groups)
    ≡ ("CS1" ∷ "CS1" ∷ []) ∷ [] ∷ []
unfolding audit_groups eligible sorted_by distinct get_or
counted_twice = refl

audit_degree-exclusive_example :
    exclusive groups (audit_degree groups ("CS1" ∷ []) (pos 3) plan credits).requirements ≡ true
audit_degree-exclusive_example = audit_degree-exclusive groups ("CS1" ∷ []) (pos 3) plan credits

audit_degree-counted_example :
    counted groups (audit_degree groups ("CS1" ∷ []) (pos 3) plan credits).requirements ≡ true
audit_degree-counted_example = audit_degree-counted groups ("CS1" ∷ []) (pos 3) plan credits
