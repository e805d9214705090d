-- ===== src/Planning/Audit.antt =====
-- `audit_degree` of src/boiler_reviews/planning/audit.py. Sets are lists, and the dict of allocations
-- is the list of its codes, which is all that is read of it.
use boiler_reviews.Prelude.{
  ℕ, zero, suc, ◌+◌, ◌-◌, String, Bool, true, false, List, [], ◌∷◌, ◌++◌, map, length, ◌==◌,
  string_eq, nat_eq, ◌&&◌, ◌||◌, not, if◌then◌else◌, select, contains, take, concat, join, all,
}
use boiler_reviews.Prelude.Int.{ℤ, pos, negsuc, ◌+ℤ◌, ◌-ℤ◌}
use boiler_reviews.Prelude.Decimal.{str_nat}
use boiler_reviews.Prelude.Sort.{sorted_by, leb_text}
use boiler_reviews.Prelude.Dict.{distinct}
use boiler_reviews.Catalog.Evaluate.{get_or}

-- The fields of `RequirementGroup` that the audit reads.
pub record RequirementGroup : Type 0 where
  pub id : String
  pub label : String
  pub course_codes : List String
  pub min_courses : ℤ
  pub min_credits : ℤ
  pub allow_double_counting : Bool
  pub is_unknown : Bool

pub data AuditState : Type 0 where
  satisfied pending unsatisfied unknown : AuditState

pub record AuditRequirement : Type 0 where
  pub group_id : String
  pub label : String
  pub state : AuditState
  pub satisfied_codes : List String
  pub pending_codes : List String
  pub missing_courses : ℤ
  pub missing_credits : ℤ
  pub explanation : String

pub record DegreeAudit : Type 0 where
  pub requirements : List AuditRequirement
  pub earned_credits : ℤ
  pub proposed_credits : ℤ
  pub unknown_rules : List String

abbrev pub is_satisfied : AuditState → Bool
is_satisfied satisfied = true
is_satisfied _ = false

abbrev pub is_nil : List String → Bool
is_nil [] = true
is_nil (x ∷ xs) = false

-- `DegreeAudit.complete`
abbrev pub is_complete : DegreeAudit → Bool
is_complete a = all (λ r. is_satisfied r.state) a.requirements && is_nil a.unknown_rules

-- `sorted((codes & group.course_codes) - set(allocations))`
unfoldable pub eligible : List String → RequirementGroup → List String → List String
unfolding sorted_by distinct
eligible codes g allocated =
    sorted_by leb_text
      (distinct (select (λ c. contains g.course_codes c && not (contains allocated c)) codes))

abbrev pub credits_of : List (String × ℤ) → List String → ℤ
credits_of credits [] = pos 0
credits_of credits (c ∷ codes) = get_or (pos 0) c credits +ℤ credits_of credits codes

-- `max(0, n)`
abbrev pub at_least_zero : ℤ → ℤ
at_least_zero (pos n) = pos n
at_least_zero (negsuc n) = pos 0

-- `max(0, n - k)`
abbrev pub shortfall : ℤ → ℕ → ℕ
shortfall (pos n) k = n - k
shortfall (negsuc n) k = 0

-- `codes[:n]`, which leaves out the last `-n` codes if `n` is negative.
abbrev pub slice_to : ℤ → List String → List String
slice_to (pos n) codes = take n codes
slice_to (negsuc n) codes = take (length codes - suc n) codes

abbrev pub is_zero : ℤ → Bool
is_zero (pos zero) = true
is_zero _ = false

abbrev pub state_of : Bool → Bool → Bool → AuditState
state_of missing has_completed has_proposed =
    if missing
    then (if has_proposed then pending else unsatisfied)
    else if has_proposed && not has_completed
    then pending
    else satisfied

abbrev explanation_of : ℕ → ℕ → Bool → String
explanation_of done planned double = concat (
    str_nat done
    ∷ " completed and "
    ∷ str_nat planned
    ∷ " planned course(s) allocated to this requirement; double counting is "
    ∷ (if double then "allowed" else "not allowed")
    ∷ "."
    ∷ [])

abbrev pub unresolved : RequirementGroup → AuditRequirement
unresolved g = record {
  group_id = g.id;
  label = g.label;
  state = unknown;
  satisfied_codes = [];
  pending_codes = [];
  missing_courses = g.min_courses;
  missing_credits = g.min_credits;
  explanation = "Institutional rule is unresolved in the imported degree version.";
}

-- The courses that were selected for the group, as they are reported.
abbrev pub requirement :
    List (String × ℤ) → RequirementGroup → List String → List String → AuditRequirement
requirement credits g done planned =
    let missing_courses = shortfall g.min_courses (length done + length planned) in
    let missing_credits =
      at_least_zero ((g.min_credits -ℤ credits_of credits done) -ℤ credits_of credits planned) in
    record {
      group_id = g.id;
      label = g.label;
      state =
          state_of (not (missing_courses == 0) || not (is_zero missing_credits)) (not (is_nil done))
            (not (is_nil planned));
      satisfied_codes = done;
      pending_codes = planned;
      missing_courses = pos missing_courses;
      missing_credits = missing_credits;
      explanation = explanation_of (length done) (length planned) g.allow_double_counting;
    }

abbrev pub selected_completed : RequirementGroup → List String → List String → List String
selected_completed g completed allocated = slice_to g.min_courses (eligible completed g allocated)

abbrev pub selected_proposed :
    RequirementGroup → List String → List String → List String → List String
selected_proposed g completed proposed allocated =
    take (shortfall g.min_courses (length (selected_completed g completed allocated)))
      (eligible proposed g allocated)

abbrev pub allocated_after :
    RequirementGroup → List String → List String → List String → List String
allocated_after g done planned allocated =
    if g.allow_double_counting then allocated else allocated ++ (done ++ planned)

-- The loop over the groups.
unfoldable pub audit_groups :
    List (String × ℤ)
    → List String
    → List String
    → List String
    → List RequirementGroup
    → List AuditRequirement
unfolding eligible get_or
audit_groups credits completed proposed allocated [] = []
audit_groups credits completed proposed allocated (g ∷ groups) =
    let done = selected_completed g completed allocated in
    let planned = selected_proposed g completed proposed allocated in
    let next = if g.is_unknown then allocated else allocated_after g done planned allocated in
    (if g.is_unknown then unresolved g else requirement credits g done planned)
    ∷ audit_groups credits completed proposed next groups

abbrev pub unknown_labels : List RequirementGroup → List String
unknown_labels groups = map (λ g. g.label) (select (λ g. g.is_unknown) groups)

abbrev pub Planned : Type 0
Planned = List (ℕ × List String)

-- `{code for courses in proposed_by_term.values() for code in courses}`
abbrev pub proposed_codes : Planned → List String
proposed_codes planned = distinct (join (map (λ t. t.1) planned))

unfoldable pub audit_degree :
    List RequirementGroup → List String → ℤ → Planned → List (String × ℤ) → DegreeAudit
unfolding audit_groups distinct get_or
audit_degree groups completed completed_credits planned credits = record {
  requirements = audit_groups credits completed (proposed_codes planned) [] groups;
  earned_credits = completed_credits;
  proposed_credits = credits_of credits (proposed_codes planned);
  unknown_rules = unknown_labels groups;
}
