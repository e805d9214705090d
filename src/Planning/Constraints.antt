-- ===== src/Planning/Constraints.antt =====
-- The constraints on a plan, one by one, and what a list without messages says.
use boiler_reviews.Prelude.{
  ℕ, suc, ◌≡◌, refl, String, Bool, true, false, some, List, [], ◌∷◌, length, nat_eq, string_eq, not,
  contains, any, All, ◌⊎◌,
}
use boiler_reviews.Prelude.Int.{pos, ltb_ℤ}
use boiler_reviews.Prelude.Dict.{lookup}
use boiler_reviews.Catalog.Ast.{Expr}
use boiler_reviews.Planning.Model.{
  CourseSpec, RequirementGroup, PlanRequest, Assignment, term_map, course_at, is_course, is_term,
  report, validate_input,
}
use boiler_reviews.Planning.Validator.{
  is_empty_list, credits, is_in, selected_codes, requirement_credits,
}
use boiler_reviews.Planning.Met.{met, has_choices}

-- A course in a term, number `n` after the first, satisfies its own constraints.
pub record IsScheduled (r : PlanRequest) (a : Assignment) (c : CourseSpec) (code : String) (n : ℕ)
    : Type 0 where
  pub term_known : is_term r (suc n) ≡ true
  pub available : (c.available_terms ≡ []) ⊎ (contains c.available_terms (suc n) ≡ true)
  pub not_excluded : contains r.excluded code ≡ false
  pub pinned : (pin : ℕ) → lookup code r.pinned ≡ some pin → pin ≡ suc n
  pub prerequisites :
      (e : Expr) → c.prerequisites ≡ some e → has_choices e ≡ true → met r a false (suc n) e ≡ true
  pub co_requisites :
      All (λ q. (other : ℕ) → lookup q a ≡ some other → other ≡ suc n) c.co_requisites

-- No code is counted for two of the groups that do not share.
unfoldable pub AreExclusive : PlanRequest → Assignment → List RequirementGroup → Type 0
AreExclusive r a [] = Unit
AreExclusive r a (g ∷ groups) =
    All
      (λ h.
        g.allow_double_counting ≡ false
        → h.allow_double_counting ≡ false
        → (code : String) → contains (selected_codes r g a) code ≡ true
        → contains (selected_codes r h a) code ≡ false)
      groups
    × AreExclusive r a groups

pub record IsPlan (r : PlanRequest) (a : Assignment) : Type 0 where
  pub input_valid : validate_input r ≡ []
  pub courses_known : any (λ p. not (is_course r p.0)) a ≡ false
  pub scheduled :
      (code : String) (n : ℕ) (c : CourseSpec)
      → lookup code a ≡ some (suc n)
      → course_at code r ≡ some c
      → IsScheduled r a c code n
  pub term_credits :
      All
        (λ t.
          (ltb_ℤ (credits r (is_in t.index) a) (pos t.min_credits) ≡ false)
          × (ltb_ℤ (pos t.max_credits) (credits r (is_in t.index) a) ≡ false))
        (term_map r)
  pub requirements :
      All
        (λ g.
          (ltb_ℤ (pos (length (selected_codes r g a))) g.min_courses ≡ false)
          × (ltb_ℤ (requirement_credits r a g) g.min_credits ≡ false))
        r.requirements
  pub exclusive : AreExclusive r a r.requirements

pub is_empty_list-eq : {A : Type 0} (xs : List A) → is_empty_list xs ≡ true → xs ≡ []
is_empty_list-eq [] h = refl
is_empty_list-eq (x ∷ xs) h = absurd (cc)

pub report-false : (b : Bool) (m : List String) → report b m ≡ [] → b ≡ false
report-false true m h = absurd (cc)
report-false false m h = refl
