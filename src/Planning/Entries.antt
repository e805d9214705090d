-- ===== src/Planning/Entries.antt =====
-- The messages about the entries of a plan: without any, each planned course satisfies its constraints.
use mathlib.Core.Path.{subst}
use boiler_reviews.Prelude.{
  ℕ, suc, ◌≡◌, refl, sym, ap, ◌∙◌, String, true, false, Option, none, some, List, [], ◌∷◌, map,
  ◌==◌, nat_eq, string_eq, ◌&&◌, not, arith, if◌then◌else◌, contains, All, ◌⊎◌, inl, inr, join,
  join-empty, Bool-cases, concat,
}
use boiler_reviews.Prelude.Dict.{lookup}
use boiler_reviews.Catalog.Ast.{Expr}
use boiler_reviews.Planning.Model.{CourseSpec, PlanRequest, Assignment, course_at, is_term}
use boiler_reviews.Planning.Validator.{
  Check, is_ok, is_empty_list, check, entry_errors, planned_errors, pin_violated,
  prerequisite_errors, coreq_error, elsewhere,
}
use boiler_reviews.Planning.Met.{met, has_choices, check-met, check-Explains}
use boiler_reviews.Planning.Constraints.{IsScheduled, report-false}

pin_violated-eq :
    (r : PlanRequest) (code : String) (term : ℕ) (o : Option ℕ)
    → pin_violated r code term o ≡ []
    → (pin : ℕ) → o ≡ some pin
    → pin ≡ term
pin_violated-eq r code term none h pin e = cc
pin_violated-eq r code term (some p) h pin e =
    let same = report-false (not (p == term)) _ h in ground arith

map-empty : {A B : Type 0} (f : A → B) (xs : List A) → map f xs ≡ [] → is_empty_list xs ≡ true
map-empty f [] h = refl
map-empty f (x ∷ xs) h = absurd (cc)

no_reasons-ok :
    (x : Check) (code : String)
    → (is_empty_list x.1 ≡ true → x.0 ≡ true)
    → (if x.0 then [] else map (λ reason. concat (code ∷ ": " ∷ reason ∷ [])) x.1) ≡ []
    → x.0 ≡ true
no_reasons-ok (true, reasons) code why h = refl
no_reasons-ok (false, reasons) code why h =
    why (map-empty (λ reason. concat (code ∷ ": " ∷ reason ∷ [])) reasons h)

prerequisite_errors-met :
    (r : PlanRequest) (a : Assignment) (code : String) (term : ℕ) (o : Option Expr)
    → prerequisite_errors r a code term o ≡ []
    → (e : Expr) → o ≡ some e
    → has_choices e ≡ true
    → met r a false term e ≡ true
prerequisite_errors-met r a code term none h e same w = cc
prerequisite_errors-met r a code term (some x) h e same w =
    let one : x ≡ e = cc in
    let yes : is_ok (check r a false term x) ≡ true =
      no_reasons-ok (check r a false term x) code
        (check-Explains r a false term x (ap has_choices one ∙ w)) h in
    ap (met r a false term) (sym one) ∙ sym (check-met r a false term x) ∙ yes

coreq_errors-All :
    (a : Assignment) (code : String) (term : ℕ) (coreqs : List String)
    → join (map (coreq_error a code term) coreqs) ≡ []
    → All (λ q. (other : ℕ) → lookup q a ≡ some other → other ≡ term) coreqs
coreq_errors-All a code term coreqs h = every coreqs (join-empty _ h)
  where
    same :
        (q : String)
        → coreq_error a code term q ≡ []
        → (other : ℕ) → lookup q a ≡ some other
        → other ≡ term
    same q e other found =
        let here = report-false (elsewhere term (lookup q a)) _ e in ground (arith, here, found)

    every :
        (coreqs : List String)
        → All (λ xs. xs ≡ []) (map (coreq_error a code term) coreqs)
        → All (λ q. (other : ℕ) → lookup q a ≡ some other → other ≡ term) coreqs
    every [] e = tt
    every (q ∷ coreqs) (e, es) = (same q e, every coreqs es)

available_terms-cases :
    (terms : List ℕ) (n : ℕ)
    → (not (is_empty_list terms) && not (contains terms n)) ≡ false
    → (terms ≡ []) ⊎ (contains terms n ≡ true)
available_terms-cases [] n h = inl refl
available_terms-cases (t ∷ terms) n h = inr (ground arith)

planned_errors-IsScheduled :
    (r : PlanRequest) (a : Assignment) (c : CourseSpec) (code : String) (n : ℕ)
    → is_term r (suc n) ≡ true
    → planned_errors r a c code (suc n) ≡ []
    → IsScheduled r a c code n
unfolding planned_errors
planned_errors-IsScheduled r a c code n known h =
    let e = join-empty _ h in
    record {
      term_known = known;
      available = available_terms-cases c.available_terms (suc n) (report-false _ _ e.0);
      not_excluded = report-false (contains r.excluded code) _ e.1.0;
      pinned = pin_violated-eq r code (suc n) (lookup code r.pinned) e.1.1.0;
      prerequisites = prerequisite_errors-met r a code (suc n) c.prerequisites e.1.1.1.0;
      co_requisites = coreq_errors-All a code (suc n) c.co_requisites e.1.1.1.1.0;
    }

entry_errors-IsScheduled :
    (r : PlanRequest) (a : Assignment) (code : String) (n : ℕ) (o : Option CourseSpec)
    → entry_errors r a code (suc n) o ≡ []
    → (c : CourseSpec) → o ≡ some c
    → IsScheduled r a c code n
unfolding entry_errors
entry_errors-IsScheduled r a code n none h c found = cc
entry_errors-IsScheduled r a code n (some x) h c found =
    let e = join-empty _ h in
    let known = report-false (not (is_term r (suc n)) && not (suc n == 0)) _ e.0 in
    let one : x ≡ c = cc in
    subst (λ y. IsScheduled r a y code n) one
      (planned_errors-IsScheduled r a x code n (ground (arith, known)) e.1.1.0)

pub assignment_errors-IsScheduled :
    (r : PlanRequest) (a entries : Assignment) (code : String) (n : ℕ) (c : CourseSpec)
    → All (λ xs. xs ≡ []) (map (λ p. entry_errors r a p.0 p.1 (course_at p.0 r)) entries)
    → lookup code entries ≡ some (suc n)
    → course_at code r ≡ some c
    → IsScheduled r a c code n
unfolding lookup
assignment_errors-IsScheduled r a [] code n c h found here = cc
assignment_errors-IsScheduled r a ((other, term) ∷ entries) code n c (e, es) found here =
    elim (Bool-cases (other == code)) [
      | inl same ↦
          let code-eq : other ≡ code = (string_eq.beq_iff other code).0 same in
          let term-eq : term ≡ suc n = ground arith in
          entry_errors-IsScheduled r a code n (course_at code r)
            (subst (λ x. entry_errors r a x (suc n) (course_at x r) ≡ []) code-eq
              (subst (λ t. entry_errors r a other t (course_at other r) ≡ []) term-eq e))
            c here
      | inr another ↦ assignment_errors-IsScheduled r a entries code n c es (ground arith) here
    ]
