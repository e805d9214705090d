-- ===== src/Planning/Groups.antt =====
-- The messages about the requirement groups: without any, no code counts for two groups that do not
-- share.
use boiler_reviews.Prelude.{
  ◌≡◌, refl, String, Bool, true, false, List, [], ◌∷◌, ◌==◌, nat_eq, string_eq, arith,
  if◌then◌else◌, contains, All, inl, inr, join-empty, append-empty, Bool-cases,
}
use boiler_reviews.Planning.Model.{RequirementGroup, PlanRequest, Assignment, report}
use boiler_reviews.Planning.Validator.{
  selected_codes, requirement_errors, allocate, allocate_unless,
}
use boiler_reviews.Planning.Constraints.{AreExclusive, report-false}

allocate-fresh :
    (acc codes : List String) (code : String)
    → (allocate acc codes).1 ≡ []
    → contains acc code ≡ true
    → contains codes code ≡ false
allocate-fresh acc [] code h old = refl
allocate-fresh acc (x ∷ codes) code h old =
    let (fresh, rest) =
      append-empty
        (report (contains acc x) (x ∷ " is allocated to multiple requirement groups" ∷ [])) _ h in
    let new = report-false (contains acc x) _ fresh in
    ground (
      arith,
      new,
      string_eq.beq_iff x code,
      allocate-fresh (if contains acc x then acc else x ∷ acc) codes code rest (ground arith),
    )

allocate-keeps :
    (codes acc : List String) (code : String)
    → contains acc code ≡ true
    → contains (allocate acc codes).0 code ≡ true
allocate-keeps [] acc code old = old
allocate-keeps (x ∷ codes) acc code old =
    allocate-keeps codes (if contains acc x then acc else x ∷ acc) code (ground arith)

allocate-adds :
    (codes acc : List String) (code : String)
    → contains codes code ≡ true
    → contains (allocate acc codes).0 code ≡ true
allocate-adds [] acc code new = absurd (cc)
allocate-adds (x ∷ codes) acc code new = elim (Bool-cases (x == code)) [
  | inl same ↦
      allocate-keeps codes (if contains acc x then acc else x ∷ acc) code
        (ground (arith, string_eq.beq_iff x code))
  | inr other ↦ allocate-adds codes (if contains acc x then acc else x ∷ acc) code (ground arith)
]

-- What is allocated before is in no later group that does not share.
abbrev AreFresh : PlanRequest → Assignment → List String → List RequirementGroup → Type 0
AreFresh r a allocated = All (λ h.
    h.allow_double_counting ≡ false
    → (code : String) → contains allocated code ≡ true
    → contains (selected_codes r h a) code ≡ false)

allocate_unless-fresh :
    (shared : Bool) (acc codes : List String) (code : String)
    → shared ≡ false
    → (allocate_unless shared acc codes).1 ≡ []
    → contains acc code ≡ true
    → contains codes code ≡ false
allocate_unless-fresh true acc codes code single h old = absurd (cc)
allocate_unless-fresh false acc codes code single h old = allocate-fresh acc codes code h old

allocate_unless-keeps :
    (shared : Bool) (acc codes : List String) (code : String)
    → contains acc code ≡ true
    → contains (allocate_unless shared acc codes).0 code ≡ true
allocate_unless-keeps true acc codes code old = old
allocate_unless-keeps false acc codes code old = allocate-keeps codes acc code old

allocate_unless-adds :
    (shared : Bool) (acc codes : List String) (code : String)
    → shared ≡ false
    → contains codes code ≡ true
    → contains (allocate_unless shared acc codes).0 code ≡ true
allocate_unless-adds true acc codes code single new = absurd (cc)
allocate_unless-adds false acc codes code single new = allocate-adds codes acc code new

fewer-AreFresh :
    (r : PlanRequest) (a : Assignment) (acc acc' : List String) (groups : List RequirementGroup)
    → ((code : String) → contains acc code ≡ true → contains acc' code ≡ true)
    → AreFresh r a acc' groups
    → AreFresh r a acc groups
fewer-AreFresh r a acc acc' [] sub h = tt
fewer-AreFresh r a acc acc' (g ∷ groups) sub h = (
  (λ single code old. h.0 single code (sub code old)),
  fewer-AreFresh r a acc acc' groups sub h.1,
)

requirement_errors-AreFresh :
    (r : PlanRequest) (a : Assignment) (groups : List RequirementGroup) (allocated : List String)
    → requirement_errors r a allocated groups ≡ []
    → AreFresh r a allocated groups
unfolding requirement_errors
requirement_errors-AreFresh r a [] allocated h = tt
requirement_errors-AreFresh r a (g ∷ groups) allocated h =
    let e = join-empty _ h in
    let codes = selected_codes r g a in
    (
      (λ single code old.
          allocate_unless-fresh g.allow_double_counting allocated codes code single e.1.1.0 old),
      fewer-AreFresh r a allocated (allocate_unless g.allow_double_counting allocated codes).0
          groups (allocate_unless-keeps g.allow_double_counting allocated codes)
          (requirement_errors-AreFresh r a groups
            (allocate_unless g.allow_double_counting allocated codes).0 e.1.1.1.0),
    )

apart :
    (r : PlanRequest) (a : Assignment) (g : RequirementGroup) (allocated : List String)
    (groups : List RequirementGroup)
    → AreFresh r a
        (allocate_unless g.allow_double_counting allocated (selected_codes r g a)).0
        groups
    → All
        (λ h.
          g.allow_double_counting ≡ false
          → h.allow_double_counting ≡ false
          → (code : String) → contains (selected_codes r g a) code ≡ true
          → contains (selected_codes r h a) code ≡ false)
        groups
apart r a g allocated [] f = tt
apart r a g allocated (h ∷ groups) (f, fs) = (
  (λ single single' code chosen. f single' code (
      allocate_unless-adds g.allow_double_counting allocated (selected_codes r g a) code single
        chosen)),
  apart r a g allocated groups fs,
)

pub requirement_errors-AreExclusive :
    (r : PlanRequest) (a : Assignment) (groups : List RequirementGroup) (allocated : List String)
    → requirement_errors r a allocated groups ≡ []
    → AreExclusive r a groups
unfolding requirement_errors AreExclusive
requirement_errors-AreExclusive r a [] allocated h = tt
requirement_errors-AreExclusive r a (g ∷ groups) allocated h =
    let e = join-empty _ h in
    (
      apart r a g allocated groups (requirement_errors-AreFresh r a groups _ e.1.1.1.0),
      requirement_errors-AreExclusive r a groups _ e.1.1.1.0,
    )
