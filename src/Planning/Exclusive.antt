-- ===== src/Planning/Exclusive.antt =====
-- The groups of src/boiler_reviews/planning/audit.py, one after the other.
use boiler_reviews.Prelude.{
  ℕ, ◌+◌, ◌-◌, ◌≤◌, ◌≡◌, refl, inl, inr, String, Bool, true, false, List, [], ◌∷◌, ◌++◌, arith,
  length, length-append, zero, suc, nat_eq, ◌==◌, ◌&&◌, take, all, Bool-cases,
}
use boiler_reviews.Prelude.Int.{ℤ, pos, negsuc}
use boiler_reviews.Planning.Audit.{
  RequirementGroup, AuditRequirement, unresolved, selected_completed, selected_proposed, eligible,
  shortfall, slice_to, allocated_after, audit_groups, audit_degree, Planned, proposed_codes,
}
use boiler_reviews.Planning.Allocation.{
  codes_of, disjoint, exclusive, disjoint-append_left, disjoint-append_right, all-weaken,
  selected-disjoint, disjoint-nil,
}

module _ (credits : List (String × ℤ)) (completed proposed : List String) where
  -- No requirement takes what is allocated already.
  audit_groups-disjoint :
      (groups : List RequirementGroup) (allocated : List String)
      → all
          (λ r. disjoint allocated (codes_of r))
          (audit_groups credits completed proposed allocated groups)
        ≡ true
  unfolding audit_groups
  audit_groups-disjoint [] allocated = refl
  audit_groups-disjoint (g ∷ groups) allocated =
      let done = selected_completed g completed allocated in
      let planned = selected_proposed g completed proposed allocated in
      let picked = selected-disjoint g completed proposed allocated in
      elim (Bool-cases g.is_unknown) [
        | inl unresolved ↦
            rw unresolved
              (ground (arith, disjoint-nil allocated, audit_groups-disjoint groups allocated))
        | inr known ↦ elim (Bool-cases g.allow_double_counting) [
          | inl double ↦
              rw known (rw double (ground (arith, picked, audit_groups-disjoint groups allocated)))
          | inr single ↦
              let next = allocated ++ (done ++ planned) in
              let rest =
                all-weaken (λ r. disjoint next (codes_of r)) (λ r. disjoint allocated (codes_of r))
                  (audit_groups credits completed proposed next groups)
                  (λ r h. disjoint-append_left allocated (done ++ planned) (codes_of r) h)
                  (audit_groups-disjoint groups next) in
              rw known (rw single (ground (arith, picked, rest)))
        ]
      ]

  pub audit_groups-exclusive :
      (groups : List RequirementGroup) (allocated : List String)
      → exclusive groups (audit_groups credits completed proposed allocated groups) ≡ true
  unfolding audit_groups
  audit_groups-exclusive [] allocated = refl
  audit_groups-exclusive (g ∷ groups) allocated =
      let done = selected_completed g completed allocated in
      let planned = selected_proposed g completed proposed allocated in
      elim (Bool-cases g.is_unknown) [
        | inl unresolved ↦ rw unresolved (audit_groups-exclusive groups allocated)
        | inr known ↦ elim (Bool-cases g.allow_double_counting) [
          | inl double ↦ rw known (rw double (audit_groups-exclusive groups allocated))
          | inr single ↦
              let next = allocated ++ (done ++ planned) in
              let rest =
                all-weaken (λ r. disjoint next (codes_of r))
                  (λ r. disjoint (done ++ planned) (codes_of r))
                  (audit_groups credits completed proposed next groups)
                  (λ r h. disjoint-append_right allocated (done ++ planned) (codes_of r) h)
                  (audit_groups-disjoint groups next) in
              rw known (rw single (ground (arith, rest, audit_groups-exclusive groups next)))
        ]
      ]

-- A course that is selected for a known group without double counting is selected for no later group,
-- and the audit has one requirement for each group.
pub audit_degree-exclusive :
    (groups : List RequirementGroup) (completed : List String) (completed_credits : ℤ)
    (planned : Planned) (credits : List (String × ℤ))
    → exclusive groups
        (audit_degree groups completed completed_credits planned credits).requirements
      ≡ true
unfolding audit_degree
audit_degree-exclusive groups completed completed_credits planned credits =
    audit_groups-exclusive credits completed (proposed_codes planned) groups []

-- What is reported of a group that asks for so many courses: how many were selected, how many of them
-- are planned ones, and how many are missing.
abbrev pub adds_up : ℤ → ℕ → ℕ → ℤ → Bool
adds_up (pos n) selected planned (pos missing) = selected + missing == n
adds_up (negsuc n) selected planned (pos missing) = planned == 0 && missing == 0
adds_up n selected planned (negsuc missing) = false

-- An unknown group is reported without courses.
abbrev pub is_counted : Bool → ℤ → AuditRequirement → Bool
is_counted true n r = length (codes_of r) == 0
is_counted false n r = adds_up n (length (codes_of r)) (length r.pending_codes) r.missing_courses

abbrev pub counted : List RequirementGroup → List AuditRequirement → Bool
counted [] [] = true
counted (g ∷ groups) (r ∷ rs) = is_counted g.is_unknown g.min_courses r && counted groups rs
counted _ _ = false

length-take : (n : ℕ) (xs : List String) → length (take n xs) ≤ n
length-take n [] = omega arith
length-take zero (x ∷ xs) = omega arith
length-take (suc n) (x ∷ xs) = omega (arith, length-take n xs)

adds_up_lem :
    (n : ℤ) (codes eligible_planned : List String)
    → (let done = slice_to n codes in
        let planned = take (shortfall n (length done)) eligible_planned in
        adds_up n
          (length (done ++ planned))
          (length planned)
          (pos (shortfall n (length done + length planned))))
      ≡ true
adds_up_lem (pos n) codes eligible_planned =
    let done = take n codes in
    let planned = take (n - length done) eligible_planned in
    (nat_eq.beq_iff _ _).1 (
      omega (
        arith,
        length-append done planned,
        length-take n codes,
        length-take (n - length done) eligible_planned,
      ))
adds_up_lem (negsuc n) codes eligible_planned = ground (arith, length-take 0 eligible_planned)

selected_counted :
    (completed proposed allocated : List String) (g : RequirementGroup)
    → (let done = selected_completed g completed allocated in
        let planned = selected_proposed g completed proposed allocated in
        adds_up g.min_courses
          (length (done ++ planned))
          (length planned)
          (pos (shortfall g.min_courses (length done + length planned))))
      ≡ true
selected_counted completed proposed allocated g =
    adds_up_lem g.min_courses (eligible completed g allocated) (eligible proposed g allocated)

audit_groups-counted :
    (credits : List (String × ℤ)) (completed proposed : List String)
    (groups : List RequirementGroup) (allocated : List String)
    → counted groups (audit_groups credits completed proposed allocated groups) ≡ true
unfolding audit_groups
audit_groups-counted credits completed proposed [] allocated = refl
audit_groups-counted credits completed proposed (g ∷ groups) allocated =
    let done = selected_completed g completed allocated in
    let planned = selected_proposed g completed proposed allocated in
    elim (Bool-cases g.is_unknown) [
      | inl unresolved ↦
          rw unresolved
            (ground (arith, audit_groups-counted credits completed proposed groups allocated))
      | inr known ↦ rw known (
          ground (
            arith,
            selected_counted completed proposed allocated g,
            audit_groups-counted credits completed proposed groups
                (allocated_after g done planned allocated),
          ))
    ]

-- If a known group asks for zero or more courses, the selected and the missing ones add up to what it
-- asks for; if it asks for a negative number, no planned course is selected and none is missing. An
-- unknown group is reported without courses.
pub audit_degree-counted :
    (groups : List RequirementGroup) (completed : List String) (completed_credits : ℤ)
    (planned : Planned) (credits : List (String × ℤ))
    → counted groups (audit_degree groups completed completed_credits planned credits).requirements
      ≡ true
unfolding audit_degree
audit_degree-counted groups completed completed_credits planned credits =
    audit_groups-counted credits completed (proposed_codes planned) groups []
