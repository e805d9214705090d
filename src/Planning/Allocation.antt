-- ===== src/Planning/Allocation.antt =====
-- Whom the audit allocates a course to.
use boiler_reviews.Prelude.{
  ℕ, zero, suc, ◌-◌, ◌≡◌, refl, sym, ◌∙◌, inl, inr, String, Bool, true, false, List, [], ◌∷◌, ◌++◌,
  arith, length, ◌==◌, string_eq, nat_eq, ◌&&◌, ◌||◌, not, select, contains, take, all, Bool-cases,
}
use mathlib.Core.Path.{subst}
use boiler_reviews.Prelude.Sort.{contains-sorted_by}
use boiler_reviews.Prelude.Dict.{distinct, add_new}
use boiler_reviews.Prelude.Int.{ℤ, pos, negsuc}
use boiler_reviews.Planning.Audit.{
  RequirementGroup, AuditRequirement, eligible, selected_completed, selected_proposed, shortfall,
  slice_to,
}

contains-append :
    (xs ys : List String) (c : String) → contains (xs ++ ys) c ≡ (contains xs c || contains ys c)
contains-append [] ys c = refl
contains-append (x ∷ xs) ys c = ground (arith, contains-append xs ys c)

contains-select :
    (p : String → Bool) (xs : List String) (c : String)
    → contains (select p xs) c ≡ true
    → (contains xs c ≡ true) × (p c ≡ true)
contains-select p [] c h = absurd (cc)
contains-select p (x ∷ xs) c h = ground (arith, contains-select p xs c, string_eq.beq_iff x c)

contains-add_new :
    (d xs : List String) (c : String) → contains (add_new d xs) c ≡ (contains d c || contains xs c)
contains-add_new d [] c = ground arith
contains-add_new d (x ∷ xs) c = elim (Bool-cases (contains d x)) [
  | inl old ↦ ground (arith, old, contains-add_new d xs c, string_eq.beq_iff x c)
  | inr new ↦ ground (arith, new, contains-add_new (d ++ x ∷ []) xs c, contains-append d (x ∷ []) c)
]

contains-take :
    (n : ℕ) (xs : List String) (c : String) → contains (take n xs) c ≡ true → contains xs c ≡ true
contains-take n [] c h = h
contains-take zero (x ∷ xs) c h = absurd (cc)
contains-take (suc n) (x ∷ xs) c h = ground (arith, contains-take n xs c)

contains-slice_to :
    (n : ℤ) (xs : List String) (c : String)
    → contains (slice_to n xs) c ≡ true
    → contains xs c ≡ true
contains-slice_to (pos n) xs c h = contains-take n xs c h
contains-slice_to (negsuc n) xs c h = contains-take (length xs - suc n) xs c h

contains-eligible :
    (codes : List String) (g : RequirementGroup) (allocated : List String) (c : String)
    → contains (eligible codes g allocated) c ≡ true
    → (contains codes c ≡ true)
      × (contains g.course_codes c ≡ true)
      × (contains allocated c ≡ false)
unfolding eligible distinct
contains-eligible codes g allocated c h =
    let kept = select (λ x. contains g.course_codes x && not (contains allocated x)) codes in
    let there : contains kept c ≡ true =
      sym (contains-add_new [] kept c) ∙ sym (contains-sorted_by c (distinct kept)) ∙ h in
    let (listed, fits) =
      contains-select (λ x. contains g.course_codes x && not (contains allocated x)) codes c
        there in
    ground (arith, listed, fits)

-- The courses of a requirement.
abbrev pub codes_of : AuditRequirement → List String
codes_of r = r.satisfied_codes ++ r.pending_codes

-- No code is in both.
abbrev pub disjoint : List String → List String → Bool
disjoint [] ys = true
disjoint (x ∷ xs) ys = not (contains ys x) && disjoint xs ys

-- What is selected for a known group without double counting is selected for no later group, and
-- there is one requirement for each group.
abbrev pub exclusive : List RequirementGroup → List AuditRequirement → Bool
exclusive [] [] = true
exclusive (g ∷ groups) (r ∷ rs) =
    (g.is_unknown
      || g.allow_double_counting
      || all (λ later. disjoint (codes_of r) (codes_of later)) rs)
    && exclusive groups rs
exclusive _ _ = false

disjoint-intro :
    (xs ys : List String)
    → ((c : String) → contains xs c ≡ true → contains ys c ≡ false)
    → disjoint xs ys ≡ true
disjoint-intro [] ys h = refl
disjoint-intro (x ∷ xs) ys h =
    let rest = disjoint-intro xs ys (λ c there. h c (ground (arith, there))) in
    let here = h x (ground (arith, (string_eq.beq_iff x x).1 refl)) in ground (arith, rest, here)

disjoint-elim :
    (xs ys : List String) (c : String)
    → disjoint xs ys ≡ true
    → contains xs c ≡ true
    → contains ys c ≡ false
disjoint-elim [] ys c h there = absurd (cc)
disjoint-elim (x ∷ xs) ys c h there = elim (Bool-cases (x == c)) [
  | inl same ↦
      subst (λ y. contains ys y ≡ false) ((string_eq.beq_iff x c).0 same) (ground (arith, h))
  | inr other ↦ disjoint-elim xs ys c (ground (arith, h)) (rw other at there)
]

pub disjoint-append_left :
    (xs ys zs : List String) → disjoint (xs ++ ys) zs ≡ true → disjoint xs zs ≡ true
disjoint-append_left [] ys zs h = refl
disjoint-append_left (x ∷ xs) ys zs h = ground (arith, h, disjoint-append_left xs ys zs)

pub disjoint-append_right :
    (xs ys zs : List String) → disjoint (xs ++ ys) zs ≡ true → disjoint ys zs ≡ true
disjoint-append_right [] ys zs h = h
disjoint-append_right (x ∷ xs) ys zs h = disjoint-append_right xs ys zs (ground (arith, h))

pub all-weaken :
    (p q : AuditRequirement → Bool) (rs : List AuditRequirement)
    → ((r : AuditRequirement) → p r ≡ true → q r ≡ true)
    → all p rs ≡ true
    → all q rs ≡ true
all-weaken p q [] imp h = refl
all-weaken p q (r ∷ rs) imp h = ground (arith, h, imp r, all-weaken p q rs imp)

pub disjoint-nil : (xs : List String) → disjoint xs [] ≡ true
disjoint-nil [] = refl
disjoint-nil (x ∷ xs) = disjoint-nil xs

-- The selection of a group takes nothing that is allocated.
pub selected-disjoint :
    (g : RequirementGroup) (completed proposed allocated : List String)
    → disjoint allocated (
        selected_completed g completed allocated
        ++ selected_proposed g completed proposed allocated)
      ≡ true
selected-disjoint g completed proposed allocated =
    let done = selected_completed g completed allocated in
    let planned = selected_proposed g completed proposed allocated in
    disjoint-intro allocated (done ++ planned) (λ c taken.
      elim (Bool-cases (contains (done ++ planned) c)) [
        | inl listed ↦ elim (Bool-cases (contains done c)) [
          | inl here ↦
              let fits =
                contains-eligible completed g allocated c
                  (contains-slice_to g.min_courses (eligible completed g allocated) c here) in
              absurd (ground (arith, fits, taken))
          | inr there ↦
              let later : contains planned c ≡ true =
                ground (arith, listed, there, contains-append done planned c) in
              let fits = contains-eligible proposed g allocated c (
                contains-take (shortfall g.min_courses (length done))
                  (eligible proposed g allocated) c later) in
              absurd (ground (arith, fits, taken))
        ]
        | inr none ↦ none
      ])
