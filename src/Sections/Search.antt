-- ===== src/Sections/Search.antt =====
-- What the search of `choose_sections` finds, and what it means when it finds nothing.
use mathlib.Core.Path.{subst}
use boiler_reviews.Prelude.{
  ◌≡◌, refl, ap, ◌∙◌, String, Bool, true, none, some, List, [], ◌∷◌, ◌++◌, arith, ◌⊎◌, inl, inr,
  Bool-cases,
}
use boiler_reviews.Exec.Errors.{ok, err}
use boiler_reviews.Prelude.Sort.{sorted_by, insert_by}
use boiler_reviews.Sections.Scheduler.{
  SectionOption, Selection, Candidates, Search, fits, or_next, try_options, search, before_option,
}

-- `o` is one of the options.
abbrev pub Among : SectionOption → List SectionOption → Type 0
Among o [] = ⊥
Among o (x ∷ xs) = (o ≡ x) ⊎ Among o xs

-- One option for each course in turn, each without a conflict with those before it.
unfoldable pub IsChoice : Candidates → Selection → Selection → Type 0
IsChoice [] selected [] = Unit
IsChoice [] selected (p ∷ picks) = ⊥
IsChoice (c ∷ rest) selected [] = ⊥
IsChoice (c ∷ rest) selected (p ∷ picks) =
    (p.0 ≡ c.0)
    × Among p.1 c.1
    × (fits p.1 selected ≡ true)
    × IsChoice rest (selected ++ p ∷ []) picks

-- The options are the same ones after sorting.
insert_by-Among :
    (before : SectionOption → SectionOption → Bool) (x o : SectionOption) (xs : List SectionOption)
    → (Among o (insert_by before x xs) → (o ≡ x) ⊎ Among o xs)
      × ((o ≡ x) ⊎ Among o xs → Among o (insert_by before x xs))
insert_by-Among before x o [] = (λ h. h, λ h. h)
insert_by-Among before x o (y ∷ ys) = elim (Bool-cases (before x y)) [
  | inl first ↦ rw first (λ h. h, λ h. h)
  | inr later ↦ rw later (ground (arith, insert_by-Among before x o ys))
]

sorted_by-Among :
    (before : SectionOption → SectionOption → Bool) (o : SectionOption) (xs : List SectionOption)
    → (Among o (sorted_by before xs) → Among o xs) × (Among o xs → Among o (sorted_by before xs))
unfolding sorted_by
sorted_by-Among before o [] = (λ h. h, λ h. h)
sorted_by-Among before o (x ∷ xs) =
    ground (arith, insert_by-Among before x o (sorted_by before xs), sorted_by-Among before o xs)

-- A search result is right for the candidates: what is found is a choice, and if nothing is, there is none.
abbrev pub Answers : (Selection → Type 0) → Selection → Search → Type 0
Answers P selected (ok (some found)) = (picks : Selection) × (found ≡ selected ++ picks) × P picks
Answers P selected (ok none) = (picks : Selection) → P picks → ⊥
Answers P selected (err e) = ⊥

abbrev Starts : Candidates → String → Selection → List SectionOption → Selection → Type 0
Starts rest code selected options [] = ⊥
Starts rest code selected options (p ∷ picks) =
    (p.0 ≡ code)
    × Among p.1 options
    × (fits p.1 selected ≡ true)
    × IsChoice rest (selected ++ p ∷ []) picks

append-cons : (xs ys : Selection) (x : String × SectionOption) → (xs ++ x ∷ []) ++ ys ≡ xs ++ x ∷ ys
append-cons [] ys x = refl
append-cons (y ∷ xs) ys x = ap (λ zs. y ∷ zs) (append-cons xs ys x)

-- A start with another option is one of more options.
widened :
    (rest : Candidates) (code : String) (selected : Selection) (o : SectionOption)
    (options : List SectionOption) (picks : Selection)
    → Starts rest code selected options picks
    → Starts rest code selected (o ∷ options) picks
widened rest code selected o options [] h = h
widened rest code selected o options (p ∷ picks) h = (h.0, inr h.1, h.2, h.3)

-- No start with the first option is found.
abbrev NotFirst : Candidates → String → Selection → SectionOption → Type 0
NotFirst rest code selected o =
    (picks : Selection)
    → fits o selected ≡ true
    → IsChoice rest (selected ++ (code, o) ∷ []) picks
    → ⊥

narrowed :
    (rest : Candidates) (code : String) (selected : Selection) (o : SectionOption)
    (options : List SectionOption)
    → NotFirst rest code selected o
    → ((picks : Selection) → Starts rest code selected options picks → ⊥)
    → (picks : Selection) → Starts rest code selected (o ∷ options) picks
    → ⊥
narrowed rest code selected o options first others [] h = h
narrowed rest code selected o options first others ((c, x) ∷ picks) (same, inl one, fit, choice) =
    first picks (subst (λ y. fits y selected ≡ true) one fit)
      (subst (λ q. IsChoice rest (selected ++ q ∷ []) picks) (cc) choice)
narrowed rest code selected o options first others ((c, x) ∷ picks) (same, inr other, fit, choice) =
    others ((c, x) ∷ picks) (same, other, fit, choice)

passed_over :
    (rest : Candidates) (code : String) (selected : Selection) (o : SectionOption)
    (options : List SectionOption) (next : Search)
    → NotFirst rest code selected o
    → Answers (Starts rest code selected options) selected next
    → Answers (Starts rest code selected (o ∷ options)) selected next
passed_over rest code selected o options (ok (some found)) first (picks, e, h) =
    (picks, e, widened rest code selected o options picks h)
passed_over rest code selected o options (ok none) first h =
    narrowed rest code selected o options first h
passed_over rest code selected o options (err e) first h = h

tried :
    (rest : Candidates) (code : String) (selected : Selection) (o : SectionOption)
    (options : List SectionOption) (here next : Search)
    → fits o selected ≡ true
    → Answers (IsChoice rest (selected ++ (code, o) ∷ [])) (selected ++ (code, o) ∷ []) here
    → Answers (Starts rest code selected options) selected next
    → Answers (Starts rest code selected (o ∷ options)) selected (or_next here next)
tried rest code selected o options (ok (some found)) next fit (picks, e, h) others =
    ((code, o) ∷ picks, e ∙ append-cons selected picks (code, o), (refl, inl refl, fit, h))
tried rest code selected o options (ok none) next fit h others =
    passed_over rest code selected o options next (λ picks _. h picks) others
tried rest code selected o options (err e) next fit h others = absurd h

try_options-Answers :
    (rest : Candidates) (code : String) (selected : Selection) (options : List SectionOption)
    → ((more : Selection) → Answers (IsChoice rest more) more (search [] rest more))
    → Answers
        (Starts rest code selected options)
        selected
        (try_options (search [] rest) [] code selected options)
unfolding try_options
try_options-Answers rest code selected [] deeper = none_starts
  where
    none_starts : (picks : Selection) → Starts rest code selected [] picks → ⊥
    none_starts [] h = h
    none_starts (p ∷ picks) h = h.1
try_options-Answers rest code selected (o ∷ options) deeper =
    let others = try_options-Answers rest code selected options deeper in
    elim (Bool-cases (fits o selected)) [
      | inl fit ↦ rw fit (
          tried rest code selected o options (search [] rest (selected ++ (code, o) ∷ [])) _ fit
            (deeper (selected ++ (code, o) ∷ [])) others)
      | inr not_fit ↦
          rw not_fit (passed_over rest code selected o options _ (λ picks fit. absurd (cc)) others)
    ]

Starts-IsChoice :
    (rest : Candidates) (code : String) (selected : Selection) (options : List SectionOption)
    (picks : Selection)
    → (Starts rest code selected (sorted_by before_option options) picks
        → IsChoice ((code, options) ∷ rest) selected picks)
      × (IsChoice ((code, options) ∷ rest) selected picks
          → Starts rest code selected (sorted_by before_option options) picks)
unfolding IsChoice
Starts-IsChoice rest code selected options [] = (λ h. h, λ h. h)
Starts-IsChoice rest code selected options (p ∷ picks) =
    let same = sorted_by-Among before_option p.1 options in
    (λ h. (h.0, same.0 h.1, h.2, h.3), λ h. (h.0, same.1 h.1, h.2, h.3))

sorted-Answers :
    (rest : Candidates) (code : String) (selected : Selection) (options : List SectionOption)
    (r : Search)
    → Answers (Starts rest code selected (sorted_by before_option options)) selected r
    → Answers (IsChoice ((code, options) ∷ rest) selected) selected r
sorted-Answers rest code selected options (ok (some found)) (picks, e, h) =
    (picks, e, (Starts-IsChoice rest code selected options picks).0 h)
sorted-Answers rest code selected options (ok none) h =
    λ picks choice. h picks ((Starts-IsChoice rest code selected options picks).1 choice)
sorted-Answers rest code selected options (err e) h = h

append-nil : (xs : Selection) → xs ≡ xs ++ []
append-nil [] = refl
append-nil (x ∷ xs) = ap (λ zs. x ∷ zs) (append-nil xs)

-- Without blocked times the search returns: a choice that extends what is selected, or nothing, and
-- then there is no choice.
pub search-Answers :
    (cs : Candidates) (selected : Selection)
    → Answers (IsChoice cs selected) selected (search [] cs selected)
unfolding search IsChoice
search-Answers [] selected = ([], append-nil selected, tt)
search-Answers ((code, options) ∷ rest) selected =
    sorted-Answers rest code selected options _ (
      try_options-Answers rest code selected (sorted_by before_option options)
        (search-Answers rest))
