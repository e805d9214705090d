-- ===== src/Sections/Choice.antt =====
-- What `choose_sections` chooses.
use mathlib.Core.Path.{subst}
use boiler_reviews.Prelude.{
  ℕ, ◌≡◌, refl, sym, ap, ◌∙◌, String, true, none, some, List, [], ◌∷◌, ◌++◌, map, arith, ◌||◌, join,
  any, ◌⊎◌, inl, inr, Bool-cases,
}
use boiler_reviews.Exec.Errors.{Result, ok, err}
use boiler_reviews.Exec.Attempt.{◌>>=◌}
use boiler_reviews.Prelude.Sort.{sorted_by, insert_by}
use boiler_reviews.Sections.Scheduler.{
  SectionOption, Selection, Candidates, Search, blocked_conflict, search, fewer_options, has_none,
  by_course, ordered, all_entry_conflicts, entry_conflicts, validate_schedule, ScheduleResult,
  conclude, choose_sections, schedule_of, pair_conflicts, unknown_meeting,
}
use boiler_reviews.Sections.Search.{IsChoice, Answers, search-Answers}

-- A course without options admits no choice, wherever it stands.
no_option-no_choice :
    (cs : Candidates) (selected picks : Selection)
    → any has_none cs ≡ true
    → IsChoice cs selected picks
    → ⊥
unfolding IsChoice
no_option-no_choice [] selected picks h choice = cc
no_option-no_choice (c ∷ cs) selected [] h choice = choice
no_option-no_choice ((code, []) ∷ cs) selected (p ∷ picks) h choice = choice.1
no_option-no_choice ((code, o ∷ os) ∷ cs) selected (p ∷ picks) h choice =
    no_option-no_choice cs (selected ++ p ∷ []) picks h choice.3

insert_by-has_none :
    (c : String × List SectionOption) (cs : Candidates)
    → any has_none (insert_by fewer_options c cs) ≡ (has_none c || any has_none cs)
insert_by-has_none c [] = refl
insert_by-has_none c (d ∷ cs) = elim (Bool-cases (fewer_options c d)) [
  | inl first ↦ rw first refl
  | inr later ↦ rw later (ground (arith, insert_by-has_none c cs))
]

sorted_by-has_none : (cs : Candidates) → any has_none (sorted_by fewer_options cs) ≡ any has_none cs
unfolding sorted_by
sorted_by-has_none [] = refl
sorted_by-has_none (c ∷ cs) =
    insert_by-has_none c (sorted_by fewer_options cs)
    ∙ ap (λ b. has_none c || b) (sorted_by-has_none cs)

abbrev IsOk : {A : Type 0} → Result A → Type 0
IsOk (ok a) = Unit
IsOk (err e) = ⊥

bind-IsOk :
    {A B : Type 0} (x : Result A) (f : A → Result B)
    → IsOk x
    → ((a : A) → IsOk (f a))
    → IsOk (x >>= f)
bind-IsOk (ok a) f h k = k a
bind-IsOk (err e) f h k = h

all_entry_conflicts-IsOk :
    (planned : List (String × ℕ)) (selected : Selection)
    → IsOk (all_entry_conflicts planned [] selected)
unfolding all_entry_conflicts entry_conflicts blocked_conflict
all_entry_conflicts-IsOk planned [] = tt
all_entry_conflicts-IsOk planned (p ∷ selected) =
    bind-IsOk (all_entry_conflicts planned [] selected) _
      (all_entry_conflicts-IsOk planned selected) (λ rest. tt)

-- What `choose_sections` promises: a conflict-free choice, or that there is none.
abbrev pub Chooses : Candidates → Result ScheduleResult → Type 0
Chooses cs r =
    (res : ScheduleResult) × (r ≡ ok res)
    × (((res.status ≡ "feasible") × IsChoice cs [] res.selected)
        ⊎ ((res.status ≡ "infeasible") × ((picks : Selection) → IsChoice cs [] picks → ⊥)))

feasible-Chooses :
    (cs : Candidates) (found : Selection) (entries : Result (List String))
    → IsOk entries
    → IsChoice cs [] found
    → Chooses cs (
        (entries >>= λ e.
        ok (schedule_of found (e ++ pair_conflicts found) (join (map unknown_meeting found))))
        >>= λ result. ok (record result { status = "feasible" }))
feasible-Chooses cs found (ok e) returned h = (_, refl, inl (refl, h))
feasible-Chooses cs found (err x) returned h = absurd returned

conclude-Chooses :
    (planned : List (String × ℕ)) (cs : Candidates) (r : Search)
    → Answers (IsChoice cs []) [] r
    → Chooses cs (r >>= conclude planned [])
unfolding validate_schedule
conclude-Chooses planned cs (ok (some found)) (picks, e, h) =
    feasible-Chooses cs found (all_entry_conflicts planned [] found)
      (all_entry_conflicts-IsOk planned found) (subst (IsChoice cs []) (sym e) h)
conclude-Chooses planned cs (ok none) h = (_, refl, inr (refl, h))
conclude-Chooses planned cs (err e) h = absurd h

-- Without blocked times `choose_sections` returns. If it says feasible, it has one of the options of
-- each course in the planned term, none of which conflicts with another; if it says infeasible, there
-- is no such choice.
pub choose_sections_lem :
    (planned : List (String × ℕ)) (options : List SectionOption)
    → Chooses (ordered planned options) (choose_sections planned options [])
unfolding choose_sections
choose_sections_lem planned options = elim (Bool-cases (any has_none (by_course planned options))) [
  | inl missing ↦ rw missing (
    _,
    refl,
    inr (
      refl,
      λ picks.
          no_option-no_choice (ordered planned options) [] picks
            (unfold ordered in sorted_by-has_none (by_course planned options) ∙ missing),
    ),
  )
  | inr enough ↦ rw enough (
      conclude-Chooses planned (ordered planned options) (search [] (ordered planned options) [])
        (search-Answers (ordered planned options) []))
]
