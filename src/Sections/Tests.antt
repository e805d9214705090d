-- ===== src/Sections/Tests.antt =====
-- Two courses with sections on one morning.
use boiler_reviews.Prelude.{
  ℕ, ◌≡◌, refl, String, true, false, some, none, List, [], ◌∷◌, all, select, length, ◌==◌, nat_eq,
}
use boiler_reviews.Exec.Errors.{err, attribute_error}
use boiler_reviews.Sections.Scheduler.{Meeting, SectionOption, choose_sections, ordered, by_course}
use boiler_reviews.Sections.Choice.{Chooses, choose_sections_lem}
use boiler_reviews.Catalog.Evaluate.{get_or}
use boiler_reviews.Prelude.Dict.{lookup}
use boiler_reviews.Sections.Linked.{
  LinkedSectionGroup, validate_linked_sections, linked_to, validate_linked_sections-valid,
}
use boiler_reviews.Sections.Blocked.{no_meetings, choose_sections-blocked}

abbrev morning : ℕ → ℕ → Meeting
morning start end = record {
  weekday = 0;
  start_minute = some start;
  end_minute = some end;
  timezone = "America/Indiana/Indianapolis";
  location = none;
  known = true;
}

abbrev section : String → String → ℕ → ℕ → SectionOption
section code id start end = record {
  course_code = code;
  term_index = 1;
  section_id = id;
  label = id;
  meetings = morning start end ∷ [];
  linked_group = none;
  capacity = none;
  asynchronous = false;
}

abbrev planned : List (String × ℕ)
planned = ("AA101", 1) ∷ ("BB101", 1) ∷ []

abbrev sections : List SectionOption
sections =
    section "AA101" "a1" 540 590 ∷ section "BB101" "b1" 550 600 ∷ section "BB101" "b2" 600 650 ∷ []

choose_sections_lem_example :
    Chooses (ordered planned sections) (choose_sections planned sections [])
choose_sections_lem_example = choose_sections_lem planned sections

choose_sections-blocked_example :
    choose_sections planned sections (morning 0 60 ∷ []) ≡ err (attribute_error no_meetings)
unfolding by_course
choose_sections-blocked_example =
    choose_sections-blocked planned sections (morning 0 60) [] (λ e. cc) refl
      (refl, (refl, (refl, tt)))

-- A lecture and its laboratory, which is missing.
abbrev lecture : SectionOption
lecture = record (section "AA101" "a1" 540 590) { linked_group = some "L" }

abbrev lecture_group : LinkedSectionGroup
lecture_group = record {
  group_id = "L";
  course_code = "AA101";
  section_ids = [];
  required_kinds = "lecture" ∷ "laboratory" ∷ [];
}

laboratory_missing :
    (validate_linked_sections (lecture ∷ []) (lecture_group ∷ [])).explanations
    ≡ "AA101 needs linked components lecture, laboratory" ∷ []
unfolding validate_linked_sections get_or lookup
laboratory_missing = refl

validate_linked_sections-valid_example :
    (validate_linked_sections (lecture ∷ lecture ∷ []) (lecture_group ∷ [])).valid
    ≡ all
        (λ group.
          length (select (linked_to group.group_id) (lecture ∷ lecture ∷ []))
          == length group.required_kinds)
        (lecture_group ∷ [])
validate_linked_sections-valid_example =
    validate_linked_sections-valid (lecture ∷ lecture ∷ []) (lecture_group ∷ [])
