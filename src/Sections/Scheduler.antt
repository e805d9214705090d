-- ===== src/Sections/Scheduler.antt =====
-- `validate_schedule` and `choose_sections` of src/boiler_reviews/sections/scheduler.py. Minutes and
-- weekdays are natural numbers.
use boiler_reviews.Prelude.{
  ℕ, String, Bool, true, false, Option, none, some, List, [], ◌∷◌, ◌++◌, map, length, ◌==◌, nat_eq,
  string_eq, ◌&&◌, ◌||◌, not, if◌then◌else◌, any, select, concat, join, ltb, leb,
}
use boiler_reviews.Prelude.Decimal.{str_nat}
use boiler_reviews.Prelude.Dict.{lookup, distinct}
use boiler_reviews.Prelude.Sort.{sorted_by, leb_text}
use boiler_reviews.Exec.Errors.{Result, ok, err, attribute_error}
use boiler_reviews.Exec.Attempt.{◌>>=◌}

pub record Meeting : Type 0 where
  pub weekday : ℕ
  pub start_minute : Option ℕ
  pub end_minute : Option ℕ
  pub timezone : String
  pub location : Option String
  pub known : Bool

abbrev crosses : Option ℕ → Option ℕ → Option ℕ → Option ℕ → Bool
crosses (some s) (some e) (some s') (some e') = ltb s e' && ltb s' e
crosses _ _ _ _ = false

-- `Meeting.overlaps`
unfoldable pub overlaps : Meeting → Meeting → Bool
overlaps m n =
    m.known
    && n.known
    && m.weekday == n.weekday
    && crosses m.start_minute m.end_minute n.start_minute n.end_minute

pub record SectionOption : Type 0 where
  pub course_code : String
  pub term_index : ℕ
  pub section_id : String
  pub label : String
  pub meetings : List Meeting
  pub linked_group : Option String
  pub capacity : Option ℕ
  pub asynchronous : Bool

abbrev pub has_unknown_meetings : SectionOption → Bool
has_unknown_meetings o = not o.asynchronous && any (λ m. not m.known) o.meetings

-- The dict from course codes to options.
abbrev pub Selection : Type 0
Selection = List (String × SectionOption)

pub record ScheduleResult : Type 0 where
  pub status : String
  pub selected : Selection
  pub conflicts : List String
  pub unknown_meetings : List String
  pub diagnostics : List String

-- `_conflicts`
unfoldable pub conflicts : SectionOption → SectionOption → Bool
unfolding overlaps
conflicts left right = any (λ first. any (overlaps first) right.meetings) left.meetings

-- `any(_conflicts(option, blocked_item) for blocked_item in blocked)`: a blocked item is a meeting,
-- which has no `meetings` to go through; they are asked for only where the option has a meeting.
unfoldable pub blocked_conflict : SectionOption → List Meeting → Result Bool
blocked_conflict o [] = ok false
blocked_conflict o (b ∷ blocked) = elim o.meetings [
  | [] ↦ ok false
  | m ∷ ms ↦ err (attribute_error "'Meeting' object has no attribute 'meetings'")
]

abbrev report : Bool → List String → List String
report true message = concat message ∷ []
report false message = []

abbrev in_other_term : ℕ → Option ℕ → Bool
in_other_term term none = false
in_other_term term (some expected) = not (expected == term)

-- The body of the loop over `selected`.
unfoldable pub entry_conflicts :
    List (String × ℕ) → List Meeting → String × SectionOption → Result (List String)
unfolding blocked_conflict lookup
entry_conflicts expected blocked (code, o) = do
  b ← blocked_conflict o blocked
  ok (
      report (in_other_term o.term_index (lookup code expected)) (
        code
        ∷ " section "
        ∷ o.section_id
        ∷ " is in term "
        ∷ str_nat o.term_index
        ∷ ", not the planned term"
        ∷ [])
      ++ report b (code ∷ " " ∷ o.label ∷ " conflicts with an unavailable time" ∷ []))

unfoldable pub all_entry_conflicts :
    List (String × ℕ) → List Meeting → Selection → Result (List String)
unfolding entry_conflicts
all_entry_conflicts expected blocked [] = ok []
all_entry_conflicts expected blocked (p ∷ selected) = do
  here ← entry_conflicts expected blocked p
  rest ← all_entry_conflicts expected blocked selected
  ok (here ++ rest)

abbrev pub unknown_meeting : String × SectionOption → List String
unknown_meeting (code, o) =
    report (has_unknown_meetings o) (code ∷ " " ∷ o.label ∷ " has unknown meeting time" ∷ [])

abbrev pub pair_conflict : SectionOption → String × SectionOption → List String
pair_conflict left (code, right) = report (conflicts left right) (
    left.course_code ∷ " " ∷ left.label ∷ " conflicts with " ∷ right.course_code ∷ " " ∷ right.label
    ∷ [])

-- The loop over the pairs of values.
unfoldable pub pair_conflicts : Selection → List String
unfolding conflicts
pair_conflicts [] = []
pair_conflicts ((code, left) ∷ selected) =
    join (map (pair_conflict left) selected) ++ pair_conflicts selected

abbrev pub is_nil : List String → Bool
is_nil [] = true
is_nil (x ∷ xs) = false

abbrev pub schedule_of : Selection → List String → List String → ScheduleResult
schedule_of selected found unknown = record {
  status = if is_nil found then "valid" else "invalid";
  selected = selected;
  conflicts = distinct found;
  unknown_meetings = distinct unknown;
  diagnostics =
      (if is_nil unknown then "" else "Unknown meeting times were not assumed conflict-free.") ∷ [];
}

unfoldable pub validate_schedule :
    Selection → List (String × ℕ) → List Meeting → Result ScheduleResult
unfolding all_entry_conflicts pair_conflicts distinct
validate_schedule selected expected blocked = do
  found ← all_entry_conflicts expected blocked selected
  ok (schedule_of selected (found ++ pair_conflicts selected) (join (map unknown_meeting selected)))

-- The sort keys: `(has_unknown_meetings, section_id)`, and the number of options.
abbrev pub before_option : SectionOption → SectionOption → Bool
before_option a b =
    if has_unknown_meetings a
    then has_unknown_meetings b && leb_text a.section_id b.section_id
    else has_unknown_meetings b || leb_text a.section_id b.section_id

abbrev pub fewer_options : String × List SectionOption → String × List SectionOption → Bool
fewer_options a b = leb (length a.1) (length b.1)

-- A course and its options.
abbrev pub Candidates : Type 0
Candidates = List (String × List SectionOption)

abbrev pub is_option_of : String → ℕ → SectionOption → Bool
is_option_of code term o = o.course_code == code && o.term_index == term

-- `by_course`, after the loop over the options.
unfoldable pub by_course : List (String × ℕ) → List SectionOption → Candidates
by_course planned options = map (λ p. (p.0, select (is_option_of p.0 p.1) options)) planned

abbrev pub has_none : String × List SectionOption → Bool
has_none (code, []) = true
has_none (code, o ∷ os) = false

abbrev pub values : Selection → List SectionOption
values selected = map (λ p. p.1) selected

-- Whether an option fits what is selected: no conflict with it.
abbrev pub fits : SectionOption → Selection → Bool
fits o selected = not (any (conflicts o) (values selected))

abbrev pub Search : Type 0
Search = Result (Option Selection)

abbrev pub or_next : Search → Search → Search
or_next (ok (some selected)) next = ok (some selected)
or_next (ok none) next = next
or_next (err e) next = err e

abbrev pub unless_blocked : Result Bool → Search → Search → Search
unless_blocked (err e) here next = err e
unless_blocked (ok true) here next = next
unless_blocked (ok false) here next = or_next here next

-- The loop over the options of one course; `deeper` is `search(index + 1)`.
unfoldable pub try_options :
    (Selection → Search) → List Meeting → String → Selection → List SectionOption → Search
unfolding conflicts blocked_conflict
try_options deeper blocked code selected [] = ok none
try_options deeper blocked code selected (o ∷ options) =
    let next = try_options deeper blocked code selected options in
    if fits o selected
    then unless_blocked (blocked_conflict o blocked) (deeper (selected ++ (code, o) ∷ [])) next
    else next

unfoldable pub search : List Meeting → Candidates → Selection → Search
unfolding try_options sorted_by
search blocked [] selected = ok (some selected)
search blocked ((code, options) ∷ rest) selected =
    try_options (search blocked rest) blocked code selected (sorted_by before_option options)

abbrev pub infeasible : List String → ScheduleResult
infeasible conflicts = record {
  status = "infeasible";
  selected = [];
  conflicts = conflicts;
  unknown_meetings = [];
  diagnostics = [];
}

abbrev pub conclude : List (String × ℕ) → List Meeting → Option Selection → Result ScheduleResult
conclude planned blocked none =
    ok (infeasible ("No conflict-free section combination satisfies the selected courses" ∷ []))
conclude planned blocked (some selected) = do
  result ← validate_schedule selected planned blocked
  ok (record result { status = "feasible" })

abbrev pub no_option : String × List SectionOption → List String
no_option (code, options) = report (has_none (code, options)) ("No section option for " ∷ code ∷ [])

-- `ordered`, with the options of each course.
unfoldable pub ordered : List (String × ℕ) → List SectionOption → Candidates
unfolding by_course sorted_by
ordered planned options = sorted_by fewer_options (by_course planned options)

unfoldable pub choose_sections :
    List (String × ℕ) → List SectionOption → List Meeting → Result ScheduleResult
unfolding search ordered validate_schedule
choose_sections planned options blocked =
    if any has_none (by_course planned options)
    then ok (infeasible (join (map no_option (by_course planned options))))
    else (do found ← search blocked (ordered planned options) []; conclude planned blocked found)
