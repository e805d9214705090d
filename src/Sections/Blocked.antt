-- ===== src/Sections/Blocked.antt =====
-- What a blocked time does to `choose_sections`.
use boiler_reviews.Prelude.{
  ℕ, ◌≡◌, ◌≢◌, refl, String, Bool, true, false, List, [], ◌∷◌, arith, select, any, Bool-cases, inl,
  inr, All,
}
use boiler_reviews.Prelude.Sort.{sorted_by, sorted_by-All, sorted_by-nonempty}
use boiler_reviews.Exec.Errors.{err, attribute_error}
use boiler_reviews.Sections.Scheduler.{
  Meeting, SectionOption, Candidates, is_option_of, has_none, blocked_conflict, try_options, search,
  before_option, fewer_options, by_course, ordered, choose_sections,
}

abbrev pub has_meetings : SectionOption → Bool
has_meetings o = elim o.meetings [ [] ↦ false | m ∷ ms ↦ true ]

abbrev pub no_meetings : String
no_meetings = "'Meeting' object has no attribute 'meetings'"

-- A first option with a meeting makes the search raise.
raises :
    (options : List SectionOption) (rest : Candidates) (code : String) (b : Meeting)
    (blocked : List Meeting)
    → All (λ o. has_meetings o ≡ true) options
    → options ≢ []
    → try_options (search (b ∷ blocked) rest) (b ∷ blocked) code [] options
      ≡ err (attribute_error no_meetings)
unfolding try_options blocked_conflict
raises [] rest code b blocked h some_option = absurd (some_option refl)
raises (o ∷ options) rest code b blocked (meets, h) some_option =
    let blocks : blocked_conflict o (b ∷ blocked) ≡ err (attribute_error no_meetings) =
      ground arith in
    rw blocks refl

Ready : String × List SectionOption → Type 0
Ready (code, options) = All (λ o. has_meetings o ≡ true) options × (options ≢ [])

search-raises :
    (cs : Candidates) (b : Meeting) (blocked : List Meeting)
    → All Ready cs
    → cs ≢ []
    → search (b ∷ blocked) cs [] ≡ err (attribute_error no_meetings)
unfolding search Ready
search-raises [] b blocked h some_course = absurd (some_course refl)
search-raises ((code, options) ∷ rest) b blocked (ready, h) some_course =
    raises (sorted_by before_option options) rest code b blocked
      (sorted_by-All (λ o. has_meetings o ≡ true) before_option options ready.0)
      (sorted_by-nonempty before_option options ready.1)

-- The courses that are planned are ready if none lacks an option and every option has a meeting.
select-All :
    (p : SectionOption → Bool) (options : List SectionOption)
    → All (λ o. has_meetings o ≡ true) options
    → All (λ o. has_meetings o ≡ true) (select p options)
select-All p [] h = tt
select-All p (o ∷ options) (m, h) = elim (Bool-cases (p o)) [
  | inl chosen ↦ rw chosen (m, select-All p options h)
  | inr other ↦ rw other (select-All p options h)
]

some_option :
    (code : String) (options : List SectionOption) → has_none (code, options) ≡ false → options ≢ []
some_option code [] h e = absurd (cc)
some_option code (o ∷ options) h e = cc

by_course-Ready :
    (planned : List (String × ℕ)) (options : List SectionOption)
    → All (λ o. has_meetings o ≡ true) options
    → any has_none (by_course planned options) ≡ false
    → All Ready (by_course planned options)
unfolding by_course Ready
by_course-Ready [] options h enough = tt
by_course-Ready ((code, term) ∷ planned) options h enough = (
  (
    select-All (is_option_of code term) options h,
    some_option code (select (is_option_of code term) options) (ground arith),
  ),
  by_course-Ready planned options h (ground arith),
)

by_course-nonempty :
    (planned : List (String × ℕ)) (options : List SectionOption)
    → planned ≢ []
    → by_course planned options ≢ []
unfolding by_course
by_course-nonempty [] options h = λ e. h refl
by_course-nonempty (p ∷ planned) options h = λ e. cc

-- With a blocked time `choose_sections` raises an AttributeError for any courses, if each has an option
-- and every option has a meeting: the blocked time is taken for a section.
pub choose_sections-blocked :
    (planned : List (String × ℕ)) (options : List SectionOption) (b : Meeting)
    (blocked : List Meeting)
    → planned ≢ []
    → any has_none (by_course planned options) ≡ false
    → All (λ o. has_meetings o ≡ true) options
    → choose_sections planned options (b ∷ blocked) ≡ err (attribute_error no_meetings)
unfolding choose_sections ordered
choose_sections-blocked planned options b blocked some_course enough meet =
    let ready =
      sorted_by-All Ready fewer_options (by_course planned options)
        (by_course-Ready planned options meet enough) in
    let some_left =
      sorted_by-nonempty fewer_options (by_course planned options)
        (by_course-nonempty planned options some_course) in
    rw
      (
        enough,
        search-raises (sorted_by fewer_options (by_course planned options)) b blocked ready
            some_left,
      )
      refl
