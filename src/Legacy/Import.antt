-- ===== src/Legacy/Import.antt =====
-- `import_legacy` of src/boiler_reviews/db/legacy.py. The clock and the ids that `new_id` draws are
-- parameters; a query before each insert has found no row with its unique key, so an insert can only
-- meet the primary key.
use boiler_reviews.Prelude.{
  ℕ, suc, String, Bool, true, false, Option, none, some, List, [], ◌∷◌, ◌++◌, ◌==◌, nat_eq,
  string_eq, option_eq, ◌&&◌, ◌||◌, not, if◌then◌else◌, leb, ltb, concat, first,
}
use boiler_reviews.Prelude.Int.{ℤ, pos, negsuc, pos_part}
use boiler_reviews.Prelude.Decimal.{str_nat}
use boiler_reviews.Prelude.Sort.{sorted_by}
use boiler_reviews.Prelude.Table.{find, is_some}
use boiler_reviews.Prelude.Dict.{lookup}
use boiler_reviews.Exec.{
  Exec, Result, ok, err, pure, raise, or_raise, raise_if, ◌>>=◌, ◌>>◌, value_error, key_error,
  integrity_error,
}
use boiler_reviews.Identity.Accounts.{Account, account_id}
use boiler_reviews.Reviews.Model.{Review, ReviewRevision, Store, published}
use boiler_reviews.Reviews.Service.{save_review}
use boiler_reviews.Reviews.Operations.{insert_review, add_revision}
use boiler_reviews.Legacy.Model.{
  Legacy, LegacyReview, LegacyCourse, LegacySemester, Institution, Course, Term, Database,
  institution_id, course_id, term_id,
}
use boiler_reviews.Legacy.Inspect.{LegacyReport, inspect_legacy}

-- `session.scalar(select(...))`, and an insert with a flush if it found nothing.
unfoldable pub found_or :
    {A : Type 0} → (A → ℕ) → A → List A → Database → Option A → Exec Database ℕ
unfolding find
found_or id row rows written (some x) d = (ok (id x), d)
found_or id row rows written none d =
    if is_some (find id (id row) rows)
    then (err (integrity_error "id"), d)
    else (ok (id row), written)

-- Code on the tables of reviews.
abbrev pub on_store : {A : Type 0} → Exec Store A → Exec Database A
on_store m d = let (r, s) = m d.store in (r, record d { store = s })

abbrev pub is_numbered : {A : Type 0} → (A → ℕ) → A → A → Bool
is_numbered id x y = leb (id x) (id y)

-- `f"{year:04d}"`
abbrev four_digits : ℕ → String
four_digits n = concat (
    (if ltb n 10 then "000" else if ltb n 100 then "00" else if ltb n 1000 then "0" else "")
    ∷ str_nat n
    ∷ [])

abbrev pub request_key : LegacyReview → String
request_key row = concat ("legacy:" ∷ str_nat row.id ∷ [])

abbrev pub has_request : String → Review → Bool
has_request key r = r.client_request_id == some key

abbrev pub legacy_institution : ℕ → Institution
legacy_institution id = record {
  id = id;
  name = "Legacy institution";
  code = "LEGACY";
  timezone = "America/Indiana/Indianapolis";
}

abbrev pub unknown_author : ℕ → Account
unknown_author id = record {
  id = id;
  email = "unknown@legacy.invalid";
  password_hash = "!legacy-authorship-unknown!";
  display_name = "Unknown legacy author";
  synthetic = true;
  is_active = false;
  roles_json = [];
}

abbrev pub legacy_course : ℕ → ℕ → LegacyCourse → Course
legacy_course id institution row = record {
  id = id;
  institution_id = institution;
  stable_code = row.course_code;
  canonical_title = row.course_name;
}

abbrev pub legacy_term : ℕ → ℕ → LegacySemester → Term
legacy_term id institution row = record {
  id = id;
  institution_id = institution;
  name = row.term;
  year = row.year;
  starts_on = concat (four_digits row.year ∷ "-01-01" ∷ []);
  ends_on = concat (four_digits row.year ∷ "-12-31" ∷ []);
}

abbrev pub is_course : ℕ → LegacyCourse → Course → Bool
is_course institution row c = c.institution_id == institution && c.stable_code == row.course_code

abbrev pub is_term : ℕ → LegacySemester → Term → Bool
is_term institution row t =
    t.institution_id == institution && (t.name == row.term && t.year == row.year)

abbrev pub legacy_review : ℕ → ℕ → LegacyReview → ℕ → ℕ → ℕ → Review
legacy_review id now row author course term = record {
  id = id;
  account_id = author;
  course_id = course;
  term_id = term;
  status = published;
  current_revision = 1;
  published_revision = none;
  client_request_id = some (request_key row);
  created_at = now;
}

-- `bool(n)`
abbrev not_zero : ℤ → Bool
not_zero (pos n) = not (n == 0)
not_zero (negsuc n) = true

abbrev pub legacy_revision : ℕ → LegacyReview → ReviewRevision
legacy_revision review row = record {
  review_id = review;
  revision = 1;
  professor = row.professor;
  difficulty = pos_part row.difficulty_rating;
  workload_hours = pos_part row.workload_hours;
  overall = pos_part row.overall_rating;
  would_recommend = not_zero row.would_recommend;
  comment = row.comment;
  submitted_at = none;
}

-- `ids[key]`
abbrev pub entry_of : ℕ → List (ℕ × ℕ) → Exec Database ℕ
entry_of key ids = or_raise (lookup key ids) (key_error (str_nat key))

abbrev pub review_unless : Option Review → Exec Database (Unit {0}) → Exec Database (Unit {0})
review_unless (some r) add = pure tt
review_unless none add = add

abbrev pub has_failed : LegacyReport → Bool
has_failed report = not (report.invalid_ratings == 0) || not (report.missing_foreign_keys == 0)

module _ (new_id : ℕ → ℕ) (now : ℕ) where
  unfoldable pub institution_for : Exec Database ℕ
  unfolding found_or
  institution_for d =
      let row = legacy_institution (new_id d.drawn) in
      found_or institution_id row d.institutions
        (record d { institutions = d.institutions ++ row ∷ []; drawn = suc d.drawn })
        (first (λ i. i.code == "LEGACY") d.institutions) d

  unfoldable pub author_for : Exec Database ℕ
  unfolding found_or
  author_for d =
      let row = unknown_author (new_id d.drawn) in
      found_or account_id row d.accounts
        (record d { accounts = d.accounts ++ row ∷ []; drawn = suc d.drawn })
        (first (λ a. a.email == "unknown@legacy.invalid") d.accounts) d

  unfoldable pub course_for : ℕ → LegacyCourse → Exec Database ℕ
  unfolding found_or
  course_for institution legacy d =
      let row = legacy_course (new_id d.drawn) institution legacy in
      found_or course_id row d.courses
        (record d { courses = d.courses ++ row ∷ []; drawn = suc d.drawn })
        (first (is_course institution legacy) d.courses) d

  unfoldable pub term_for : ℕ → LegacySemester → Exec Database ℕ
  unfolding found_or
  term_for institution legacy d =
      let row = legacy_term (new_id d.drawn) institution legacy in
      found_or term_id row d.terms (record d { terms = d.terms ++ row ∷ []; drawn = suc d.drawn })
        (first (is_term institution legacy) d.terms) d

  -- The loop over the courses fills `course_ids`, whose last entry for an id counts.
  unfoldable pub import_courses :
      ℕ → List LegacyCourse → List (ℕ × ℕ) → Exec Database (List (ℕ × ℕ))
  unfolding course_for
  import_courses institution [] ids = pure ids
  import_courses institution (row ∷ rows) ids =
      course_for institution row >>= λ id. import_courses institution rows ((row.id, id) ∷ ids)

  unfoldable pub import_terms :
      ℕ → List LegacySemester → List (ℕ × ℕ) → Exec Database (List (ℕ × ℕ))
  unfolding term_for
  import_terms institution [] ids = pure ids
  import_terms institution (row ∷ rows) ids =
      term_for institution row >>= λ id. import_terms institution rows ((row.id, id) ∷ ids)

  abbrev pub draw_id : Exec Database ℕ
  draw_id d = (ok (new_id d.drawn), record d { drawn = suc d.drawn })

  unfoldable pub write_review : LegacyReview → ℕ → ℕ → ℕ → ℕ → Exec Store (Unit {0})
  unfolding insert_review add_revision
  write_review row author course term id = do
    let review = legacy_review id now row author course term
    insert_review review
    add_revision (legacy_revision id row)
    save_review (record review { published_revision = some 1 })

  unfoldable pub add_review :
      ℕ → List (ℕ × ℕ) → List (ℕ × ℕ) → LegacyReview → Exec Database (Unit {0})
  unfolding write_review lookup
  add_review author course_ids term_ids row = do
    course ← entry_of row.course_id course_ids
    term ← entry_of row.semester_id term_ids
    id ← draw_id
    on_store (write_review row author course term id)

  unfoldable pub review_for :
      ℕ → List (ℕ × ℕ) → List (ℕ × ℕ) → LegacyReview → Exec Database (Unit {0})
  unfolding add_review
  review_for author course_ids term_ids row d =
      review_unless (first (has_request (request_key row)) d.store.reviews)
        (add_review author course_ids term_ids row) d

  unfoldable pub import_reviews :
      ℕ → List (ℕ × ℕ) → List (ℕ × ℕ) → List LegacyReview → Exec Database (Unit {0})
  unfolding review_for
  import_reviews author course_ids term_ids [] = pure tt
  import_reviews author course_ids term_ids (row ∷ rows) =
      review_for author course_ids term_ids row >> import_reviews author course_ids term_ids rows

  unfoldable pub import_rows : Legacy → Exec Database (Unit {0})
  unfolding institution_for author_for import_courses import_terms import_reviews sorted_by
  import_rows legacy = do
    institution ← institution_for
    author ← author_for
    course_ids ← import_courses institution (sorted_by (is_numbered (λ c. c.id)) legacy.courses) []
    term_ids ← import_terms institution (sorted_by (is_numbered (λ s. s.id)) legacy.semesters) []
    import_reviews author course_ids term_ids (sorted_by (is_numbered (λ r. r.id)) legacy.reviews)

  abbrev pub import_inspected : Legacy → Bool → Result LegacyReport → Exec Database LegacyReport
  import_inspected legacy dry_run (err e) = raise e
  import_inspected legacy true (ok report) = pure report
  import_inspected legacy false (ok report) = do
    raise_if (has_failed report)
        (value_error "legacy data failed validation; refusing partial import")
    import_rows legacy
    pure report

  unfoldable pub import_legacy :
      (String → String) → String → Legacy → Bool → Exec Database LegacyReport
  unfolding import_rows inspect_legacy
  import_legacy digest source legacy dry_run =
      import_inspected legacy dry_run (inspect_legacy digest source legacy)
