-- ===== src/Reviews/Query.antt =====
-- `review_page` of src/boiler_reviews/reviews/query.py, with its filters and cursor. How the database
-- compares a professor's name with a pattern (`ilike`) is a parameter.
use boiler_reviews.Prelude.{
  ℕ, suc, min, max, String, Bool, true, false, Option, none, some, List, [], ◌∷◌, ◌++◌, map, length,
  ◌==◌, nat_eq, string_eq, ◌&&◌, ◌||◌, not, if◌then◌else◌, ltb, leb, select, take, concat,
}
use boiler_reviews.Prelude.Text.{is_empty}
use boiler_reviews.Prelude.Decimal.{str_nat}
use boiler_reviews.Prelude.Sort.{sorted_by}
use boiler_reviews.Prelude.Table.{find}
use boiler_reviews.Reviews.Model.{Review, ReviewRevision, ReviewStatus}
use boiler_reviews.Reviews.Reconcile.{joined}

pub record Course : Type 0 where
  pub id : ℕ
  pub stable_code : String

pub record Term : Type 0 where
  pub id : ℕ
  pub name : String
  pub year : ℕ

abbrev pub course_id : Course → ℕ
course_id c = c.id

abbrev pub term_id : Term → ℕ
term_id t = t.id

-- The four tables of the join.
pub record Tables : Type 0 where
  pub reviews : List Review
  pub revisions : List ReviewRevision
  pub courses : List Course
  pub terms : List Term

pub record ReviewFilter : Type 0 where
  pub course_id : Option ℕ
  pub term_id : Option ℕ
  pub professor : Option String
  pub min_overall : Option ℕ
  pub would_recommend : Option Bool

pub record ReviewCursor : Type 0 where
  pub created_at : ℕ
  pub review_id : ℕ

pub record Row : Type 0 where
  pub review : Review
  pub revision : ReviewRevision
  pub course : Course
  pub term : Term

-- The dict of an item; its "content" repeats fields of the revision.
pub record Item : Type 0 where
  pub id : ℕ
  pub course_id : ℕ
  pub course_code : String
  pub term_id : ℕ
  pub term : String
  pub status : ReviewStatus
  pub revision : ℕ
  pub published_revision : Option ℕ
  pub content : ReviewRevision

pub record ReviewPage : Type 0 where
  pub items : List Item
  pub next_cursor : Option ReviewCursor
  pub total : ℕ

abbrev pub row_of : Review → Option ReviewRevision → Option Course → Option Term → List Row
row_of r (some v) (some c) (some t) = record { review = r; revision = v; course = c; term = t } ∷ []
row_of r _ _ _ = []

-- The joins of `_statement`, and its test of the status.
unfoldable pub join_rows : Tables → List Review → List Row
unfolding joined
join_rows d [] = []
join_rows d (r ∷ rs) =
    row_of r (joined d.revisions r) (find course_id r.course_id d.courses)
      (find term_id r.term_id d.terms)
    ++ join_rows d rs

abbrev pub is_wanted : Option ℕ → ℕ → Bool
is_wanted none n = true
is_wanted (some m) n = n == m

abbrev pub is_reached : Option ℕ → ℕ → Bool
is_reached none n = true
is_reached (some low) n = leb low n

abbrev pub is_told : Option Bool → Bool → Bool
is_told none b = true
is_told (some true) b = b
is_told (some false) b = not b

abbrev pub is_named : (String → String → Bool) → Option String → String → Bool
is_named ilike none name = true
is_named ilike (some p) name = if is_empty p then true else ilike name (concat ("%" ∷ p ∷ "%" ∷ []))

-- The conditions that the filters add.
abbrev pub matches : (String → String → Bool) → ReviewFilter → Row → Bool
matches ilike f r =
    is_wanted f.course_id r.review.course_id
    && is_wanted f.term_id r.review.term_id
    && is_named ilike f.professor r.revision.professor
    && is_reached f.min_overall r.revision.overall
    && is_told f.would_recommend r.revision.would_recommend

unfoldable pub statement : (String → String → Bool) → ReviewFilter → Tables → List Row
unfolding join_rows
statement ilike f d = select (matches ilike f) (join_rows d d.reviews)

-- `order_by(Review.created_at.desc(), Review.id.desc())`
abbrev pub newer : Row → Row → Bool
newer a b =
    ltb b.review.created_at a.review.created_at
    || (b.review.created_at == a.review.created_at && leb b.review.id a.review.id)

abbrev pub cursor_at : Row → ReviewCursor
cursor_at r = record { created_at = r.review.created_at; review_id = r.review.id }

abbrev pub is_after : ReviewCursor → Row → Bool
is_after c r =
    ltb r.review.created_at c.created_at
    || (r.review.created_at == c.created_at && ltb r.review.id c.review_id)

abbrev pub is_after_cursor : Option ReviewCursor → Row → Bool
is_after_cursor none r = true
is_after_cursor (some c) r = is_after c r

abbrev pub item : Row → Item
item r = record {
  id = r.review.id;
  course_id = r.review.course_id;
  course_code = r.course.stable_code;
  term_id = r.review.term_id;
  term = concat (r.term.name ∷ " " ∷ str_nat r.term.year ∷ []);
  status = r.review.status;
  revision = r.review.current_revision;
  published_revision = r.review.published_revision;
  content = r.revision;
}

-- `rows[-1]`
abbrev pub last_row : List Row → Option Row
last_row [] = none
last_row (r ∷ []) = some r
last_row (r ∷ s ∷ rows) = last_row (s ∷ rows)

abbrev pub cursor_of : Option Row → Option ReviewCursor
cursor_of none = none
cursor_of (some r) = some (cursor_at r)

-- The cursor for the rows after the page, if there are more rows than the page takes.
abbrev pub next_of : ℕ → List Row → Option ReviewCursor
next_of size rows =
    if ltb size (length (take (suc size) rows)) then cursor_of (last_row (take size rows)) else none

abbrev pub bounded : ℕ → ℕ
bounded page_size = min (max page_size 1) 100

-- The rows after the cursor, in order.
unfoldable pub rows_after :
    (String → String → Bool) → ReviewFilter → Tables → Option ReviewCursor → List Row
unfolding statement sorted_by
rows_after ilike f d cursor =
    select (is_after_cursor cursor) (sorted_by newer (statement ilike f d))

unfoldable pub review_page :
    (String → String → Bool) → ReviewFilter → Tables → Option ReviewCursor → ℕ → ReviewPage
unfolding rows_after statement
review_page ilike f d cursor page_size = record {
  items = map item (take (bounded page_size) (rows_after ilike f d cursor));
  next_cursor = next_of (bounded page_size) (rows_after ilike f d cursor);
  total = length (statement ilike f d);
}
