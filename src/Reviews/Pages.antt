-- ===== src/Reviews/Pages.antt =====
-- Following the cursors of the review pages.
use mathlib.Core.Path.{subst}
use mathlib.Core.List.{map-append, append_assoc, append-nil}
use boiler_reviews.Prelude.{
  ℕ, zero, suc, ◌+◌, ◌<◌, ◌≡◌, ◌≢◌, refl, sym, ap, ◌∙◌, inl, inr, String, Bool, true, false, Option,
  none, some, List, [], ◌∷◌, ◌++◌, arith, ◌-◌, map, length, length-append, nat_eq, ltb, select,
  select-All, take, All, Bool-cases,
}
use boiler_reviews.Prelude.Sort.{sorted_by}
use boiler_reviews.Prelude.Table.{find, HasUniqueKeys}
use boiler_reviews.Reviews.Model.{Review, ReviewRevision, review_id}
use boiler_reviews.Reviews.Reconcile.{joined}
use boiler_reviews.Reviews.Query.{
  Course, Term, Tables, ReviewFilter, ReviewCursor, Row, Item, course_id, term_id, row_of,
  join_rows, matches, statement, newer, cursor_at, is_after, item, last_row, next_of, bounded,
  rows_after, review_page,
}
use boiler_reviews.Reviews.Order.{
  HasDistinctIds, IsDescending, sorted_by-IsDescending, select-after,
}

abbrev more : ℕ → List Row → Bool
more n rows = ltb n (length (take (suc n) rows))

take-whole : (n : ℕ) (rows : List Row) → more n rows ≡ false → take n rows ≡ rows
take-whole n [] h = refl
take-whole zero (r ∷ rows) h = absurd (ground arith)
take-whole (suc n) (r ∷ rows) h = ap (λ x. r ∷ x) (take-whole n rows (ground (arith, h)))

last-append : (before : List Row) (r : Row) → last_row (before ++ r ∷ []) ≡ some r
last-append [] r = refl
last-append (b ∷ []) r = refl
last-append (b ∷ c ∷ before) r = last-append (c ∷ before) r

-- Where the page ends, if it takes less than all rows.
abbrev Cut : ℕ → List Row → Type 0
Cut n rows =
    (before : List Row) × (r : Row) × (after : List Row) × (rows ≡ before ++ r ∷ after)
    × (take n rows ≡ before ++ r ∷ [])

take-zero : (rows : List Row) → take 0 rows ≡ []
take-zero [] = refl
take-zero (r ∷ rows) = refl

take-length : (n : ℕ) (rows : List Row) → more (suc n) rows ≡ true → Cut (suc n) rows
take-length n [] h = absurd (ground arith)
take-length zero (r ∷ rows) h = ([], r, rows, refl, ap (λ x. r ∷ x) (take-zero rows))
take-length (suc n) (r ∷ rows) h =
    let (before, x, after, whole, page) = take-length n rows (ground (arith, h)) in
    (r ∷ before, x, after, ap (λ y. r ∷ y) whole, ap (λ y. r ∷ y) page)

next-whole : (n : ℕ) (rows : List Row) → more n rows ≡ false → next_of n rows ≡ none
next-whole n rows h = rw h refl

next-cut :
    (n : ℕ) (rows before : List Row) (r : Row)
    → more n rows ≡ true
    → take n rows ≡ before ++ r ∷ []
    → next_of n rows ≡ some (cursor_at r)
next-cut n rows before r h page = rw (h, page, last-append before r) refl

-- A review gives one row at most.
row_of-ids :
    (r : Review) (v : Option ReviewRevision) (c : Option Course) (t : Option Term) (id : ℕ)
    (rows : List Row)
    → r.id ≢ id
    → All (λ x. x.review.id ≢ id) rows
    → All (λ x. x.review.id ≢ id) (row_of r v c t ++ rows)
row_of-ids r (some v) (some c) (some t) id rows d h = (d, h)
row_of-ids r (some v) (some c) none id rows d h = h
row_of-ids r (some v) none t id rows d h = h
row_of-ids r none c t id rows d h = h

join_rows-ids :
    (d : Tables) (id : ℕ) (rs : List Review)
    → find review_id id rs ≡ none
    → All (λ x. x.review.id ≢ id) (join_rows d rs)
unfolding join_rows find
join_rows-ids d id [] h = tt
join_rows-ids d id (r ∷ rs) h =
    row_of-ids r (joined d.revisions r) (find course_id r.course_id d.courses)
      (find term_id r.term_id d.terms) id (join_rows d rs)
      (λ e. ground (arith, e, nat_eq.beq_iff r.id id)) (join_rows-ids d id rs (ground (arith, h)))

row_of-distinct :
    (r : Review) (v : Option ReviewRevision) (c : Option Course) (t : Option Term) (rows : List Row)
    → All (λ x. x.review.id ≢ r.id) rows
    → HasDistinctIds rows
    → HasDistinctIds (row_of r v c t ++ rows)
row_of-distinct r (some v) (some c) (some t) rows d h = (d, h)
row_of-distinct r (some v) (some c) none rows d h = h
row_of-distinct r (some v) none t rows d h = h
row_of-distinct r none c t rows d h = h

join_rows-HasDistinctIds :
    (d : Tables) (rs : List Review) → HasUniqueKeys review_id rs → HasDistinctIds (join_rows d rs)
unfolding join_rows
join_rows-HasDistinctIds d [] u = tt
join_rows-HasDistinctIds d (r ∷ rs) (fresh, u) =
    row_of-distinct r (joined d.revisions r) (find course_id r.course_id d.courses)
      (find term_id r.term_id d.terms) (join_rows d rs) (join_rows-ids d r.id rs fresh)
      (join_rows-HasDistinctIds d rs u)

select-HasDistinctIds :
    (p : Row → Bool) (rows : List Row) → HasDistinctIds rows → HasDistinctIds (select p rows)
select-HasDistinctIds p [] h = tt
select-HasDistinctIds p (r ∷ rows) (d, ds) = elim (Bool-cases (p r)) [
  | inl fits ↦
      rw fits
        (select-All (λ s. s.review.id ≢ r.review.id) p rows d, select-HasDistinctIds p rows ds)
  | inr fails ↦ rw fails (select-HasDistinctIds p rows ds)
]

length-append_rows : (xs ys : List Row) → length (xs ++ ys) ≡ length xs + length ys
length-append_rows = length-append

select-true : (rows : List Row) → select (λ r. true) rows ≡ rows
select-true [] = refl
select-true (r ∷ rows) = ap (λ x. r ∷ x) (select-true rows)

module _ (ilike : String → String → Bool) (f : ReviewFilter) (d : Tables) (page_size : ℕ) where
  -- The items of a client that asks for the next page as long as there is a cursor, `n` times at most.
  unfoldable pub follow : ℕ → Option ReviewCursor → List Item
  follow zero cursor = []
  follow (suc n) cursor =
      let page = review_page ilike f d cursor page_size in
      page.items ++ elim page.next_cursor [ none ↦ [] | some c ↦ follow n (some c) ]

  abbrev pub ordered : List Row
  ordered = sorted_by newer (statement ilike f d)

  bounded-suc : (k : ℕ) × (bounded page_size ≡ suc k)
  bounded-suc = (bounded page_size - 1, omega arith)

  follow-suffix :
      (n : ℕ) (cursor : Option ReviewCursor) (before rows : List Row)
      → IsDescending ordered
      → ordered ≡ before ++ rows
      → rows_after ilike f d cursor ≡ rows
      → length rows < n
      → follow n cursor ≡ map item rows
  unfolding follow review_page rows_after
  follow-suffix zero cursor before rows down whole here h = absurd (omega arith)
  follow-suffix (suc n) cursor before rows down whole here h =
      let (k, size) = bounded-suc in
      elim (Bool-cases (more (suc k) rows)) [
        | inr end ↦ rw (here, size, end, take-whole (suc k) rows end) (append-nil (map item rows))
        | inl on ↦
            let (b, r, after, split, page) = take-length k rows on in
            let place : ordered ≡ (before ++ b) ++ r ∷ after =
              whole ∙ ap (λ x. before ++ x) split ∙ sym (append_assoc before b (r ∷ after)) in
            let rest : rows_after ilike f d (some (cursor_at r)) ≡ after =
              ap (select (is_after (cursor_at r))) place
              ∙ select-after (before ++ b) after r (subst IsDescending place down) in
            let tail =
              follow-suffix n (some (cursor_at r)) ((before ++ b) ++ r ∷ []) after down
                (place ∙ sym (append_assoc (before ++ b) (r ∷ []) after)) rest
                (omega (arith, ap length split, length-append_rows b (r ∷ after))) in
            rw (here, size, on, page, last-append b r, tail)
              (sym (map-append item (b ++ r ∷ []) after)
                ∙ ap (map item) (append_assoc b (r ∷ []) after ∙ sym split))
      ]

  -- If no two reviews have one id, a client that starts without a cursor and follows the cursors of the
  -- pages, whatever size it asks for, is given every row that fits the filter, once and in order.
  pub follow-statement :
      HasUniqueKeys review_id d.reviews
      → follow (suc (length (sorted_by newer (statement ilike f d)))) none
        ≡ map item (sorted_by newer (statement ilike f d))
  unfolding statement rows_after sorted_by
  follow-statement u =
      follow-suffix (suc (length ordered)) none [] ordered
        (sorted_by-IsDescending (statement ilike f d) (
          select-HasDistinctIds (matches ilike f) (join_rows d d.reviews)
            (join_rows-HasDistinctIds d d.reviews u)))
        refl (select-true ordered) (omega arith)
