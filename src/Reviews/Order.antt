-- ===== src/Reviews/Order.antt =====
-- The order of the review pages: strict when ids are unique.
use boiler_reviews.Prelude.{
  ◌≡◌, ◌≢◌, refl, inl, inr, true, false, List, [], ◌∷◌, ◌++◌, arith, nat_eq, select, All,
  Bool-cases,
}
use boiler_reviews.Prelude.Sort.{sorted_by, insert_by, insert_by-All}
use boiler_reviews.Reviews.Query.{Row, ReviewCursor, newer, cursor_at, is_after}

-- Every later row comes after each earlier one.
abbrev pub IsDescending : List Row → Type 0
IsDescending [] = Unit
IsDescending (r ∷ rows) = All (λ s. is_after (cursor_at r) s ≡ true) rows × IsDescending rows

-- No two rows are of one review.
abbrev pub HasDistinctIds : List Row → Type 0
HasDistinctIds [] = Unit
HasDistinctIds (r ∷ rows) = All (λ s. s.review.id ≢ r.review.id) rows × HasDistinctIds rows

is_after_trans :
    (a b c : Row)
    → is_after (cursor_at a) b ≡ true
    → is_after (cursor_at b) c ≡ true
    → is_after (cursor_at a) c ≡ true
is_after_trans a b c h k = ground arith

newer-true :
    (a b : Row) → b.review.id ≢ a.review.id → newer a b ≡ true → is_after (cursor_at a) b ≡ true
newer-true a b d h = ground arith

newer-false : (a b : Row) → newer a b ≡ false → is_after (cursor_at b) a ≡ true
newer-false a b h = ground arith

after-All :
    (a b : Row) (rows : List Row)
    → is_after (cursor_at a) b ≡ true
    → All (λ s. is_after (cursor_at b) s ≡ true) rows
    → All (λ s. is_after (cursor_at a) s ≡ true) rows
after-All a b [] h k = tt
after-All a b (s ∷ rows) h (k, ks) = (is_after_trans a b s h k, after-All a b rows h ks)

insert_by-IsDescending :
    (r : Row) (rows : List Row)
    → All (λ s. s.review.id ≢ r.review.id) rows
    → IsDescending rows
    → IsDescending (insert_by newer r rows)
insert_by-IsDescending r [] d h = (tt, tt)
insert_by-IsDescending r (s ∷ rows) (d, ds) (h, hs) = elim (Bool-cases (newer r s)) [
  | inl first ↦
      let here = newer-true r s d first in rw first ((here, after-All r s rows here h), (h, hs))
  | inr later ↦ rw later (
    insert_by-All (λ x. is_after (cursor_at s) x ≡ true) newer r rows (newer-false r s later) h,
    insert_by-IsDescending r rows ds hs,
  )
]

sorted_by-All_ids :
    (r : Row) (rows : List Row)
    → All (λ s. s.review.id ≢ r.review.id) rows
    → All (λ s. s.review.id ≢ r.review.id) (sorted_by newer rows)
unfolding sorted_by
sorted_by-All_ids r [] h = tt
sorted_by-All_ids r (s ∷ rows) (d, ds) =
    insert_by-All (λ x. x.review.id ≢ r.review.id) newer s (sorted_by newer rows) d
      (sorted_by-All_ids r rows ds)

pub sorted_by-IsDescending :
    (rows : List Row) → HasDistinctIds rows → IsDescending (sorted_by newer rows)
unfolding sorted_by
sorted_by-IsDescending [] h = tt
sorted_by-IsDescending (r ∷ rows) (d, ds) =
    insert_by-IsDescending r (sorted_by newer rows) (sorted_by-All_ids r rows d)
      (sorted_by-IsDescending rows ds)

select-id :
    (c : ReviewCursor) (rows : List Row)
    → All (λ s. is_after c s ≡ true) rows
    → select (is_after c) rows ≡ rows
select-id c [] h = refl
select-id c (r ∷ rows) (k, ks) = rw (k, select-id c rows ks) refl

-- The rows after the cursor of a row are those that stand behind it.
pub select-after :
    (before after : List Row) (r : Row)
    → IsDescending (before ++ r ∷ after)
    → select (is_after (cursor_at r)) (before ++ r ∷ after) ≡ after
select-after [] after r (h, hs) =
    let own : is_after (cursor_at r) r ≡ false = ground arith in
    rw (own, select-id (cursor_at r) after h) refl
select-after (b ∷ before) after r (h, hs) =
    let away : is_after (cursor_at r) b ≡ false = not-after b r before after h in
    rw (away, select-after before after r hs) refl
  where
    not-after :
        (b r : Row) (before after : List Row)
        → All (λ s. is_after (cursor_at b) s ≡ true) (before ++ r ∷ after)
        → is_after (cursor_at r) b ≡ false
    not-after b r [] after (k, ks) = ground (arith, k)
    not-after b r (x ∷ before) after (k, ks) = not-after b r before after ks
