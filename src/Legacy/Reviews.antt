-- ===== src/Legacy/Reviews.antt =====
-- The reviews that `import_legacy` of src/boiler_reviews/db/legacy.py writes.
use boiler_reviews.Prelude.{
  ℕ, suc, Bool, true, Option, none, some, List, [], ◌∷◌, ◌++◌, ◌≡◌, refl, sym, ap, ◌∙◌, arith,
  first, nat_eq, string_eq, option_eq,
}
use mathlib.Core.Path.{subst}
use boiler_reviews.Prelude.Decimal.{str_nat}
use boiler_reviews.Prelude.Table.{find, put, is_some}
use boiler_reviews.Prelude.Dict.{lookup}
use boiler_reviews.Exec.{Exec, ok, or_raise, ◌>>=◌, >>=-eq-ok, key_error}
use boiler_reviews.Reviews.Model.{Review, Store, review_id}
use boiler_reviews.Reviews.Service.{save_review}
use boiler_reviews.Reviews.Operations.{insert_review, add_revision}
use boiler_reviews.Reviews.Guards.{insert_review-ok, add_revision-ok}
use boiler_reviews.Legacy.Model.{LegacyReview, Database}
use boiler_reviews.Legacy.Import.{
  request_key, has_request, legacy_review, legacy_revision, on_store, entry_of, draw_id,
  write_review, add_review, review_unless, review_for, import_reviews,
}
use boiler_reviews.Legacy.Settles.{Keeps, Keeps-refl, Settles, bind-Settles, pure-Settles}

put-append :
    (r r' : Review) (rows : List Review)
    → r.id ≡ r'.id
    → find review_id r'.id rows ≡ none
    → put review_id r' (rows ++ r ∷ []) ≡ rows ++ r' ∷ []
unfolding put find
put-append r r' [] same h = ground (arith, same, nat_eq.beq_iff r.id r'.id)
put-append r r' (x ∷ rows) same h = ground (arith, same, h, put-append r r' rows same)

insert_review-new :
    (r : Review) (s t : Store) (a : Unit {0})
    → insert_review r s ≡ (ok a, t)
    → find review_id r.id s.reviews ≡ none
unfolding insert_review
insert_review-new r s t a h = ground arith

is_some-append :
    (p : Review → Bool) (rows : List Review) (r : Review)
    → is_some (first p rows) ≡ true
    → is_some (first p (rows ++ r ∷ [])) ≡ true
is_some-append p [] r h = absurd (cc)
is_some-append p (x ∷ rows) r h = ground (arith, h, is_some-append p rows r)

is_some-last :
    (p : Review → Bool) (rows : List Review) (r : Review)
    → p r ≡ true
    → is_some (first p (rows ++ r ∷ [])) ≡ true
is_some-last p [] r h = rw h refl
is_some-last p (x ∷ rows) r h = ground (arith, h, is_some-last p rows r)

entry_of-ok :
    (key : ℕ) (ids : List (ℕ × ℕ)) (d e : Database) (i : ℕ) → entry_of key ids d ≡ (ok i, e) → d ≡ e
entry_of-ok key ids d e i h = go (lookup key ids) h
  where
    go : (o : Option ℕ) → or_raise o (key_error (str_nat key)) d ≡ (ok i, e) → d ≡ e
    go none k = absurd (cc)
    go (some j) k = ap (λ x. x.1) k

review_unless-some :
    (o : Option Review) (add : Exec Database (Unit {0})) (d : Database) (a : Unit {0})
    → is_some o ≡ true
    → review_unless o add d ≡ (ok a, d)
review_unless-some none add d a h = absurd (cc)
review_unless-some (some r) add d a h = refl

module _ (new_id : ℕ → ℕ) (now : ℕ) where
  -- The review that is there after the import of its row.
  abbrev stored : LegacyReview → ℕ → ℕ → ℕ → ℕ → Review
  stored row author course term id = record (legacy_review id now row author course term) {
    published_revision = some 1;
  }

  write_review-rows :
      (row : LegacyReview) (author course term id : ℕ) (s t : Store) (a : Unit {0})
      → write_review new_id now row author course term id s ≡ (ok a, t)
      → t.reviews ≡ s.reviews ++ stored row author course term id ∷ []
  unfolding write_review
  write_review-rows row author course term id s t a h =
      let review = legacy_review id now row author course term in
      let save = (λ (x : Unit {0}). save_review (stored row author course term id)) in
      let revise = (λ (x : Unit {0}). add_revision (legacy_revision id row) >>= save) in
      let (b, u, inserted, rest) = >>=-eq-ok (insert_review review) revise s h in
      let (c, v, added, saved) = >>=-eq-ok (add_revision (legacy_revision id row)) save u rest in
      let rows : v.reviews ≡ s.reviews ++ review ∷ [] =
        ap (λ x. x.reviews) (add_revision-ok (legacy_revision id row) u v c added)
        ∙ ap (λ x. x.reviews) (insert_review-ok review s u b inserted) in
      let last : put review_id (stored row author course term id) v.reviews ≡ t.reviews =
        ap (λ x. x.1.reviews) saved in
      sym last
      ∙ (ap (put review_id (stored row author course term id)) rows
          ∙ put-append review (stored row author course term id) s.reviews refl
              (insert_review-new review s u b inserted))

  on_store-ok :
      (m : Exec Store (Unit {0})) (d e : Database) (a : Unit {0})
      → on_store m d ≡ (ok a, e)
      → (t : Store) × (m d.store ≡ (ok a, t)) × (e ≡ record d { store = t })
  on_store-ok m d e a h =
      ((m d.store).1, ap (λ r. (r, (m d.store).1)) (ap (λ x. x.0) h), sym (ap (λ x. x.1) h))

  -- Only the reviews and their revisions differ, and a review was added.
  added-Keeps :
      (d : Database) (t : Store) (r : Review)
      → t.reviews ≡ d.store.reviews ++ r ∷ []
      → Keeps d (record d { store = t; drawn = suc d.drawn })
  added-Keeps d t r rows = record {
    institutions = λ p x k. k;
    accounts = λ p x k. k;
    courses = λ p x k. k;
    terms = λ p x k. k;
    requests = λ key k.
        subst (λ xs. is_some (first (has_request key) xs) ≡ true) (sym rows)
          (is_some-append (has_request key) d.store.reviews r k);
  }

  add_review-adds :
      (author : ℕ) (course_ids term_ids : List (ℕ × ℕ)) (row : LegacyReview) (d e : Database)
      (a : Unit {0})
      → add_review new_id now author course_ids term_ids row d ≡ (ok a, e)
      → Keeps d e × (is_some (first (has_request (request_key row)) e.store.reviews) ≡ true)
  unfolding add_review
  add_review-adds author course_ids term_ids row d e a h =
      let write =
        (λ (course term id : ℕ). on_store (write_review new_id now row author course term id)) in
      let draw = (λ (course term : ℕ). draw_id new_id now >>= write course term) in
      let pick = (λ (course : ℕ). entry_of row.semester_id term_ids >>= draw course) in
      let (course, d1, got_course, rest1) =
        >>=-eq-ok (entry_of row.course_id course_ids) pick d h in
      let (term, d2, got_term, rest2) =
        >>=-eq-ok (entry_of row.semester_id term_ids) (draw course) d1 rest1 in
      let (id, d3, drawn, rest3) = >>=-eq-ok (draw_id new_id now) (write course term) d2 rest2 in
      let (t, wrote, same) =
        on_store-ok (write_review new_id now row author course term id) d3 e a rest3 in
      let before : d ≡ d2 =
        entry_of-ok row.course_id course_ids d d1 course got_course
        ∙ entry_of-ok row.semester_id term_ids d1 d2 term got_term in
      let start : record d { drawn = suc d.drawn } ≡ d3 =
        ap (λ (u : Database). record u { drawn = suc u.drawn }) before ∙ ap (λ x. x.1) drawn in
      let rows : t.reviews ≡ d.store.reviews ++ stored row author course term id ∷ [] =
        write_review-rows row author course term id d3.store t a wrote
        ∙ ap (λ (u : Database). u.store.reviews ++ stored row author course term id ∷ [])
            (sym start) in
      let end : record d { store = t; drawn = suc d.drawn } ≡ e =
        ap (λ (u : Database). record u { store = t }) start ∙ sym same in
      let key = request_key row in
      (
        subst (Keeps d) end (added-Keeps d t (stored row author course term id) rows),
        subst (λ (u : Database). is_some (first (has_request key) u.store.reviews) ≡ true) end
            (subst (λ xs. is_some (first (has_request key) xs) ≡ true) (sym rows)
              (is_some-last (has_request key) d.store.reviews (stored row author course term id)
                (((option_eq).beq_iff (some key) (some key)).1 refl))),
      )

  pub review_for-adds :
      (author : ℕ) (course_ids term_ids : List (ℕ × ℕ)) (row : LegacyReview) (d e : Database)
      (a : Unit {0})
      → review_for new_id now author course_ids term_ids row d ≡ (ok a, e)
      → Keeps d e × (is_some (first (has_request (request_key row)) e.store.reviews) ≡ true)
  unfolding review_for
  review_for-adds author course_ids term_ids row d e a h =
      go (first (has_request (request_key row)) d.store.reviews) refl h
    where
      go :
          (o : Option Review)
          → first (has_request (request_key row)) d.store.reviews ≡ o
          → review_unless o (add_review new_id now author course_ids term_ids row) d ≡ (ok a, e)
          → Keeps d e × (is_some (first (has_request (request_key row)) e.store.reviews) ≡ true)
      go none missing k = add_review-adds author course_ids term_ids row d e a k
      go (some r) found k =
          let same : d ≡ e = ap (λ x. x.1) k in
          (
            subst (Keeps d) same (Keeps-refl d),
            subst
                (λ (u : Database).
                  is_some (first (has_request (request_key row)) u.store.reviews) ≡ true)
                same (ap is_some found),
          )

module _ (new_id new_id' : ℕ → ℕ) (now now' : ℕ) (author : ℕ)
    (course_ids term_ids : List (ℕ × ℕ)) where
  review_for-Settles :
      (row : LegacyReview)
      → Settles
          (review_for new_id now author course_ids term_ids row)
          (review_for new_id' now' author course_ids term_ids row)
  unfolding review_for
  review_for-Settles row d e a h =
      let (kept, there) = review_for-adds new_id now author course_ids term_ids row d e a h in
      (
        kept,
        λ later keeps.
            review_unless-some (first (has_request (request_key row)) later.store.reviews)
              (add_review new_id' now' author course_ids term_ids row) later a
              (keeps.requests (request_key row) there),
      )

  pub import_reviews-Settles :
      (rows : List LegacyReview)
      → Settles
          (import_reviews new_id now author course_ids term_ids rows)
          (import_reviews new_id' now' author course_ids term_ids rows)
  unfolding import_reviews
  import_reviews-Settles [] = pure-Settles tt
  import_reviews-Settles (row ∷ rows) =
      bind-Settles _ _ _ _ (review_for-Settles row) (λ done. import_reviews-Settles rows)
