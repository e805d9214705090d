-- ===== src/Legacy/Rows.antt =====
-- The rows that `import_legacy` of src/boiler_reviews/db/legacy.py finds or inserts.
use boiler_reviews.Prelude.{
  ℕ, Bool, true, Option, none, some, List, [], ◌∷◌, ◌++◌, ◌≡◌, refl, ap, ◌∙◌, inl, inr, arith,
  first, ◌==◌, nat_eq, string_eq, Bool-cases,
}
use mathlib.Core.Path.{subst}
use boiler_reviews.Prelude.Table.{find, is_some}
use boiler_reviews.Exec.{Result, ok}
use boiler_reviews.Identity.Accounts.{Account, account_id}
use boiler_reviews.Legacy.Model.{
  LegacyCourse, LegacySemester, Institution, Database, institution_id, course_id, term_id,
}
use boiler_reviews.Legacy.Import.{
  found_or, institution_for, author_for, course_for, term_for, import_courses, import_terms,
  is_course, is_term, legacy_institution, unknown_author, legacy_course, legacy_term,
}
use boiler_reviews.Legacy.Settles.{
  Keeps, Keeps-refl, Settles, bind-Settles, pure-Settles, first-append, first-append_none,
}

module _ {A : Type 0} (id : A → ℕ) (table : Database → List A) (p : A → Bool) where
  found_or-Keeps :
      (row : A) (d written e : Database) (a : ℕ)
      → found_or id row (table d) written (first p (table d)) d ≡ (ok a, e)
      → table written ≡ table d ++ row ∷ []
      → p row ≡ true
      → Keeps d written
      → Keeps d e × ((x : A) × (first p (table e) ≡ some x) × (id x ≡ a))
  unfolding found_or
  found_or-Keeps row d written e a h rows fits kept = go (first p (table d)) refl h
    where
      go :
          (o : Option A)
          → first p (table d) ≡ o
          → found_or id row (table d) written o d ≡ (ok a, e)
          → Keeps d e × ((x : A) × (first p (table e) ≡ some x) × (id x ≡ a))
      go (some x) found h =
          let same : d ≡ e = cc in
          (
            subst (λ u. Keeps d u) same (Keeps-refl d),
            (x, subst (λ u. first p (table u) ≡ some x) same found, cc),
          )
      go none missing h = elim (Bool-cases (is_some (find id (id row) (table d)))) [
        | inl taken ↦ absurd (cc (rw taken at h))
        | inr fresh ↦
            let wrote : Result ℕ × Database = (ok (id row), written) in
            let q : wrote ≡ (ok a, e) = rw fresh at h in
            let same : written ≡ e = cc in
            (
              subst (λ u. Keeps d u) same kept,
              (
                row,
                subst (λ u. first p (table u) ≡ some row) same
                    (ap (first p) rows ∙ first-append_none p (table d) row missing fits),
                cc,
              ),
            )
      ]

  found_or-again :
      (row : A) (later written : Database) (x : A) (a : ℕ)
      → first p (table later) ≡ some x
      → id x ≡ a
      → found_or id row (table later) written (first p (table later)) later ≡ (ok a, later)
  unfolding found_or
  found_or-again row later written x a found same = rw found (ap (λ i. (ok i, later)) same)

module _ (new_id new_id' : ℕ → ℕ) (now now' : ℕ) where
  pub institution_for-Settles : Settles (institution_for new_id now) (institution_for new_id' now')
  unfolding institution_for
  institution_for-Settles d e a h =
      let p = (λ (i : Institution). i.code == "LEGACY") in
      let (kept, (x, found, same)) =
        found_or-Keeps institution_id (λ u. u.institutions) p _ d _ e a h refl refl
          (record {
            institutions = λ q x. first-append q d.institutions _ x;
            accounts = λ q x k. k;
            courses = λ q x k. k;
            terms = λ q x k. k;
            requests = λ key k. k;
          }) in
      (
        kept,
        λ later keeps.
            found_or-again institution_id (λ u. u.institutions) p
              (legacy_institution (new_id' later.drawn)) later _ x a (keeps.institutions p x found)
              same,
      )

  pub author_for-Settles : Settles (author_for new_id now) (author_for new_id' now')
  unfolding author_for
  author_for-Settles d e a h =
      let p = (λ (x : Account). x.email == "unknown@legacy.invalid") in
      let (kept, (x, found, same)) =
        found_or-Keeps account_id (λ u. u.accounts) p _ d _ e a h refl refl
          (record {
            institutions = λ q x k. k;
            accounts = λ q x. first-append q d.accounts _ x;
            courses = λ q x k. k;
            terms = λ q x k. k;
            requests = λ key k. k;
          }) in
      (
        kept,
        λ later keeps.
            found_or-again account_id (λ u. u.accounts) p (unknown_author (new_id' later.drawn))
              later _ x a (keeps.accounts p x found) same,
      )

  pub course_for-Settles :
      (institution : ℕ) (row : LegacyCourse)
      → Settles (course_for new_id now institution row) (course_for new_id' now' institution row)
  unfolding course_for
  course_for-Settles institution row d e a h =
      let p = is_course institution row in
      let (kept, (x, found, same)) =
        found_or-Keeps course_id (λ u. u.courses) p _ d _ e a h refl
          (ground (
            arith,
            (nat_eq.beq_iff institution institution).1 refl,
            (string_eq.beq_iff row.course_code row.course_code).1 refl,
          ))
          (record {
            institutions = λ q x k. k;
            accounts = λ q x k. k;
            courses = λ q x. first-append q d.courses _ x;
            terms = λ q x k. k;
            requests = λ key k. k;
          }) in
      (
        kept,
        λ later keeps.
            found_or-again course_id (λ u. u.courses) p
              (legacy_course (new_id' later.drawn) institution row) later _ x a
              (keeps.courses p x found) same,
      )

  pub term_for-Settles :
      (institution : ℕ) (row : LegacySemester)
      → Settles (term_for new_id now institution row) (term_for new_id' now' institution row)
  unfolding term_for
  term_for-Settles institution row d e a h =
      let p = is_term institution row in
      let (kept, (x, found, same)) =
        found_or-Keeps term_id (λ u. u.terms) p _ d _ e a h refl
          (ground (
            arith,
            (nat_eq.beq_iff institution institution).1 refl,
            (string_eq.beq_iff row.term row.term).1 refl,
            (nat_eq.beq_iff row.year row.year).1 refl,
          ))
          (record {
            institutions = λ q x k. k;
            accounts = λ q x k. k;
            courses = λ q x k. k;
            terms = λ q x. first-append q d.terms _ x;
            requests = λ key k. k;
          }) in
      (
        kept,
        λ later keeps.
            found_or-again term_id (λ u. u.terms) p
              (legacy_term (new_id' later.drawn) institution row) later _ x a
              (keeps.terms p x found) same,
      )

  pub import_courses-Settles :
      (institution : ℕ) (rows : List LegacyCourse) (ids : List (ℕ × ℕ))
      → Settles
          (import_courses new_id now institution rows ids)
          (import_courses new_id' now' institution rows ids)
  unfolding import_courses
  import_courses-Settles institution [] ids = pure-Settles ids
  import_courses-Settles institution (row ∷ rows) ids =
      bind-Settles _ _ _ _ (course_for-Settles institution row)
        (λ id. import_courses-Settles institution rows ((row.id, id) ∷ ids))

  pub import_terms-Settles :
      (institution : ℕ) (rows : List LegacySemester) (ids : List (ℕ × ℕ))
      → Settles
          (import_terms new_id now institution rows ids)
          (import_terms new_id' now' institution rows ids)
  unfolding import_terms
  import_terms-Settles institution [] ids = pure-Settles ids
  import_terms-Settles institution (row ∷ rows) ids =
      bind-Settles _ _ _ _ (term_for-Settles institution row)
        (λ id. import_terms-Settles institution rows ((row.id, id) ∷ ids))
