-- ===== src/Legacy/Settles.antt =====
-- What an import of src/boiler_reviews/db/legacy.py wrote is found by a later one.
use boiler_reviews.Prelude.{
  String, Bool, true, false, none, some, List, [], ◌∷◌, ◌++◌, ◌≡◌, refl, ap, arith, first,
}
use mathlib.Core.Path.{subst}
use boiler_reviews.Prelude.Table.{is_some}
use boiler_reviews.Exec.{Exec, ok, Error, pure, raise_if, ◌>>=◌, >>=-eq-ok, bind-ok}
use boiler_reviews.Legacy.Model.{Database}
use boiler_reviews.Legacy.Import.{has_request}

-- What a query finds in the first list, it finds in the second.
abbrev pub KeepsFirst : {A : Type 0} → List A → List A → Type 0
KeepsFirst {A} xs ys = (p : A → Bool) (x : A) → first p xs ≡ some x → first p ys ≡ some x

pub first-append :
    {A : Type 0} (p : A → Bool) (xs ys : List A) (x : A)
    → first p xs ≡ some x
    → first p (xs ++ ys) ≡ some x
first-append p [] ys x h = absurd (cc)
first-append p (y ∷ xs) ys x h = ground (arith, h, first-append p xs ys x)

pub first-append_none :
    {A : Type 0} (p : A → Bool) (xs : List A) (x : A)
    → first p xs ≡ none
    → p x ≡ true
    → first p (xs ++ x ∷ []) ≡ some x
first-append_none p [] x h fits = rw fits refl
first-append_none p (y ∷ xs) x h fits = ground (arith, h, first-append_none p xs x)

-- The second database has the rows of the first, and a review for each of its requests.
pub record Keeps (d e : Database) : Type 0 where
  pub institutions : KeepsFirst d.institutions e.institutions
  pub accounts : KeepsFirst d.accounts e.accounts
  pub courses : KeepsFirst d.courses e.courses
  pub terms : KeepsFirst d.terms e.terms
  pub requests :
      (key : String)
      → is_some (first (has_request key) d.store.reviews) ≡ true
      → is_some (first (has_request key) e.store.reviews) ≡ true

pub Keeps-refl : (d : Database) → Keeps d d
Keeps-refl d = record {
  institutions = λ p x h. h;
  accounts = λ p x h. h;
  courses = λ p x h. h;
  terms = λ p x h. h;
  requests = λ key h. h;
}

pub Keeps-trans : (c d e : Database) → Keeps c d → Keeps d e → Keeps c e
Keeps-trans c d e k l = record {
  institutions = λ p x h. l.institutions p x (k.institutions p x h);
  accounts = λ p x h. l.accounts p x (k.accounts p x h);
  courses = λ p x h. l.courses p x (k.courses p x h);
  terms = λ p x h. l.terms p x (k.terms p x h);
  requests = λ key h. l.requests key (k.requests key h);
}

-- If the first call returns, it keeps all rows, and the second one returns the same and writes nothing,
-- in any later database.
abbrev pub Settles : {A : Type 0} → Exec Database A → Exec Database A → Type 0
Settles {A} m n =
    (d e : Database) (a : A)
    → m d ≡ (ok a, e)
    → Keeps d e × ((later : Database) → Keeps e later → n later ≡ (ok a, later))

pub pure-Settles : {A : Type 0} (a : A) → Settles (pure a) (pure a)
pure-Settles a d e b h = (
  subst (λ u. Keeps d u) (ap (λ r. r.1) h) (Keeps-refl d),
  λ later keeps. ap (λ r. (r.0, later)) h,
)

pub raise_if-Settles : (b : Bool) (x : Error) → Settles (raise_if b x) (raise_if b x)
raise_if-Settles true x d e a h = absurd (cc)
raise_if-Settles false x d e a h = (
  subst (λ u. Keeps d u) (ap (λ r. r.1) h) (Keeps-refl d),
  λ later keeps. ap (λ r. (r.0, later)) h,
)

pub bind-Settles :
    {A B : Type 0} (m n : Exec Database A) (f g : A → Exec Database B)
    → Settles m n
    → ((a : A) → Settles (f a) (g a))
    → Settles (m >>= f) (n >>= g)
bind-Settles m n f g settles goes d e b h =
    let (a, u, first_half, second_half) = >>=-eq-ok m f d h in
    let (kept, again) = settles d u a first_half in
    let (kept', again') = goes a u e b second_half in
    (
      Keeps-trans d u e kept kept',
      λ later keeps.
          bind-ok n g later (again later (Keeps-trans u e later kept' keeps)) (again' later keeps),
    )
