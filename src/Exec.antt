-- ===== src/Exec.antt =====
-- src/boiler_reviews/common/errors.py and `session_scope` of src/boiler_reviews/db/session.py:
-- code that works on a session and may raise.
pub mod Errors
pub mod Attempt
use mathlib.Core.Path.{subst}
use boiler_reviews.Prelude.{Bool, true, false, Option, none, some, ◌≡◌, refl, ◌⊎◌, inl, inr}
pub use Errors.*

-- What was written before a raise stays in the session, so the state comes back with the error.
abbrev pub Exec : Type 0 → Type 0 → Type 0
Exec S A = S → Result A × S

module _ {S A : Type 0} where
  abbrev pub pure : A → Exec S A
  pure a s = (ok a, s)

  abbrev pub raise : Error → Exec S A
  raise e s = (err e, s)

  abbrev pub gets : (S → A) → Exec S A
  gets f s = (ok (f s), s)

  abbrev pub or_raise : Option A → Error → Exec S A
  or_raise none e = raise e
  or_raise (some a) e = pure a

module _ {S : Type 0} where
  abbrev pub modify : (S → S) → Exec S (Unit {0})
  modify f s = (ok tt, f s)

  -- `if c: raise e`
  abbrev pub raise_if : Bool → Error → Exec S (Unit {0})
  raise_if true e s = (err e, s)
  raise_if false e s = (ok tt, s)

infixl 5 ◌>>=◌ ◌>>◌
abbrev pub ◌>>=◌ : {S A B : Type 0} → Exec S A → (A → Exec S B) → Exec S B
◌>>=◌ m f s = let (r, s') = m s in elim r [ ok a ↦ f a s' | err e ↦ (err e, s') ]

abbrev pub ◌>>◌ : {S A B : Type 0} → Exec S A → Exec S B → Exec S B
m >> k = m >>= λ _. k

-- The end of a session: the writes are kept if nothing was raised, and dropped otherwise.
abbrev pub commit_or_rollback : {S A : Type 0} → S → Result A × S → Result A × S
commit_or_rollback s (ok a, s') = (ok a, s')
commit_or_rollback s (err e, s') = (err e, s)

unfoldable pub session_scope : {S A : Type 0} → Exec S A → Exec S A
session_scope m s = commit_or_rollback s (m s)

-- A property that a successful call keeps is kept by the session, however the call ends.
pub session_scope-keeps :
    {S A : Type 0} (P : S → Type 0) (m : Exec S A) (s : S)
    → P s
    → ((a : A) (s' : S) → m s ≡ (ok a, s') → P s')
    → P (session_scope m s).1
unfolding session_scope
session_scope-keeps {S} {A} P m s h keep = go (m s) keep
  where
    go :
        (r : Result A × S)
        → ((a : A) (s' : S) → r ≡ (ok a, s') → P s')
        → P (commit_or_rollback s r).1
    go (ok a, s') k = k a s' refl
    go (err e, s') k = h

-- A block that returns has run its first step to the end.
pub >>=-eq-ok :
    {S A B : Type 0} (m : Exec S A) (f : A → Exec S B) (s : S) {b : B} {t : S}
    → (m >>= f) s ≡ (ok b, t)
    → (a : A) × (u : S) × (m s ≡ (ok a, u)) × (f a u ≡ (ok b, t))
>>=-eq-ok {S} {A} {B} m f s {b} {t} h = go (m s) refl h
  where
    go :
        (r : Result A × S)
        → m s ≡ r
        → elim r.0 as (λ _. Result B × S) [ ok a ↦ f a r.1 | err e ↦ (err e, r.1) ] ≡ (ok b, t)
        → (a : A) × (u : S) × (m s ≡ (ok a, u)) × (f a u ≡ (ok b, t))
    go (ok a, u) e k = (a, u, e, k)
    go (err e', u) e k = absurd (cc)

-- A block goes on from where its first step returned.
pub bind-ok :
    {S A B : Type 0} (m : Exec S A) (f : A → Exec S B) (s : S) {a : A} {t : S} {x : Result B × S}
    → m s ≡ (ok a, t)
    → f a t ≡ x
    → (m >>= f) s ≡ x
bind-ok {S} {A} {B} m f s {a} {t} {x} h k = go (m s) refl h
  where
    go :
        (r : Result A × S)
        → m s ≡ r
        → r ≡ (ok a, t)
        → elim r.0 as (λ _. Result B × S) [ ok a ↦ f a r.1 | err e ↦ (err e, r.1) ] ≡ x
    go (ok b, u) e p = cc k
    go (err e', u) e p = absurd (cc)

-- A block whose first step raises ends there.
pub bind-err :
    {S A B : Type 0} (m : Exec S A) (f : A → Exec S B) (s : S) {e : Error} {t : S}
    → m s ≡ (err e, t)
    → (m >>= f) s ≡ (err e, t)
bind-err {S} {A} {B} m f s {e} {t} h = go (m s) refl h
  where
    go :
        (r : Result A × S)
        → m s ≡ r
        → r ≡ (err e, t)
        → elim r.0 as (λ _. Result B × S) [ ok a ↦ f a r.1 | err e ↦ (err e, r.1) ] ≡ (err e, t)
    go (ok b, u) q p = absurd (cc)
    go (err e', u) q p = cc

-- A block that raises does so in its first step or after it.
pub >>=-eq-err :
    {S A B : Type 0} (m : Exec S A) (f : A → Exec S B) (s : S) {e : Error} {t : S}
    → (m >>= f) s ≡ (err e, t)
    → (m s ≡ (err e, t)) ⊎ ((a : A) × (u : S) × (m s ≡ (ok a, u)) × (f a u ≡ (err e, t)))
>>=-eq-err {S} {A} {B} m f s {e} {t} h = go (m s) refl h
  where
    go :
        (r : Result A × S)
        → m s ≡ r
        → elim r.0 as (λ _. Result B × S) [ ok a ↦ f a r.1 | err e' ↦ (err e', r.1) ] ≡ (err e, t)
        → (m s ≡ (err e, t)) ⊎ ((a : A) × (u : S) × (m s ≡ (ok a, u)) × (f a u ≡ (err e, t)))
    go (ok a, u) p k = inr (a, u, p, k)
    go (err e', u) p k = inl (cc)

pub raise_if-ok :
    {S : Type 0} (b : Bool) (e : Error) (s : S) {a : Unit {0}} {t : S}
    → raise_if b e s ≡ (ok a, t)
    → (b ≡ false) × (t ≡ s)
raise_if-ok true e s h = absurd (cc)
raise_if-ok false e s h = (refl, cc)

-- How a call ends: it returns in a store with `P`, or it raises, and not an `AssertionError`.
abbrev pub Outcome : {S A : Type 0} → (S → Type 0) → Result A × S → Type 0
Outcome P (ok a, s) = P s
Outcome P (err e, s) = is_assertion e ≡ false

pub Outcome-bind :
    {S A B : Type 0} (P : S → Type 0) (m : Exec S A) (f : A → Exec S B) (s : S)
    → ((e : Error) (t : S) → m s ≡ (err e, t) → is_assertion e ≡ false)
    → ((a : A) (t : S) → m s ≡ (ok a, t) → Outcome P (f a t))
    → Outcome P ((m >>= f) s)
Outcome-bind {S} {A} {B} P m f s raises returns = go (m s) refl
  where
    go :
        (r : Result A × S)
        → m s ≡ r
        → Outcome P (elim r.0 as (λ _. Result B × S) [ ok a ↦ f a r.1 | err e ↦ (err e, r.1) ])
    go (ok a, t) e = returns a t e
    go (err x, t) e = raises x t e

pub Outcome-ok :
    {S A : Type 0} (P : S → Type 0) (x : Result A × S) (a : A) (s : S)
    → Outcome P x
    → x ≡ (ok a, s)
    → P s
Outcome-ok P x a s h e = subst (Outcome P) e h
