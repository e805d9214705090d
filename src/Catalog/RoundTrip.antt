-- ===== src/Catalog/RoundTrip.antt =====
-- The depth of a value is limit enough for `expr_from_dict`, which reads back what `as_dict` writes.
use mathlib.Core.Path.{subst}
use boiler_reviews.Prelude.{
  ℕ, zero, suc, ltb, ◌≤◌, ◌<◌, ◌≡◌, refl, sym, ap, ◌∙◌, String, true, Option, none, some, ◌==◌,
  string_eq, ◌||◌, arith, Bool-cases, inl, inr,
}
use boiler_reviews.Prelude.Int.{ℤ}
use boiler_reviews.Prelude.Json
use boiler_reviews.Prelude.Json.{Json, Items, Fields, null, bool, num, str, arr, obj, end, field}
use boiler_reviews.Exec.Errors.{Result, ok}
use boiler_reviews.Exec.Attempt.{◌>>=◌}
use boiler_reviews.Catalog.Ast.{
  CourseRef, Expr, Exprs, course_ref, all_of, any_of, co_requisite, grade_at_least,
  credits_at_least, predicate, nil, cons,
}
use boiler_reviews.Catalog.Codec.{
  as_dict, items_dict, get, from_items, from_sequence, from_kind, from_type, from_value, from_dict,
  expr_from_dict, depth, depth_items, depth_fields, required, grade_node, course_dict,
}

get-depth :
    (key : String) (fs : Fields) (v : Json) → get key fs ≡ some v → depth v ≤ depth_fields fs
unfolding get depth
get-depth key end v h = cc
get-depth key (field k w fs) v h = ground (arith, get-depth key fs v)

depth-pos : (v : Json) → 0 < depth v
unfolding depth
depth-pos null = omega arith
depth-pos (bool b) = omega arith
depth-pos (num n) = omega arith
depth-pos (str s) = omega arith
depth-pos (arr vs) = omega arith
depth-pos (obj fs) = omega arith

-- Two readers agree on the values inside.
abbrev Agree : (Json → Result Expr) → (Json → Result Expr) → ℕ → Type 0
Agree f g n = (w : Json) → depth w ≤ n → f w ≡ g w

from_items-Agree :
    (f g : Json → Result Expr) (vs : Items)
    → Agree f g (depth_items vs)
    → from_items f vs ≡ from_items g vs
unfolding from_items depth
from_items-Agree f g Json.nil h = refl
from_items-Agree f g (Json.cons v vs) h =
    rw (h v (omega arith), from_items-Agree f g vs λ w le. h w (omega arith)) refl

from_sequence-Agree :
    (f g : Json → Result Expr) (key : String) (fs : Fields)
    → Agree f g (depth_fields fs)
    → from_sequence f (get key fs) ≡ from_sequence g (get key fs)
unfolding from_sequence
from_sequence-Agree f g key fs h = inside (get key fs) (get-depth key fs)
  where
    inside :
        (o : Option Json)
        → ((v : Json) → o ≡ some v → depth v ≤ depth_fields fs)
        → from_sequence f o ≡ from_sequence g o
    inside none le = refl
    inside (some (arr vs)) le =
        from_items-Agree f g vs λ w d. h w (unfold depth in omega (arith, le (arr vs) refl))
    inside (some (str s)) le = refl
    inside (some (obj end)) le = refl
    inside (some (obj (field k v gs))) le = refl
    inside (some null) le = refl
    inside (some (bool b)) le = refl
    inside (some (num n)) le = refl

field-Agree :
    (f g : Json → Result Expr) (key : String) (fs : Fields) (k : Expr → Result Expr)
    → Agree f g (depth_fields fs)
    → (required key (get key fs) >>= λ v. f v >>= k)
      ≡ (required key (get key fs) >>= λ v. g v >>= k)
field-Agree f g key fs k h = inside (get key fs) (get-depth key fs)
  where
    inside :
        (o : Option Json)
        → ((v : Json) → o ≡ some v → depth v ≤ depth_fields fs)
        → (required key o >>= λ v. f v >>= k) ≡ (required key o >>= λ v. g v >>= k)
    inside none le = refl
    inside (some v) le = ap (λ r. r >>= k) (h v (le v refl))

module _ (text_of : Json → String) (read_int : String → Option ℤ) where
  from_kind-Agree :
      (f g : Json → Result Expr) (kind : String) (fs : Fields)
      → Agree f g (depth_fields fs)
      → from_kind text_of read_int f kind fs ≡ from_kind text_of read_int g kind fs
  unfolding from_kind
  from_kind-Agree f g kind fs h =
      rw
        (
          from_sequence-Agree f g "items" fs h,
          field-Agree f g "course" fs (grade_node text_of read_int fs) h,
        )
        refl

  from_value-Agree :
      (f g : Json → Result Expr) (v : Json) (n : ℕ)
      → depth v ≤ suc n
      → Agree f g n
      → from_value text_of read_int f v ≡ from_value text_of read_int g v
  unfolding from_value from_type
  from_value-Agree f g null n le h = refl
  from_value-Agree f g (bool b) n le h = refl
  from_value-Agree f g (num m) n le h = refl
  from_value-Agree f g (str s) n le h = refl
  from_value-Agree f g (arr vs) n le h = refl
  from_value-Agree f g (obj fs) n le h = inside (get "type" fs)
    where
      inner : Agree f g (depth_fields fs)
      inner w d = h w (unfold depth in omega arith)

      inside :
          (o : Option Json) → from_type text_of read_int f o fs ≡ from_type text_of read_int g o fs
      inside none = refl
      inside (some (str kind)) = from_kind-Agree f g kind fs inner
      inside (some null) = refl
      inside (some (bool b)) = refl
      inside (some (num m)) = refl
      inside (some (arr vs)) = refl
      inside (some (obj gs)) = refl

  from_dict-suc :
      (n : ℕ) (v : Json)
      → depth v ≤ n
      → from_dict text_of read_int (suc n) v ≡ from_dict text_of read_int n v
  unfolding from_dict
  from_dict-suc zero v le = absurd (omega (arith, depth-pos v))
  from_dict-suc (suc n) v le =
      from_value-Agree (from_dict text_of read_int (suc n)) (from_dict text_of read_int n) v n le
        λ w d. from_dict-suc n w d

  from_dict-le :
      (n m : ℕ) (v : Json)
      → depth v ≤ m
      → m ≤ n
      → from_dict text_of read_int n v ≡ from_dict text_of read_int m v
  from_dict-le zero m v d le = ap (λ k. from_dict text_of read_int k v) (omega arith)
  from_dict-le (suc n) m v d le = elim (Bool-cases (ltb n m)) [
    | inl last ↦ ap (λ k. from_dict text_of read_int k v) (ground arith)
    | inr less ↦ from_dict-suc n v (ground arith) ∙ from_dict-le n m v d (ground arith)
  ]

  -- Every limit on the depth of calls that is at least the depth of the value gives the result of
  -- `expr_from_dict`: it is no limit.
  from_dict-enough :
      (n : ℕ) (v : Json)
      → depth v ≤ n
      → from_dict text_of read_int n v ≡ expr_from_dict text_of read_int v
  unfolding expr_from_dict
  from_dict-enough n v le = from_dict-le n (depth v) v (omega arith) le

-- The kinds of a predicate that the reader knows, and that are no other node's.
abbrev pub IsKind : String → Type 0
IsKind kind = (kind == "placement" || kind == "permission") ≡ true

-- The expressions that the parser builds: their predicates are of the two kinds.
unfoldable mutual
  pub IsWellFormed : Expr → Type 0
  IsWellFormed (course_ref c) = Unit
  IsWellFormed (grade_at_least c grade) = Unit
  IsWellFormed (credits_at_least n) = Unit
  IsWellFormed (predicate kind value) = IsKind kind
  IsWellFormed (all_of items) = AreWellFormed items
  IsWellFormed (any_of items) = AreWellFormed items
  IsWellFormed (co_requisite items) = AreWellFormed items

  pub AreWellFormed : Exprs → Type 0
  AreWellFormed nil = Unit
  AreWellFormed (cons e items) = IsWellFormed e × AreWellFormed items

module _ (text_of : Json → String) (read_int : String → Option ℤ) where
  abbrev read : Json → Result Expr
  read = expr_from_dict text_of read_int

  expr_from_dict-step : (v : Json) → read v ≡ from_value text_of read_int read v
  unfolding from_dict
  expr_from_dict-step v =
      sym (from_dict-enough text_of read_int (suc (depth v)) v (omega arith))
      ∙ from_value-Agree text_of read_int (from_dict text_of read_int (depth v)) read v (depth v)
          (omega arith) (from_dict-enough text_of read_int (depth v))

  read_course : (c : CourseRef) → read (course_dict c) ≡ ok (course_ref c)
  unfolding from_value from_type from_kind get
  read_course c = expr_from_dict-step (course_dict c) ∙ refl

  read_predicate :
      (kind value : String)
      → IsKind kind
      → from_kind text_of read_int read kind
          (field "type" (str kind) (field "value" (str value) end))
        ≡ ok (predicate kind value)
  unfolding from_kind get
  read_predicate kind value w = elim (Bool-cases (kind == "placement")) [
    | inl place ↦ known "placement" (sym ((string_eq.beq_iff kind "placement").0 place)) refl
    | inr other ↦
        known "permission" (sym ((string_eq.beq_iff kind "permission").0 (ground arith))) refl
  ]
    where
      known :
          (k : String)
          → k ≡ kind
          → from_kind text_of read_int read k (field "type" (str k) (field "value" (str value) end))
            ≡ ok (predicate k value)
          → from_kind text_of read_int read kind
              (field "type" (str kind) (field "value" (str value) end))
            ≡ ok (predicate kind value)
      known k e h =
          subst
            (λ x.
              from_kind text_of read_int read x
                (field "type" (str x) (field "value" (str value) end))
              ≡ ok (predicate x value))
            e h

  mutual
    unfolding as_dict IsWellFormed from_value from_type from_kind get from_sequence from_items

    read_back : (e : Expr) → IsWellFormed e → read (as_dict e) ≡ ok e
    read_back (course_ref c) w = read_course c
    read_back (grade_at_least c grade) w =
        expr_from_dict-step (as_dict (grade_at_least c grade)) ∙ rw (read_course c) refl
    read_back (credits_at_least n) w = expr_from_dict-step (as_dict (credits_at_least n)) ∙ refl
    read_back (predicate kind value) w =
        expr_from_dict-step (as_dict (predicate kind value)) ∙ read_predicate kind value w
    read_back (all_of items) w =
        expr_from_dict-step (as_dict (all_of items)) ∙ rw (read_items items w) refl
    read_back (any_of items) w =
        expr_from_dict-step (as_dict (any_of items)) ∙ rw (read_items items w) refl
    read_back (co_requisite items) w =
        expr_from_dict-step (as_dict (co_requisite items)) ∙ rw (read_items items w) refl

    read_items :
        (items : Exprs) → AreWellFormed items → from_items read (items_dict items) ≡ ok items
    read_items nil w = refl
    read_items (cons e items) w = rw (read_back e w.0, read_items items w.1) refl

  -- `expr_from_dict` reads back the expression that `as_dict` wrote, if its predicates are placements
  -- and permissions.
  pub expr_from_dict-as_dict :
      (e : Expr) → IsWellFormed e → expr_from_dict text_of read_int (as_dict e) ≡ ok e
  expr_from_dict-as_dict e w = read_back e w
