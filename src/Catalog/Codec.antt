-- ===== src/Catalog/Codec.antt =====
-- `as_dict` and `expr_from_dict` of src/boiler_reviews/catalog/ast.py. `str` and `int` of Python are
-- written out where the code relies on them; the texts of other values, and the integers that a text
-- spells, are parameters.
use boiler_reviews.Prelude.{
  ℕ, zero, suc, max, String, true, false, Option, none, some, [], ◌∷◌, ◌==◌, string_eq, ◌||◌,
  if◌then◌else◌, concat,
}
use boiler_reviews.Prelude.Int.{ℤ, pos}
use boiler_reviews.Prelude.Json
use boiler_reviews.Prelude.Json.{Json, Items, Fields, null, bool, num, str, arr, obj, end, field}
use boiler_reviews.Exec.Errors.{
  Result, ok, err, value_error, type_error, key_error, attribute_error, recursion_error,
}
use boiler_reviews.Exec.Attempt.{◌>>=◌}
use boiler_reviews.Catalog.Ast.{
  CourseRef, Expr, Exprs, course_ref, all_of, any_of, co_requisite, grade_at_least,
  credits_at_least, predicate, nil, cons,
}

abbrev pub node : String → String → Json → Json
node kind key value = obj (field "type" (str kind) (field key value end))

abbrev pub course_dict : CourseRef → Json
course_dict c = node "course" "code" (str c.code)

unfoldable mutual
  pub as_dict : Expr → Json
  as_dict (course_ref c) = course_dict c
  as_dict (all_of items) = node "and" "items" (arr (items_dict items))
  as_dict (any_of items) = node "or" "items" (arr (items_dict items))
  as_dict (co_requisite items) = node "corequisite" "items" (arr (items_dict items))
  as_dict (grade_at_least c grade) =
      obj (
        field "type" (str "grade") (field "course" (course_dict c) (field "grade" (str grade) end)))
  as_dict (credits_at_least credits) = node "credits" "credits" (num credits)
  as_dict (predicate kind value) = node kind "value" (str value)

  pub items_dict : Exprs → Items
  items_dict nil = Json.nil
  items_dict (cons e items) = Json.cons (as_dict e) (items_dict items)

-- `value.get(key)`
unfoldable pub get : String → Fields → Option Json
get key end = none
get key (field k v fs) = if k == key then some v else get key fs

-- `value[key]`
abbrev pub required : String → Option Json → Result Json
required key none = err (key_error key)
required key (some v) = ok v

unfoldable pub from_items : (Json → Result Expr) → Items → Result Exprs
from_items f Json.nil = ok nil
from_items f (Json.cons v vs) = do e ← f v; es ← from_items f vs; ok (cons e es)

-- The items of a node: the loop goes over a list, over the characters of a text and the keys of a dict,
-- which have no `get`, and nothing else.
unfoldable pub from_sequence : (Json → Result Expr) → Option Json → Result Exprs
unfolding from_items
from_sequence f none = ok nil
from_sequence f (some (arr vs)) = from_items f vs
from_sequence f (some (str s)) = if s == "" then ok nil else err (attribute_error "get")
from_sequence f (some (obj end)) = ok nil
from_sequence f (some (obj (field k v fs))) = err (attribute_error "get")
from_sequence f (some null) = err (type_error "not iterable")
from_sequence f (some (bool b)) = err (type_error "not iterable")
from_sequence f (some (num n)) = err (type_error "not iterable")

unfoldable mutual
  pub depth : Json → ℕ
  depth (arr vs) = suc (depth_items vs)
  depth (obj fs) = suc (depth_fields fs)
  depth null = 1
  depth (bool b) = 1
  depth (num n) = 1
  depth (str s) = 1

  pub depth_items : Items → ℕ
  depth_items Json.nil = 0
  depth_items (Json.cons v vs) = max (depth v) (depth_items vs)

  pub depth_fields : Fields → ℕ
  depth_fields end = 0
  depth_fields (field k v fs) = max (depth v) (depth_fields fs)

module _ (text_of : Json → String) (read_int : String → Option ℤ) where
  -- `str(value)`
  abbrev pub to_text : Json → String
  to_text (str s) = s
  to_text v = text_of v

  abbrev pub int_of : Option ℤ → Result ℤ
  int_of none = err (value_error "invalid literal for int()")
  int_of (some n) = ok n

  -- `int(value)`
  abbrev pub to_int : Json → Result ℤ
  to_int (num n) = ok n
  to_int (bool true) = ok (pos 1)
  to_int (bool false) = ok (pos 0)
  to_int (str s) = int_of (read_int s)
  to_int v = err (type_error "int() argument must be a string or a number")

  abbrev pub grade_node : Fields → Expr → Result Expr
  grade_node fs (course_ref c) = do
    grade ← required "grade" (get "grade" fs)
    ok (grade_at_least c (to_text grade))
  grade_node fs _ = err (value_error "grade expression must point to a course")

  -- The tests on `kind`, one after the other.
  unfoldable pub from_kind : (Json → Result Expr) → String → Fields → Result Expr
  unfolding from_sequence get
  from_kind f kind fs =
      if kind == "course"
      then (do
        code ← required "code" (get "code" fs)
        ok (course_ref (record { code = to_text code })))
      else if kind == "and"
      then (do items ← from_sequence f (get "items" fs); ok (all_of items))
      else if kind == "or"
      then (do items ← from_sequence f (get "items" fs); ok (any_of items))
      else if kind == "grade"
      then (do v ← required "course" (get "course" fs); course ← f v; grade_node fs course)
      else if kind == "credits"
      then (do v ← required "credits" (get "credits" fs); n ← to_int v; ok (credits_at_least n))
      else if kind == "placement" || kind == "permission"
      then (do v ← required "value" (get "value" fs); ok (predicate kind (to_text v)))
      else if kind == "corequisite"
      then (do items ← from_sequence f (get "items" fs); ok (co_requisite items))
      else err (value_error (concat ("unknown prerequisite AST node: " ∷ kind ∷ [])))

  -- `kind in {"placement", "permission"}` needs a hashable kind.
  unfoldable pub from_type : (Json → Result Expr) → Option Json → Fields → Result Expr
  unfolding from_kind
  from_type f (some (str kind)) fs = from_kind f kind fs
  from_type f (some (arr vs)) fs = err (type_error "unhashable type: 'list'")
  from_type f (some (obj gs)) fs = err (type_error "unhashable type: 'dict'")
  from_type f none fs = err (value_error "unknown prerequisite AST node: None")
  from_type f (some v) fs =
      err (value_error (concat ("unknown prerequisite AST node: " ∷ text_of v ∷ [])))

  unfoldable pub from_value : (Json → Result Expr) → Json → Result Expr
  unfolding from_type get
  from_value f (obj fs) = from_type f (get "type" fs) fs
  from_value f v = err (attribute_error "get")

  -- `expr_from_dict` with the interpreter's limit on the depth of calls.
  unfoldable pub from_dict : ℕ → Json → Result Expr
  unfolding from_value
  from_dict zero v = err (recursion_error "maximum recursion depth exceeded")
  from_dict (suc n) v = from_value (from_dict n) v

  -- The limit is the depth of the value, which is enough.
  unfoldable pub expr_from_dict : Json → Result Expr
  unfolding from_dict depth
  expr_from_dict v = from_dict (depth v) v
