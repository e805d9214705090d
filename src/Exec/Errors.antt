-- ===== src/Exec/Errors.antt =====
-- src/boiler_reviews/common/errors.py, with Python's own exceptions that the modelled code meets,
-- and the `IntegrityError` that the database raises on a violated constraint.
use boiler_reviews.Prelude.{String, List, Bool, true, false}

pub data Error : Type 0 where
  not_found conflict permission_denied infeasible_plan : String → Error
  validation : String → List (String × String) → Error
  assertion_error integrity_error attribute_error value_error type_error key_error recursion_error :
      String → Error

pub data Result (A : Type 0) : Type 0 where
  ok : A → Result A
  err : Error → Result A

abbrev pub is_assertion : Error → Bool
is_assertion (assertion_error _) = true
is_assertion _ = false
