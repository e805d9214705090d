-- ===== src/Prelude/Json.antt =====
-- JSON values, as `json` and the JSON columns hold them.
use Prim.Native.String.{String}
use mathlib.Core.Path.{◌≡◌, refl}
use mathlib.Core.Bool.{Bool, true, false, ◌&&◌, not}
use boiler_reviews.Prelude.Classes.{◌==◌, nat_eq, string_eq}
use boiler_reviews.Prelude.Int.{ℤ, pos, negsuc}

mutual
  pub data Json : Type 0 where
    null : Json
    bool : Bool → Json
    num : ℤ → Json
    str : String → Json
    arr : Items → Json
    obj : Fields → Json

  pub data Items : Type 0 where
    nil : Items
    cons : Json → Items → Items

  pub data Fields : Type 0 where
    end : Fields
    field : String → Json → Fields → Fields

abbrev pub same_bool : Bool → Bool → Bool
same_bool true b = b
same_bool false b = not b

-- Whether two values are the same.
unfoldable mutual
  pub same_json : Json → Json → Bool
  same_json null null = true
  same_json (bool a) (bool b) = same_bool a b
  same_json (num (pos a)) (num (pos b)) = a == b
  same_json (num (negsuc a)) (num (negsuc b)) = a == b
  same_json (str a) (str b) = a == b
  same_json (arr a) (arr b) = same_items a b
  same_json (obj a) (obj b) = same_fields a b
  same_json _ _ = false

  pub same_items : Items → Items → Bool
  same_items nil nil = true
  same_items (cons a x) (cons b y) = same_json a b && same_items x y
  same_items _ _ = false

  pub same_fields : Fields → Fields → Bool
  same_fields end end = true
  same_fields (field k a x) (field j b y) = k == j && (same_json a b && same_fields x y)
  same_fields _ _ = false

mutual
  unfolding same_json

  pub same_json_refl : (a : Json) → same_json a a ≡ true
  same_json_refl null = refl
  same_json_refl (bool true) = refl
  same_json_refl (bool false) = refl
  same_json_refl (num (pos a)) = (nat_eq.beq_iff a a).1 refl
  same_json_refl (num (negsuc a)) = (nat_eq.beq_iff a a).1 refl
  same_json_refl (str a) = (string_eq.beq_iff a a).1 refl
  same_json_refl (arr a) = same_items_refl a
  same_json_refl (obj a) = same_fields_refl a

  same_items_refl : (x : Items) → same_items x x ≡ true
  same_items_refl nil = refl
  same_items_refl (cons a x) = rw (same_json_refl a) (same_items_refl x)

  same_fields_refl : (x : Fields) → same_fields x x ≡ true
  same_fields_refl end = refl
  same_fields_refl (field k a x) =
      rw ((string_eq.beq_iff k k).1 refl, same_json_refl a) (same_fields_refl x)
