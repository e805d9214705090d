-- ===== src/Sections/Linked.antt =====
-- src/boiler_reviews/sections/linked.py.
use boiler_reviews.Prelude.{
  suc, ◌+◌, ◌≡◌, refl, ◌∙◌, arith, String, Bool, true, false, Option, none, some, List, [], ◌∷◌,
  ◌++◌, map, length, length-append, ◌==◌, nat_eq, string_eq, option_eq, ◌&&◌, not, if◌then◌else◌,
  select, all, concat, ltb,
}
use boiler_reviews.Prelude.Text.{is_empty}
use boiler_reviews.Prelude.Dict.{lookup}
use boiler_reviews.Catalog.Evaluate.{get_or}
use boiler_reviews.Sections.Scheduler.{SectionOption}

pub record LinkedSectionGroup : Type 0 where
  pub group_id : String
  pub course_code : String
  pub section_ids : List String
  pub required_kinds : List String

pub record LinkedSectionValidation : Type 0 where
  pub valid : Bool
  pub missing_groups : List String
  pub duplicate_groups : List String
  pub explanations : List String

abbrev pub ByGroup : Type 0
ByGroup = List (String × List SectionOption)

-- `by_group.setdefault(group, []).append(option)`
abbrev pub append_to : String → SectionOption → ByGroup → ByGroup
append_to group o [] = (group, o ∷ []) ∷ []
append_to group o ((key, options) ∷ d) =
    let rest = append_to group o d in
    if key == group then (key, options ++ o ∷ []) ∷ d else (key, options) ∷ rest

abbrev pub add_linked : Option String → SectionOption → ByGroup → ByGroup
add_linked none o d = d
add_linked (some group) o d = if is_empty group then d else append_to group o d

abbrev pub by_group : ByGroup → List SectionOption → ByGroup
by_group d [] = d
by_group d (o ∷ options) = by_group (add_linked o.linked_group o d) options

abbrev pub values : ByGroup → LinkedSectionGroup → List SectionOption
values d group = get_or [] group.group_id d

abbrev pub is_missing : ByGroup → LinkedSectionGroup → Bool
is_missing d group = ltb (length (values d group)) (length group.required_kinds)

abbrev pub is_duplicate : ByGroup → LinkedSectionGroup → Bool
is_duplicate d group = ltb (length group.required_kinds) (length (values d group))

-- `', '.join(kinds)`
abbrev pub comma_text : List String → String
comma_text [] = ""
comma_text (k ∷ []) = k
comma_text (k ∷ kinds) = concat (k ∷ ", " ∷ comma_text kinds ∷ [])

abbrev pub explain : ByGroup → LinkedSectionGroup → List String
explain d group =
    (if is_missing d group
      then concat
          (group.course_code ∷ " needs linked components " ∷ comma_text group.required_kinds ∷ [])
        ∷ []
      else [])
    ++ (if is_duplicate d group
        then concat
            (group.course_code ∷ " has too many sections in linked group " ∷ group.group_id ∷ [])
          ∷ []
        else [])

abbrev pub explain_all : ByGroup → List LinkedSectionGroup → List String
explain_all d [] = []
explain_all d (group ∷ groups) = explain d group ++ explain_all d groups

abbrev pub ids_of : List LinkedSectionGroup → List String
ids_of groups = map (λ group. group.group_id) groups

abbrev pub is_none : List LinkedSectionGroup → Bool
is_none [] = true
is_none (group ∷ groups) = false

unfoldable pub validate_linked_sections :
    List SectionOption → List LinkedSectionGroup → LinkedSectionValidation
unfolding get_or lookup
validate_linked_sections options groups =
    let d = by_group [] options in
    let missing = select (is_missing d) groups in
    let duplicates = select (is_duplicate d) groups in
    record {
      valid = is_none missing && is_none duplicates;
      missing_groups = ids_of missing;
      duplicate_groups = ids_of duplicates;
      explanations = explain_all d groups;
    }

-- The options of a group, counted one by one; the empty name is no group.
abbrev pub linked_to : String → SectionOption → Bool
linked_to group o = o.linked_group == some group && not (is_empty group)

append_to-length :
    (group key : String) (o : SectionOption) (d : ByGroup)
    → length (get_or [] key (append_to group o d))
      ≡ (if group == key then suc (length (get_or [] key d)) else length (get_or [] key d))
unfolding get_or lookup
append_to-length group key o [] = ground arith
append_to-length group key o ((k, options) ∷ d) = ground (
  arith,
  string_eq.beq_iff k group,
  string_eq.beq_iff k key,
  string_eq.beq_iff group key,
  length-append options (o ∷ []),
  append_to-length group key o d,
)

add_linked-length :
    (key : String) (l : Option String) (o : SectionOption) (d : ByGroup)
    → length (get_or [] key (add_linked l o d)) ≡ (
        if l == some key && not (is_empty key)
        then suc (length (get_or [] key d))
        else length (get_or [] key d))
add_linked-length key none o d = ground arith
add_linked-length key (some group) o d =
    ground (arith, string_eq.beq_iff group key, append_to-length group key o d)

by_group-length :
    (key : String) (options : List SectionOption) (d : ByGroup)
    → length (get_or [] key (by_group d options))
      ≡ length (get_or [] key d) + length (select (linked_to key) options)
by_group-length key [] d = omega arith
by_group-length key (o ∷ options) d = ground (
  arith,
  by_group-length key options (add_linked o.linked_group o d),
  add_linked-length key o.linked_group o d,
)

exact :
    (d : ByGroup) (groups : List LinkedSectionGroup)
    → (is_none (select (is_missing d) groups) && is_none (select (is_duplicate d) groups))
      ≡ all (λ group. length (values d group) == length group.required_kinds) groups
exact d [] = refl
exact d (group ∷ groups) =
    ground (
      arith,
      nat_eq.beq_iff (length (values d group)) (length group.required_kinds),
      exact d groups,
    )

by_group_start :
    (key : String) (options : List SectionOption)
    → length (get_or [] key (by_group [] options)) ≡ length (select (linked_to key) options)
unfolding get_or lookup
by_group_start key options = omega (arith, by_group-length key options [])

count_linked :
    (options : List SectionOption) (groups : List LinkedSectionGroup)
    → all
        (λ group. length (values (by_group [] options) group) == length group.required_kinds)
        groups
      ≡ all
          (λ group.
            length (select (linked_to group.group_id) options) == length group.required_kinds)
          groups
unfolding get_or lookup
count_linked options [] = refl
count_linked options (group ∷ groups) =
    rw (by_group_start group.group_id options, count_linked options groups) refl

-- The linked sections are valid exactly if each group has as many selected options as it needs kinds, where
-- an option belongs to the group that it names, and the empty name is no group.
pub validate_linked_sections-valid :
    (options : List SectionOption) (groups : List LinkedSectionGroup)
    → (validate_linked_sections options groups).valid
      ≡ all
          (λ group.
            length (select (linked_to group.group_id) options) == length group.required_kinds)
          groups
unfolding validate_linked_sections
validate_linked_sections-valid options groups =
    exact (by_group [] options) groups ∙ count_linked options groups
