-- ===== src/Catalog/Graph.antt =====
-- `PrerequisiteGraph` of src/boiler_reviews/catalog/graph.py: its edges, the unknown references and the
-- dependency path.
use boiler_reviews.Prelude.{
  ℕ, zero, suc, ◌+◌, String, Option, none, some, List, [], ◌∷◌, ◌++◌, map, length, ◌==◌, string_eq,
  not, if◌then◌else◌, select, contains,
}
use boiler_reviews.Prelude.Dict.{lookup, distinct}
use boiler_reviews.Prelude.Sort.{sorted_by, leb_text}
use boiler_reviews.Catalog.Ast.{
  CourseRef, Expr, Exprs, course_ref, all_of, any_of, co_requisite, grade_at_least,
  credits_at_least, predicate, nil, cons,
}

-- The relations "strict" and "corequisite".
pub data Relation : Type 0 where
  strict corequisite : Relation

pub record GraphEdge : Type 0 where
  pub prerequisite : String
  pub dependent : String
  pub relation : Relation
  pub source_text : String

pub record PrerequisiteGraph : Type 0 where
  pub expressions : List (String × Expr)
  pub provenance : List (String × String)

abbrev text_or_empty : Option String → String
text_or_empty none = ""
text_or_empty (some s) = s

abbrev pub edge : PrerequisiteGraph → String → Relation → CourseRef → GraphEdge
edge g dependent relation c = record {
  prerequisite = c.code;
  dependent = dependent;
  relation = relation;
  source_text = text_or_empty (lookup dependent g.provenance);
}

-- `_walk_edges`
unfoldable mutual
  unfolding lookup

  pub walk_edges : PrerequisiteGraph → Expr → String → Relation → List GraphEdge
  walk_edges g (course_ref c) dependent relation = edge g dependent relation c ∷ []
  walk_edges g (grade_at_least c grade) dependent relation = edge g dependent relation c ∷ []
  walk_edges g (co_requisite items) dependent relation = walk_items g items dependent corequisite
  walk_edges g (all_of items) dependent relation = walk_items g items dependent relation
  walk_edges g (any_of items) dependent relation = walk_items g items dependent relation
  walk_edges g (predicate kind value) dependent relation = []
  walk_edges g (credits_at_least credits) dependent relation = []

  pub walk_items : PrerequisiteGraph → Exprs → String → Relation → List GraphEdge
  walk_items g nil dependent relation = []
  walk_items g (cons e items) dependent relation =
      walk_edges g e dependent relation ++ walk_items g items dependent relation

-- `_edges`
unfoldable pub edges_of : PrerequisiteGraph → List (String × Expr) → List GraphEdge
unfolding walk_edges
edges_of g [] = []
edges_of g ((dependent, e) ∷ expressions) =
    walk_edges g e dependent strict ++ edges_of g expressions

abbrev pub edges : PrerequisiteGraph → List GraphEdge
edges g = edges_of g g.expressions

abbrev pub prerequisite_of : GraphEdge → String
prerequisite_of e = e.prerequisite

unfoldable pub unknown_references : PrerequisiteGraph → List String → List String
unfolding edges_of distinct
unknown_references g known =
    distinct (map prerequisite_of (select (λ e. not (contains known e.prerequisite)) (edges g)))

-- `adjacency.get(current, [])`
abbrev pub prerequisites_of : List GraphEdge → String → List String
prerequisites_of es current = map prerequisite_of (select (λ e. e.dependent == current) es)

-- A node with the path to it.
abbrev pub Frontier : Type 0
Frontier = List (String × List String)

-- The loop over the prerequisites of a node: the nodes that were visited, and the frontier.
unfoldable pub visit_all :
    List String → List String → List String → Frontier → List String × Frontier
visit_all path [] visited frontier = (visited, frontier)
visit_all path (n ∷ ns) visited frontier =
    visit_all path ns (if contains visited n then visited else n ∷ visited)
      (if contains visited n then frontier else frontier ++ (n, path ++ n ∷ []) ∷ [])

pub data Outcome : Type 0 where
  found : List String → Outcome
  no_path out_of_fuel : Outcome

-- The `while` loop.
unfoldable pub search_path : List GraphEdge → String → ℕ → List String → Frontier → Outcome
unfolding visit_all sorted_by
search_path es target zero visited frontier = out_of_fuel
search_path es target (suc fuel) visited [] = no_path
search_path es target (suc fuel) visited ((current, path) ∷ frontier) =
    let next = visit_all path (sorted_by leb_text (prerequisites_of es current)) visited frontier in
    let rest = search_path es target fuel next.0 next.1 in
    if current == target then found path else rest

-- A node enters the frontier once, so the edges and two more rounds are enough.
unfoldable pub dependency_path : PrerequisiteGraph → String → String → Outcome
unfolding search_path edges_of
dependency_path g start target =
    search_path (edges g) target (length (edges g) + 2) (start ∷ []) ((start, start ∷ []) ∷ [])
