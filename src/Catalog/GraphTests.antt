-- ===== src/Catalog/GraphTests.antt =====
-- The graph of prerequisites at concrete inputs.
use boiler_reviews.Prelude.{◌≡◌, refl, String, [], ◌∷◌}
use boiler_reviews.Prelude.Sort.{sorted_by}
use boiler_reviews.Prelude.Dict.{lookup, distinct}
use boiler_reviews.Catalog.Ast.{Expr, course_ref, all_of, co_requisite, nil, cons}
use boiler_reviews.Catalog.Graph.{
  PrerequisiteGraph, edges, edges_of, walk_edges, found, visit_all, search_path, unknown_references,
  dependency_path,
}
use boiler_reviews.Catalog.Dependencies.{IsAnswer, dependency_path-IsAnswer}

abbrev ref : String → Expr
ref code = course_ref (record { code = code })

-- CS 3 needs CS 2 and MA 1, CS 2 needs CS 1, and CS 1 goes with CS 3.
abbrev sample : PrerequisiteGraph
sample = record {
  expressions =
      ("CS3", all_of (cons (ref "CS2") (cons (ref "MA1") nil)))
      ∷ ("CS2", ref "CS1")
      ∷ ("CS1", co_requisite (cons (ref "CS3") nil))
      ∷ [];
  provenance = [];
}

path_found : dependency_path sample "CS3" "CS1" ≡ found ("CS3" ∷ "CS2" ∷ "CS1" ∷ [])
unfolding dependency_path search_path visit_all edges_of walk_edges lookup sorted_by
path_found = refl

unknown_found : unknown_references sample ("CS1" ∷ "CS2" ∷ "CS3" ∷ []) ≡ "MA1" ∷ []
unfolding unknown_references edges_of walk_edges lookup distinct
unknown_found = refl

dependency_path-IsAnswer_example :
    IsAnswer (edges sample) "MA1" "CS3" (dependency_path sample "MA1" "CS3")
dependency_path-IsAnswer_example = dependency_path-IsAnswer sample "MA1" "CS3"
