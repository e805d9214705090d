-- ===== src/Catalog/Dependencies.antt =====
-- `dependency_path` finds a path if there is one, and always ends.
use mathlib.Core.Path.{subst}
use boiler_reviews.Prelude.{
  ℕ, zero, suc, ◌+◌, ◌≤◌, ◌<◌, ◌≡◌, refl, sym, ◌∙◌, inl, inr, ◌⊎◌, String, true, false, List, [],
  ◌∷◌, arith, map, length, ◌==◌, string_eq, contains, All, Bool-cases,
}
use boiler_reviews.Prelude.Sort.{sorted_by, leb_text, sorted_by-All, contains-sorted_by}
use boiler_reviews.Catalog.Graph.{
  GraphEdge, PrerequisiteGraph, edges, prerequisite_of, prerequisites_of, Frontier, visit_all,
  Outcome, found, no_path, out_of_fuel, search_path, dependency_path,
}
use boiler_reviews.Catalog.Paths.{
  Route, here, further, in_frontier, visit_all-keeps, visit_all-covers, visit_all-frontier,
  visit_all-grows, HoldsRoutes, visit_all-HoldsRoutes, unvisited, visit_all-measure,
}

prerequisites-All :
    (es : List GraphEdge) (current : String)
    → All (λ n. contains (map prerequisite_of es) n ≡ true) (prerequisites_of es current)
prerequisites-All es current = go es (λ v h. h)
  where
    go :
        (part : List GraphEdge)
        → ((v : String)
            → contains (map prerequisite_of part) v ≡ true
            → contains (map prerequisite_of es) v ≡ true)
        → All (λ n. contains (map prerequisite_of es) n ≡ true) (prerequisites_of part current)
    go [] h = tt
    go (e ∷ part) h = elim (Bool-cases (e.dependent == current)) [
      | inl mine ↦ rw mine (
        h e.prerequisite (ground (arith, string_eq.beq_iff e.prerequisite e.prerequisite)),
        go part (λ v k. h v (ground (arith, k))),
      )
      | inr other ↦ rw other (go part (λ v k. h v (ground (arith, k))))
    ]

own-All : (xs : List String) → All (λ n. contains xs n ≡ true) xs
own-All xs = go xs (λ v h. h)
  where
    go :
        (part : List String)
        → ((v : String) → contains part v ≡ true → contains xs v ≡ true)
        → All (λ n. contains xs n ≡ true) part
    go [] h = tt
    go (x ∷ part) h =
        (h x (ground (arith, string_eq.beq_iff x x)), go part (λ v k. h v (ground (arith, k))))

module _ (es : List GraphEdge) (start target : String) where
  -- A visited node waits in the frontier, or is not the target and has all its prerequisites visited.
  abbrev IsClosed : List String → Frontier → Type 0
  IsClosed visited frontier =
      (v : String)
      → contains visited v ≡ true
      → (in_frontier frontier v ≡ true)
        ⊎ (((v == target) ≡ false)
            × ((m : String)
                → contains (prerequisites_of es v) m ≡ true
                → contains visited m ≡ true))

  -- What the search reports is right.
  abbrev pub IsAnswer : Outcome → Type 0
  IsAnswer (found p) = Route es start target p
  IsAnswer no_path = (p : List String) → Route es start target p → ⊥
  IsAnswer out_of_fuel = ⊥

  closed-visits :
      (visited : List String)
      → IsClosed visited []
      → contains visited start ≡ true
      → {v : String} {p : List String} → Route es start v p
      → contains visited v ≡ true
  closed-visits visited closed started (here e) = started
  closed-visits visited closed started (further {n} {m} r step e) =
      elim (closed n (closed-visits visited closed started r)) [
        | inl waiting ↦ absurd (cc)
        | inr (other, all_in) ↦ all_in m step
      ]

  closed-none :
      (visited : List String)
      → IsClosed visited []
      → contains visited start ≡ true
      → (p : List String) → Route es start target p
      → ⊥
  closed-none visited closed started p r =
      elim (closed target (closed-visits visited closed started r)) [
        | inl waiting ↦ cc
        | inr (other, all_in) ↦ ground (arith, string_eq.beq_iff target target, other)
      ]

  abbrev next : String → List String → List String → Frontier → List String × Frontier
  next current path visited frontier =
      visit_all path (sorted_by leb_text (prerequisites_of es current)) visited frontier

  waiting-closed :
      (current v : String) (path visited : List String) (frontier : Frontier)
      → (current == target) ≡ false
      → in_frontier ((current, path) ∷ frontier) v ≡ true
      → (in_frontier (next current path visited frontier).1 v ≡ true)
        ⊎ (((v == target) ≡ false)
            × ((m : String)
                → contains (prerequisites_of es v) m ≡ true
                → contains (next current path visited frontier).0 m ≡ true))
  waiting-closed current v path visited frontier other h = elim (Bool-cases (current == v)) [
    | inl same ↦
        let e = (string_eq.beq_iff current v).0 same in
        inr (
          subst (λ x. (x == target) ≡ false) e other,
          λ m k.
              visit_all-covers path (sorted_by leb_text (prerequisites_of es current)) visited
                frontier m
                (contains-sorted_by m (prerequisites_of es current)
                  ∙ subst (λ x. contains (prerequisites_of es x) m ≡ true) (sym e) k),
        )
    | inr later ↦ inl (
        visit_all-grows path (sorted_by leb_text (prerequisites_of es current)) visited frontier v
          (rw later at h))
  ]

  next-IsClosed :
      (current : String) (path visited : List String) (frontier : Frontier)
      → (current == target) ≡ false
      → IsClosed visited ((current, path) ∷ frontier)
      → IsClosed (next current path visited frontier).0 (next current path visited frontier).1
  next-IsClosed current path visited frontier other closed v h =
      let ns = sorted_by leb_text (prerequisites_of es current) in
      elim (visit_all-frontier path ns visited frontier v h) [
        | inr queued ↦ inl queued
        | inl before ↦ elim (closed v before) [
          | inl waiting ↦ waiting-closed current v path visited frontier other waiting
          | inr (away, all_in) ↦
              inr (away, λ m k. visit_all-keeps path ns visited frontier m (all_in m k))
        ]
      ]

  search_path-IsAnswer :
      (fuel : ℕ) (visited : List String) (frontier : Frontier)
      → IsClosed visited frontier
      → contains visited start ≡ true
      → HoldsRoutes es start frontier
      → length frontier + unvisited es visited < fuel
      → IsAnswer (search_path es target fuel visited frontier)
  unfolding search_path
  search_path-IsAnswer zero visited frontier closed started routes h = absurd (omega arith)
  search_path-IsAnswer (suc fuel) visited [] closed started routes h =
      closed-none visited closed started
  search_path-IsAnswer (suc fuel) visited ((current, path) ∷ frontier) closed started (r, routes)
        h =
      elim (Bool-cases (current == target)) [
        | inl done ↦
            rw done
              (subst (λ x. Route es start x path) ((string_eq.beq_iff current target).0 done) r)
        | inr other ↦
            let ns = sorted_by leb_text (prerequisites_of es current) in
            rw other (
              search_path-IsAnswer fuel (next current path visited frontier).0
                (next current path visited frontier).1
                (next-IsClosed current path visited frontier other closed)
                (visit_all-keeps path ns visited frontier start started)
                (visit_all-HoldsRoutes es start current path ns visited frontier r
                  (sorted_by-All (λ n. contains (prerequisites_of es current) n ≡ true) leb_text _
                    (own-All (prerequisites_of es current)))
                  routes)
                (omega (
                  arith,
                  visit_all-measure es path ns visited frontier (
                      sorted_by-All (λ n. contains (map prerequisite_of es) n ≡ true) leb_text _
                        (prerequisites-All es current)),
                  h,
                )))
      ]

  unvisited-le-length :
      (part : List GraphEdge) (visited : List String) → unvisited part visited ≤ length part
  unvisited-le-length [] visited = omega arith
  unvisited-le-length (e ∷ part) visited = ground (arith, unvisited-le-length part visited)

  start-IsClosed : IsClosed (start ∷ []) ((start, start ∷ []) ∷ [])
  start-IsClosed v h = inl h

  start-IsAnswer :
      IsAnswer (search_path es target (length es + 2) (start ∷ []) ((start, start ∷ []) ∷ []))
  start-IsAnswer =
      search_path-IsAnswer (length es + 2) (start ∷ []) ((start, start ∷ []) ∷ []) start-IsClosed
        (ground (arith, string_eq.beq_iff start start)) (here refl, tt)
        (omega (arith, unvisited-le-length es (start ∷ [])))

-- `dependency_path` always ends; the path that it returns leads from the first course to the second,
-- each course a prerequisite of the one before it, and it returns none only if there is no such path.
pub dependency_path-IsAnswer :
    (g : PrerequisiteGraph) (start target : String)
    → IsAnswer (edges g) start target (dependency_path g start target)
unfolding dependency_path
dependency_path-IsAnswer g start target = start-IsAnswer (edges g) start target
