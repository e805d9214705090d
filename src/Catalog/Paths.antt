-- ===== src/Catalog/Paths.antt =====
-- Paths in the graph of prerequisites, and what one round of the search does.
use boiler_reviews.Prelude.{
  ℕ, ◌+◌, ◌≤◌, ◌<◌, ◌≡◌, refl, inl, inr, ◌⊎◌, String, Bool, true, false, List, [], ◌∷◌, ◌++◌, arith,
  map, length, length-append, ◌==◌, string_eq, ◌||◌, not, if◌then◌else◌, select, contains, All,
  Bool-cases,
}
use boiler_reviews.Catalog.Graph.{GraphEdge, prerequisite_of, prerequisites_of, Frontier, visit_all}

-- The dependency paths from `start`: each node is a prerequisite of the one before it.
pub data Route (es : List GraphEdge) (start : String) : String → List String → Type 0 where
  here : {p : List String} → p ≡ start ∷ [] → Route es start start p
  further :
      {n m : String} {p q : List String}
      → Route es start n p
      → contains (prerequisites_of es n) m ≡ true
      → q ≡ p ++ m ∷ []
      → Route es start m q

-- The nodes of a frontier.
abbrev pub in_frontier : Frontier → String → Bool
in_frontier frontier v = contains (map (λ x. x.0) frontier) v

pub in_frontier-append :
    (xs ys : Frontier) (v : String)
    → in_frontier (xs ++ ys) v ≡ (in_frontier xs v || in_frontier ys v)
in_frontier-append [] ys v = refl
in_frontier-append (x ∷ xs) ys v = ground (arith, in_frontier-append xs ys v)

-- What was visited stays visited.
pub visit_all-keeps :
    (path ns visited : List String) (frontier : Frontier) (v : String)
    → contains visited v ≡ true
    → contains (visit_all path ns visited frontier).0 v ≡ true
unfolding visit_all
visit_all-keeps path [] visited frontier v h = h
visit_all-keeps path (n ∷ ns) visited frontier v h =
    visit_all-keeps path ns _ _ v (ground (arith, h))

-- Every prerequisite of the node is visited.
pub visit_all-covers :
    (path ns visited : List String) (frontier : Frontier) (v : String)
    → contains ns v ≡ true
    → contains (visit_all path ns visited frontier).0 v ≡ true
unfolding visit_all
visit_all-covers path [] visited frontier v h = absurd (cc)
visit_all-covers path (n ∷ ns) visited frontier v h = elim (Bool-cases (n == v)) [
  | inl same ↦ visit_all-keeps path ns _ _ v (ground (arith, string_eq.beq_iff n v, same))
  | inr other ↦ visit_all-covers path ns _ _ v (rw other at h)
]

-- The frontier only grows.
pub visit_all-grows :
    (path ns visited : List String) (frontier : Frontier) (v : String)
    → in_frontier frontier v ≡ true
    → in_frontier (visit_all path ns visited frontier).1 v ≡ true
unfolding visit_all
visit_all-grows path [] visited frontier v h = h
visit_all-grows path (n ∷ ns) visited frontier v h =
    visit_all-grows path ns _ _ v
      (ground (arith, h, in_frontier-append frontier ((n, path ++ n ∷ []) ∷ []) v))

-- The visited nodes and the frontier after one prerequisite.
abbrev seen : String → List String → List String
seen n visited = if contains visited n then visited else n ∷ visited

abbrev pushed : List String → String → List String → Frontier → Frontier
pushed path n visited frontier =
    if contains visited n then frontier else frontier ++ (n, path ++ n ∷ []) ∷ []

seen-pushed :
    (path : List String) (n : String) (visited : List String) (frontier : Frontier) (v : String)
    → contains (seen n visited) v ≡ true
    → (contains visited v ≡ true) ⊎ (in_frontier (pushed path n visited frontier) v ≡ true)
seen-pushed path n visited frontier v h = elim (Bool-cases (contains visited n)) [
  | inl old ↦ inl (rw old at h)
  | inr fresh ↦ elim (Bool-cases (contains visited v)) [
    | inl before ↦ inl before
    | inr new ↦ inr (
        ground (
          arith,
          h,
          fresh,
          new,
          in_frontier-append frontier ((n, path ++ n ∷ []) ∷ []) v,
          string_eq.beq_iff n v,
        ))
  ]
]

-- A node that is visited was so before, or is in the frontier.
pub visit_all-frontier :
    (path ns visited : List String) (frontier : Frontier) (v : String)
    → contains (visit_all path ns visited frontier).0 v ≡ true
    → (contains visited v ≡ true) ⊎ (in_frontier (visit_all path ns visited frontier).1 v ≡ true)
unfolding visit_all
visit_all-frontier path [] visited frontier v h = inl h
visit_all-frontier path (n ∷ ns) visited frontier v h =
    elim (visit_all-frontier path ns (seen n visited) (pushed path n visited frontier) v h) [
      | inr later ↦ inr later
      | inl now ↦ elim (seen-pushed path n visited frontier v now) [
        | inl before ↦ inl before
        | inr queued ↦
            inr (visit_all-grows path ns (seen n visited) (pushed path n visited frontier) v queued)
      ]
    ]

-- The frontier holds routes, if the prerequisites extend one.
abbrev pub HoldsRoutes : List GraphEdge → String → Frontier → Type 0
HoldsRoutes es start frontier = All (λ x. Route es start x.0 x.1) frontier

All-push :
    (es : List GraphEdge) (start : String) (frontier : Frontier) (x : String × List String)
    → HoldsRoutes es start frontier
    → Route es start x.0 x.1
    → HoldsRoutes es start (frontier ++ x ∷ [])
All-push es start [] x h r = (r, tt)
All-push es start (y ∷ frontier) x (q, h) r = (q, All-push es start frontier x h r)

pub visit_all-HoldsRoutes :
    (es : List GraphEdge) (start current : String) (path ns visited : List String)
    (frontier : Frontier)
    → Route es start current path
    → All (λ n. contains (prerequisites_of es current) n ≡ true) ns
    → HoldsRoutes es start frontier
    → HoldsRoutes es start (visit_all path ns visited frontier).1
unfolding visit_all
visit_all-HoldsRoutes es start current path [] visited frontier r ns h = h
visit_all-HoldsRoutes es start current path (n ∷ ns) visited frontier r (e, rest) h =
    visit_all-HoldsRoutes es start current path ns (seen n visited) (pushed path n visited frontier)
      r rest grown
  where
    grown : HoldsRoutes es start (pushed path n visited frontier)
    grown = elim (Bool-cases (contains visited n)) [
      | inl old ↦ rw old h
      | inr fresh ↦ rw fresh (All-push es start frontier (n, path ++ n ∷ []) h (further r e refl))
    ]

-- The edges whose prerequisite was not visited.
abbrev pub unvisited : List GraphEdge → List String → ℕ
unvisited es visited = length (select (λ e. not (contains visited e.prerequisite)) es)

unvisited-le :
    (es : List GraphEdge) (n : String) (visited : List String)
    → unvisited es (n ∷ visited) ≤ unvisited es visited
unvisited-le [] n visited = omega arith
unvisited-le (e ∷ es) n visited = ground (arith, unvisited-le es n visited)

unvisited-lt :
    (es : List GraphEdge) (n : String) (visited : List String)
    → contains visited n ≡ false
    → contains (map prerequisite_of es) n ≡ true
    → unvisited es (n ∷ visited) < unvisited es visited
unvisited-lt [] n visited fresh h = absurd (cc)
unvisited-lt (e ∷ es) n visited fresh h = elim (Bool-cases (e.prerequisite == n)) [
  | inl same ↦ ground (
    arith,
    string_eq.beq_iff e.prerequisite n,
    string_eq.beq_iff n e.prerequisite,
    unvisited-le es n visited,
    fresh,
    same,
  )
  | inr other ↦
      ground (arith, unvisited-lt es n visited fresh (rw other at h), unvisited-le es n visited)
]

length-frontier : (xs ys : Frontier) → length (xs ++ ys) ≡ length xs + length ys
length-frontier = length-append

push-measure :
    (es : List GraphEdge) (path : List String) (n : String) (visited : List String)
    (frontier : Frontier)
    → contains (map prerequisite_of es) n ≡ true
    → length (pushed path n visited frontier) + unvisited es (seen n visited)
      ≤ length frontier + unvisited es visited
push-measure es path n visited frontier e = elim (Bool-cases (contains visited n)) [
  | inl old ↦ rw old (omega arith)
  | inr fresh ↦ rw fresh (
      omega (
        arith,
        unvisited-lt es n visited fresh e,
        length-frontier frontier ((n, path ++ n ∷ []) ∷ []),
      ))
]

-- A round pays for what it puts into the frontier with nodes that were not visited.
pub visit_all-measure :
    (es : List GraphEdge) (path ns visited : List String) (frontier : Frontier)
    → All (λ n. contains (map prerequisite_of es) n ≡ true) ns
    → length (visit_all path ns visited frontier).1
        + unvisited es (visit_all path ns visited frontier).0
      ≤ length frontier + unvisited es visited
unfolding visit_all
visit_all-measure es path [] visited frontier h = omega arith
visit_all-measure es path (n ∷ ns) visited frontier (e, rest) = omega (
  arith,
  push-measure es path n visited frontier e,
  visit_all-measure es path ns (seen n visited) (pushed path n visited frontier) rest,
)
