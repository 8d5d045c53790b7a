-- ===== src/Dag/Edges.antt =====
-- extractors/base.py: the dependency graph as a list of edges, and the dictionaries that
-- `_resolve_dag` builds from it.
use mathlib.Core.List.{append-nil, append_assoc}
use vantacore_engine.Prelude.{
  List, [], ap, arith, false, if◌then◌else◌, mem, mem-append_one, not, occurrences, refl, sym, ℕ,
  ◌&&◌, ◌++◌, ◌+◌, ◌==◌, ◌∙◌, ◌∷◌, ◌≡◌,
}
use vantacore_engine.Dag.{Name, Extractor, Graph, add_edge, add_dependencies, add_extractors}

-- A dependency among the extractors, and the extractor that has it.
abbrev pub Edge : Type 0
Edge = Name × Name

abbrev pub edges_of : List Name → Name → List Name → List Edge
edges_of keys name [] = []
edges_of keys name (dep ∷ deps) =
    let rest = edges_of keys name deps in if mem dep keys then (dep, name) ∷ rest else rest

abbrev pub edges : List Name → List Extractor → List Edge
edges keys [] = []
edges keys (e ∷ es) = edges_of keys e.name e.dependencies ++ edges keys es

-- How many edges into `n` come from a name that is not in `done`.
abbrev pub pending : List Name → Name → List Edge → ℕ
pending done n [] = 0
pending done n ((dep, m) ∷ rest) =
    (if m == n && not (mem dep done) then 1 else 0) + pending done n rest

-- The ends of the edges from `dep`.
abbrev pub targets : Name → List Edge → List Name
targets dep [] = []
targets dep ((d, m) ∷ rest) = let ms = targets dep rest in if d == dep then m ∷ ms else ms

pub pending-append :
    (done : List Name) (n : Name) (xs ys : List Edge)
    → pending done n (xs ++ ys) ≡ pending done n xs + pending done n ys
pending-append done n [] ys = omega arith
pending-append done n ((dep, m) ∷ xs) ys = omega (arith, pending-append done n xs ys)

targets-append :
    (dep : Name) (xs ys : List Edge) → targets dep (xs ++ ys) ≡ targets dep xs ++ targets dep ys
targets-append dep [] ys = refl
targets-append dep ((d, m) ∷ xs) ys = ground (arith, targets-append dep xs ys)

-- A visit of `node` takes away from each name as many edges as it has from `node`.
pub pending-visit :
    (done : List Name) (node n : Name) (es : List Edge)
    → mem node done ≡ false
    → pending (done ++ (node ∷ [])) n es + occurrences n (targets node es) ≡ pending done n es
pending-visit done node n [] h = omega arith
pending-visit done node n ((dep, m) ∷ es) h =
    ground (arith, pending-visit done node n es h, mem-append_one done node dep)

add_dependencies_lem :
    (keys : List Name) (name : Name) (g : Graph) (deps : List Name) (n : Name)
    → let g' = add_dependencies keys name g deps in
      let es = edges_of keys name deps in
      (g'.in_degree n ≡ g.in_degree n + pending [] n es)
      × (g'.dependents n ≡ g.dependents n ++ targets n es)
unfolding add_dependencies
add_dependencies_lem keys name g [] n = (omega arith, sym (append-nil (g.dependents n)))
add_dependencies_lem keys name g (dep ∷ deps) n =
    let (degree, dependents) = add_dependencies_lem keys name (add_edge keys name g dep) deps n in
    ground (
      arith,
      degree,
      dependents,
      append_assoc (g.dependents n) (name ∷ []) (targets n (edges_of keys name deps)),
    )

-- The two dictionaries hold the graph: each name's degree is the number of its edges, and each
-- name's dependents are the ends of the edges from it.
pub add_extractors_lem :
    (keys : List Name) (g : Graph) (es : List Extractor) (n : Name)
    → let g' = add_extractors keys g es in
      (g'.in_degree n ≡ g.in_degree n + pending [] n (edges keys es))
      × (g'.dependents n ≡ g.dependents n ++ targets n (edges keys es))
unfolding add_extractors
add_extractors_lem keys g [] n = (omega arith, sym (append-nil (g.dependents n)))
add_extractors_lem keys g (e ∷ es) n =
    let (degree, dependents) =
      add_extractors_lem keys (add_dependencies keys e.name g e.dependencies) es n in
    let (degree', dependents') = add_dependencies_lem keys e.name g e.dependencies n in
    let mine = edges_of keys e.name e.dependencies in
    (
      omega (arith, degree, degree', pending-append [] n mine (edges keys es)),
      dependents
          ∙ ap (λ t. t ++ targets n (edges keys es)) dependents'
          ∙ append_assoc (g.dependents n) (targets n mine) (targets n (edges keys es))
          ∙ ap (λ t. g.dependents n ++ t) (sym (targets-append n mine (edges keys es))),
    )
