-- ===== src/Dag.antt =====
-- extractors/base.py: `ExtractorDAGExecutor.__init__` and `_resolve_dag`.
-- Names of extractors and platforms are only compared, so they are numbers here. A dictionary
-- whose keys are the names of the extractors is a function, read at those names alone.
pub mod Edges
pub mod Degrees
pub mod Rounds
pub mod Keys
pub mod Waiting
pub mod Order
mod Tests
use mathlib.Core.List.{filter_map, foldl}
use vantacore_engine.Prelude.{
  List, Option, [], if◌then◌else◌, length, ltb, mem, none, some, suc, zero, ℕ, ◌++◌, ◌+◌, ◌-◌, ◌==◌,
  ◌||◌, ◌∷◌,
}

abbrev pub Name : Type 0
Name = ℕ

-- "*"
abbrev pub any_platform : Name
any_platform = 0

pub record Extractor : Type 0 where
  pub name : Name
  pub compatible_platforms : List Name
  pub dependencies : List Name

-- The extractors that `__init__` keeps.
unfoldable pub compatible : Name → List Extractor → List Extractor
compatible platform [] = []
compatible platform (e ∷ es) =
    let rest = compatible platform es in
    if mem platform e.compatible_platforms || mem any_platform e.compatible_platforms
    then e ∷ rest
    else rest

-- The keys of the dictionaries, in the order of insertion: a name that comes again is no new key.
abbrev pub add_key : List Name → Name → List Name
add_key keys name = if mem name keys then keys else keys ++ (name ∷ [])

unfoldable pub keys_from : List Name → List Extractor → List Name
keys_from keys [] = keys
keys_from keys (e ∷ es) = keys_from (add_key keys e.name) es

abbrev pub update {ℓ} : {A : Type ℓ} → (Name → A) → Name → A → Name → A
update f name a n = if name == n then a else f n

-- `in_degree` and `dependents`
pub record Graph : Type 0 where
  pub in_degree : Name → ℕ
  pub dependents : Name → List Name

abbrev pub no_edges : Graph
no_edges = record { in_degree = λ _. 0; dependents = λ _. [] }

-- One round of the inner loop. A dependency that is not among the extractors is left out.
abbrev pub add_edge : List Name → Name → Graph → Name → Graph
add_edge keys name g dep_name =
    if mem dep_name keys
    then record {
      in_degree = update g.in_degree name (g.in_degree name + 1);
      dependents = update g.dependents dep_name (g.dependents dep_name ++ (name ∷ []));
    }
    else g

unfoldable pub add_dependencies : List Name → Name → Graph → List Name → Graph
add_dependencies keys name g [] = g
add_dependencies keys name g (dep_name ∷ deps) =
    add_dependencies keys name (add_edge keys name g dep_name) deps

unfoldable pub add_extractors : List Name → Graph → List Extractor → Graph
unfolding add_dependencies
add_extractors keys g [] = g
add_extractors keys g (e ∷ es) =
    add_extractors keys (add_dependencies keys e.name g e.dependencies) es

-- The names of in-degree 0, in the order of the dictionary.
unfoldable pub sources : (Name → ℕ) → List Name → List Name
sources in_degree [] = []
sources in_degree (name ∷ keys) =
    let rest = sources in_degree keys in if in_degree name == 0 then name ∷ rest else rest

-- The loop over the dependents of a node: each loses one from its degree, and is queued at 0.
unfoldable pub relax : List Name → (Name → ℕ) → List Name → (Name → ℕ) × List Name
relax [] in_degree queue = (in_degree, queue)
relax (dep ∷ deps) in_degree queue =
    relax deps (update in_degree dep (in_degree dep - 1))
      (if in_degree dep - 1 == 0 then queue ++ (dep ∷ []) else queue)

pub record Search : Type 0 where
  pub in_degree : Name → ℕ
  pub queue : List Name
  pub sorted_names : List Name

-- The body of the `while` loop, for a node that has left the queue.
unfoldable pub visit : (Name → List Name) → Search → Name → List Name → Search
unfolding relax
visit dependents s node queue =
    let (in_degree, queue') = relax (dependents node) s.in_degree queue in
    record { in_degree = in_degree; queue = queue'; sorted_names = s.sorted_names ++ (node ∷ []) }

-- The `while` loop. The search that it returns has an empty queue if the fuel was enough.
unfoldable pub kahn : ℕ → (Name → List Name) → Search → Search
unfolding visit
kahn zero dependents s = s
kahn (suc fuel) dependents s = elim s.queue [
  | [] ↦ s
  | node ∷ queue ↦ kahn fuel dependents (visit dependents s node queue)
]

unfoldable pub start : Graph → List Name → Search
unfolding sources
start g keys = record {
  in_degree = g.in_degree;
  queue = sources g.in_degree keys;
  sorted_names = [];
}

-- A name is visited once at most, so a round for each key is enough.
unfoldable pub sort_names : List Extractor → Search
unfolding kahn start keys_from add_extractors
sort_names es =
    let keys = keys_from [] es in
    let g = add_extractors keys no_edges es in kahn (length keys) g.dependents (start g keys)

-- `name_map[name]`: of two extractors of one name the later one.
unfoldable pub name_map : List Extractor → Name → Option Extractor
name_map [] name = none
name_map (e ∷ es) name = elim (name_map es name) [
  | some later ↦ some later
  | none ↦ if e.name == name then some e else none
]

abbrev pub prepend : Option Extractor → List Extractor → List Extractor
prepend none es = es
prepend (some e) es = e ∷ es

unfoldable pub select : List Extractor → List Name → List Extractor
unfolding name_map
select es [] = []
select es (name ∷ names) = prepend (name_map es name) (select es names)

-- The names that the sort left out.
unfoldable pub left_out : List Name → List Extractor → List Name
left_out sorted_names [] = []
left_out sorted_names (e ∷ es) =
    let rest = left_out sorted_names es in if mem e.name sorted_names then rest else e.name ∷ rest

pub record Resolved : Type 0 where
  pub execution_order : List Extractor
  pub disabled : List Name

unfoldable pub resolve_dag : List Extractor → Resolved
unfolding sort_names select left_out
resolve_dag es =
    let sorted_names = (sort_names es).sorted_names in
    record {
      execution_order = select es sorted_names;
      disabled = if ltb (length sorted_names) (length es) then left_out sorted_names es else [];
    }

unfoldable pub init : List Extractor → Name → Resolved
unfolding resolve_dag compatible
init extractors platform_name = resolve_dag (compatible platform_name extractors)
