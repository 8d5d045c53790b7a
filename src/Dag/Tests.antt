-- ===== src/Dag/Tests.antt =====
-- extractors/base.py: five extractors, of which one depends on itself and one on an extractor that
-- is not there.
use vantacore_engine.Prelude.{List, [], arith, mem, occurrences, refl, true, ◌+◌, ◌<◌, ◌∷◌, ◌≡◌}
use vantacore_engine.Dag.{Name, Extractor, any_platform, resolve_dag, init}
use vantacore_engine.Dag.Waiting.{depends_on}
use vantacore_engine.Dag.Keys.{names}
use vantacore_engine.Dag.Order.{
  DistinctNames, order-add-disabled, execution_order_topological, acyclic_all_sorted,
}

abbrev extractor : Name → List Name → Extractor
extractor name dependencies = record {
  name = name;
  compatible_platforms = any_platform ∷ [];
  dependencies = dependencies;
}

abbrev looping : List Extractor
looping =
    extractor 2 (1 ∷ [])
    ∷ extractor 1 []
    ∷ extractor 3 (3 ∷ [])
    ∷ extractor 4 (3 ∷ [])
    ∷ extractor 5 (9 ∷ [])
    ∷ []

abbrev chain : List Extractor
chain = extractor 3 (2 ∷ 1 ∷ []) ∷ extractor 2 (1 ∷ []) ∷ extractor 1 [] ∷ []

abbrev for_linux : Extractor
for_linux = record { name = 6; compatible_platforms = 7 ∷ []; dependencies = [] }

order-looping :
    (names (resolve_dag looping).execution_order ≡ 1 ∷ 5 ∷ 2 ∷ [])
    × ((resolve_dag looping).disabled ≡ 3 ∷ 4 ∷ [])
unfolding resolve_dag
order-looping = (refl, refl)

order-chain : names (init (for_linux ∷ chain) 8).execution_order ≡ 1 ∷ 2 ∷ 3 ∷ []
unfolding init
order-chain = refl

looping-distinct : DistinctNames looping
looping-distinct n = ground arith

order-add-disabled_example :
    occurrences 4 (names (resolve_dag looping).execution_order)
      + occurrences 4 (resolve_dag looping).disabled
    ≡ 1
order-add-disabled_example = order-add-disabled looping looping-distinct 4

execution_order_topological_example : mem 1 (1 ∷ 5 ∷ []) ≡ true
execution_order_topological_example =
    execution_order_topological looping (1 ∷ 5 ∷ []) 2 [] 1 order-looping.0 refl (omega arith)

chain-distinct : DistinctNames chain
chain-distinct n = ground arith

chain-falls : (n dep : Name) → depends_on chain n dep ≡ true → dep < n
chain-falls n dep h = ground arith

acyclic_all_sorted_example :
    (occurrences 3 (resolve_dag chain).disabled ≡ 0)
    × (occurrences 3 (names (resolve_dag chain).execution_order) ≡ 1)
acyclic_all_sorted_example = acyclic_all_sorted chain chain-distinct (λ n. n) chain-falls 3
