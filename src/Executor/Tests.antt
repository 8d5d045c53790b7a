-- ===== src/Executor/Tests.antt =====
-- extractors/base.py: an execution in which one extractor raises and one depends on it.
use vantacore_engine.Prelude.{
  List, [], arith, if◌then◌else◌, mem, none, refl, some, ◌&&◌, ◌*◌, ◌==◌, ◌∷◌, ◌≡◌,
}
use vantacore_engine.Dag.{Name, Extractor, any_platform, resolve_dag}
use vantacore_engine.Dag.Order.{DistinctNames}
use vantacore_engine.Executor.{Outcome, raised, returned, Scan, execute, entry, overall, partial}
use vantacore_engine.Executor.Status.{all_in, returns}
use vantacore_engine.Executor.Isolation.{succeeded_iff}

abbrev extractor : Name → List Name → Extractor
extractor name dependencies = record {
  name = name;
  compatible_platforms = any_platform ∷ [];
  dependencies = dependencies;
}

abbrev extractors : List Extractor
extractors =
    extractor 1 [] ∷ extractor 2 (1 ∷ []) ∷ extractor 3 (2 ∷ []) ∷ extractor 4 (1 ∷ []) ∷ []

-- The second one raises, and the fourth returns no dictionary.
run : Name → Outcome
run n =
    if n == 2 then raised else if n == 4 then returned none else returned (some ((n, 10 * n) ∷ []))

abbrev scan : Scan
scan = execute run extractors

scan-lists :
    (scan.succeeded ≡ 1 ∷ 4 ∷ [])
    × (scan.failed ≡ 2 ∷ [])
    × (scan.skipped ≡ 3 ∷ [])
    × (scan.merged_results 1 ≡ some 10)
    × (scan.merged_results 4 ≡ none)
    × (overall scan ≡ partial)
unfolding execute run overall entry
scan-lists = (refl, refl, refl, refl, refl, refl)

distinct : DistinctNames extractors
distinct n = ground arith

abbrev ordered : List Extractor
ordered = extractor 1 [] ∷ extractor 2 (1 ∷ []) ∷ extractor 4 (1 ∷ []) ∷ extractor 3 (2 ∷ []) ∷ []

order-extractors : (resolve_dag extractors).execution_order ≡ ordered
unfolding resolve_dag
order-extractors = refl

succeeded_iff_example : mem 3 (execute run (resolve_dag extractors).execution_order).succeeded ≡ (
    all_in (execute run (resolve_dag extractors).execution_order).succeeded (2 ∷ [])
    && returns (run 3))
succeeded_iff_example =
    succeeded_iff run extractors distinct
      (extractor 1 [] ∷ extractor 2 (1 ∷ []) ∷ extractor 4 (1 ∷ []) ∷ []) (extractor 3 (2 ∷ [])) []
      order-extractors
