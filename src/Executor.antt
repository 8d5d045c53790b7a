-- ===== src/Executor.antt =====
-- extractors/base.py: `ExtractorDAGExecutor.execute`.
-- The body of an extractor is a parameter, what its `run` does for each name: it raises, or returns
-- a dictionary or something else. Each extractor runs once, so what a run leaves behind in the
-- backend or the dump handle for the next one is part of that parameter.
pub mod Status
pub mod Isolation
mod Tests
use vantacore_engine.Prelude.{
  List, Option, [], if◌then◌else◌, length, mem, none, some, ℕ, ◌&&◌, ◌++◌, ◌==◌, ◌∷◌,
}
use vantacore_engine.Dag.{Name, Extractor}

abbrev pub Key : Type 0
Key = ℕ

-- A dictionary as it stands in the merged result: its keys and values, and its order is not kept.
abbrev pub Artifacts : Type 0
Artifacts = List (Key × ℕ)

pub data Outcome : Type 0 where
  raised : Outcome
  returned : Option Artifacts → Outcome

pub data Overall : Type 0 where
  complete : Overall
  partial : Overall

pub record Scan : Type 0 where
  pub succeeded : List Name
  pub failed : List Name
  pub skipped : List Name
  pub merged_results : Key → Option ℕ

abbrev pub empty_scan : Scan
empty_scan = record { succeeded = []; failed = []; skipped = []; merged_results = λ _. none }

-- The value of a key in a dictionary; of two entries the later one.
unfoldable pub entry : Artifacts → Key → Option ℕ
entry [] key = none
entry ((k, v) ∷ d) key = elim (entry d key) [
  | some later ↦ some later
  | none ↦ if k == key then some v else none
]

-- `merged_results.update(res)`
abbrev pub merge : (Key → Option ℕ) → Artifacts → Key → Option ℕ
merge m d key = elim (entry d key) [ some v ↦ some v | none ↦ m key ]

-- The first dependency that has not succeeded.
unfoldable pub missing_dep : List Name → List Name → Option Name
missing_dep succeeded [] = none
missing_dep succeeded (dep ∷ deps) =
    let rest = missing_dep succeeded deps in if mem dep succeeded then rest else some dep

abbrev pub record_outcome : Scan → Name → Outcome → Scan
record_outcome s name raised = record s { failed = s.failed ++ (name ∷ []) }
record_outcome s name (returned none) = record s { succeeded = s.succeeded ++ (name ∷ []) }
record_outcome s name (returned (some res)) = record s {
  succeeded = s.succeeded ++ (name ∷ []);
  merged_results = merge s.merged_results res;
}

abbrev pub attempt : Scan → Name → Option Name → Outcome → Scan
attempt s name (some dep) outcome = record s { skipped = s.skipped ++ (name ∷ []) }
attempt s name none outcome = record_outcome s name outcome

module _ (run : Name → Outcome) where
  unfoldable pub run_extractor : Scan → Extractor → Scan
  unfolding missing_dep
  run_extractor s e = attempt s e.name (missing_dep s.succeeded e.dependencies) (run e.name)

  unfoldable pub run_all : Scan → List Extractor → Scan
  unfolding run_extractor
  run_all s [] = s
  run_all s (e ∷ es) = run_all (run_extractor s e) es

  unfoldable pub execute : List Extractor → Scan
  unfolding run_all
  execute execution_order = run_all empty_scan execution_order

-- "COMPLETE" if no extractor failed or was skipped.
unfoldable pub overall : Scan → Overall
overall s = if (length s.failed == 0) && (length s.skipped == 0) then complete else partial
