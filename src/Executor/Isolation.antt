-- ===== src/Executor/Isolation.antt =====
-- extractors/base.py: the resolver and the executor together. A failure reaches the extractors that
-- depend on it and no others.
use native.Mathlib.Decide.{dec_lt}
use vantacore_engine.Prelude.{
  List, Option, Option-cases, [], ap, ap₂, arith, false, if◌then◌else◌, inl, inr, mem, mem_iff,
  none, occurrences, occurrences-append, refl, some, sym, true, ◌&&◌, ◌++◌, ◌+◌, ◌<◌, ◌==◌, ◌||◌,
  ◌∙◌, ◌∷◌, ◌≡◌, ◌≤◌, ◌⊎◌,
}
use vantacore_engine.Dag.{Name, Extractor, name_map, prepend, select, sort_names, resolve_dag}
use vantacore_engine.Dag.Waiting.{depends_on}
use vantacore_engine.Dag.Keys.{names}
use vantacore_engine.Dag.Order.{
  DistinctNames, name_map-name, order-add-disabled, execution_order_topological,
}
use vantacore_engine.Executor.{Outcome, Scan, empty_scan, run_extractor, run_all, execute}
use vantacore_engine.Executor.Status.{
  returns, all_in, total-run_all, succeeded-run_extractor, succeeded-run_all_other, run_all-append,
}

names-append : (xs ys : List Extractor) → names (xs ++ ys) ≡ names xs ++ names ys
names-append [] ys = refl
names-append (e ∷ xs) ys = ap (λ t. e.name ∷ t) (names-append xs ys)

-- An extractor of the execution order is the one that its name maps to.
prepend_cases :
    (o : Option Extractor) (es earlier : List Extractor) (e : Extractor) (later : List Extractor)
    → prepend o es ≡ earlier ++ (e ∷ later)
    → (o ≡ some e) ⊎ ((rest : List Extractor) × (es ≡ rest ++ (e ∷ later)))
prepend_cases none es earlier e later h = inr (earlier, h)
prepend_cases (some x) es [] e later h = inl (cc)
prepend_cases (some x) es (y ∷ earlier) e later h = inr (earlier, cc)

select-name_map :
    (es : List Extractor) (ns : List Name) (earlier : List Extractor) (e : Extractor)
    (later : List Extractor)
    → select es ns ≡ earlier ++ (e ∷ later)
    → name_map es e.name ≡ some e
unfolding select
select-name_map es [] [] e later h = cc
select-name_map es [] (x ∷ earlier) e later h = cc
select-name_map es (n ∷ ns) earlier e later h =
    let rest = λ (earlier' : List Extractor). select-name_map es ns earlier' e later in
    elim (prepend_cases (name_map es n) (select es ns) earlier e later h) [
      | inl here ↦ ap (name_map es) (name_map-name es n e here) ∙ here
      | inr (earlier', e') ↦ rest earlier' e'
    ]

depends_on-name_map :
    (es : List Extractor) (n dep : Name) (e : Extractor)
    → name_map es n ≡ some e
    → mem dep e.dependencies ≡ true
    → depends_on es n dep ≡ true
unfolding name_map
depends_on-name_map [] n dep e h m = cc
depends_on-name_map (x ∷ es) n dep e h m = elim (Option-cases (name_map es n)) [
  | inr (later, found) ↦ ground (arith, depends_on-name_map es n dep later found)
  | inl missing ↦ ground arith
]

-- The dependencies that succeeded before a turn are those that succeed in the end.
all_in_settled :
    (before after : List Name) (deps : List Name)
    → ((dep : Name) → mem dep deps ≡ true → mem dep before ≡ mem dep after)
    → all_in before deps ≡ all_in after deps
all_in_settled before after [] h = refl
all_in_settled before after (dep ∷ deps) h =
    ap₂ ◌&&◌ (h dep (ground arith))
      (all_in_settled before after deps (λ d m. h d (ground (arith, m))))

module _ (run : Name → Outcome) (es : List Extractor) (distinct : DistinctNames es) where
  abbrev order : List Extractor
  order = (resolve_dag es).execution_order

  abbrev scan : Scan
  scan = execute run order

  distinct-order : (n : Name) → occurrences n (names order) ≤ 1
  distinct-order n = omega (arith, order-add-disabled es distinct n, distinct n)

  module _ (earlier : List Extractor) (e : Extractor) (later : List Extractor)
      (split : order ≡ earlier ++ (e ∷ later)) where
    abbrev before : Scan
    before = run_all run empty_scan earlier

    names-order : names order ≡ names earlier ++ (e.name ∷ names later)
    names-order = ap names split ∙ names-append earlier (e ∷ later)

    occurrences-order :
        (n : Name)
        → occurrences n (names order)
          ≡ occurrences n (names earlier)
            + ((if e.name == n then 1 else 0) + occurrences n (names later))
    occurrences-order n =
        ap (occurrences n) names-order ∙ occurrences-append n (names earlier) (e.name ∷ names later)

    scan_split : scan ≡ run_all run (run_extractor run before e) later
    unfolding execute run_all
    scan_split =
        ap (run_all run empty_scan) split ∙ run_all-append run empty_scan earlier (e ∷ later)

    succeeded-split :
        (n : Name)
        → occurrences n (names later) ≡ 0
        → mem n scan.succeeded ≡ (
            mem n before.succeeded
            || ((e.name == n) && (all_in before.succeeded e.dependencies && returns (run e.name))))
    succeeded-split n h =
        ap (λ (s : Scan). mem n s.succeeded) scan_split
        ∙ succeeded-run_all_other run (run_extractor run before e) later n h
        ∙ succeeded-run_extractor run before e n

    -- No name succeeds before its turn.
    not_before : (n : Name) → occurrences n (names earlier) ≡ 0 → mem n before.succeeded ≡ false
    not_before n h =
        ground (arith, total-run_all run empty_scan earlier n, mem_iff n before.succeeded)

    not_in_scan : (n : Name) → occurrences n (names order) ≡ 0 → mem n scan.succeeded ≡ false
    unfolding execute
    not_in_scan n h = ground (arith, total-run_all run empty_scan order n, mem_iff n scan.succeeded)

    -- The success of `e` is decided in its turn.
    at_turn :
        mem e.name scan.succeeded ≡ (all_in before.succeeded e.dependencies && returns (run e.name))
    at_turn = ground (
      arith,
      distinct-order e.name,
      occurrences-order e.name,
      succeeded-split e.name,
      not_before e.name,
    )

    settled :
        (dep : Name)
        → mem dep e.dependencies ≡ true
        → mem dep before.succeeded ≡ mem dep scan.succeeded
    settled dep listed = elim (dec_lt 0 (occurrences dep (names earlier))) [
      | yes ran ↦ ground (arith, distinct-order dep, occurrences-order dep, succeeded-split dep)
      | no not_ran ↦
          let unknown : occurrences dep (names order) ≡ 0 = no_turn not_ran in
          not_before dep (omega arith) ∙ sym (not_in_scan dep unknown)
    ]
      where
        no_turn : ¬ (0 < occurrences dep (names earlier)) → occurrences dep (names order) ≡ 0
        no_turn not_ran = elim (dec_lt 0 (occurrences dep (names es))) [
          | no absent ↦ omega (arith, order-add-disabled es distinct dep)
          | yes known ↦
              let mapped =
                select-name_map es (sort_names es).sorted_names earlier e later
                  (unfold resolve_dag in split) in
              let found =
                execution_order_topological es (names earlier) e.name (names later) dep names-order
                  (depends_on-name_map es e.name dep e mapped listed) known in
              absurd (omega (arith, (mem_iff dep (names earlier)).0 found))
        ]

    -- An extractor of the execution order succeeds exactly when every dependency that it lists
    -- succeeds and its own run returns. So the failure of another extractor reaches it only through
    -- its dependencies, and one with a dependency that is not among the compatible extractors never
    -- succeeds.
    pub succeeded_iff :
        mem e.name scan.succeeded ≡ (all_in scan.succeeded e.dependencies && returns (run e.name))
    succeeded_iff =
        at_turn
        ∙ ap (λ t. t && returns (run e.name))
            (all_in_settled before.succeeded scan.succeeded e.dependencies settled)
