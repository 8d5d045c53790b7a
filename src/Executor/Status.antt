-- ===== src/Executor/Status.antt =====
-- extractors/base.py: where the extractors of an execution end up.
use vantacore_engine.Prelude.{
  Bool, List, Option, [], ap, arith, false, if◌then◌else◌, length_le_of_occurrences, mem,
  mem-append_one, none, occurrences, occurrences-append, occurrences-le-length, refl, some, true, ℕ,
  ◌&&◌, ◌++◌, ◌+◌, ◌==◌, ◌||◌, ◌↔◌, ◌∙◌, ◌∷◌, ◌≡◌,
}
use vantacore_engine.Dag.{Name, Extractor}
use vantacore_engine.Dag.Keys.{names}
use vantacore_engine.Executor.{
  Outcome, raised, returned, Scan, empty_scan, missing_dep, attempt, run_extractor, run_all,
  execute, overall, complete,
}

abbrev pub returns : Outcome → Bool
returns raised = false
returns (returned r) = true

-- `all(dep in succeeded for dep in deps)`
abbrev pub all_in : List Name → List Name → Bool
all_in succeeded [] = true
all_in succeeded (dep ∷ deps) = mem dep succeeded && all_in succeeded deps

pub missing_dep_iff :
    (succeeded deps : List Name)
    → (missing_dep succeeded deps ≡ none) ↔ (all_in succeeded deps ≡ true)
unfolding missing_dep
missing_dep_iff succeeded [] = ground arith
missing_dep_iff succeeded (dep ∷ deps) = ground (arith, missing_dep_iff succeeded deps)

abbrev pub total : Scan → Name → ℕ
total s n = occurrences n s.succeeded + occurrences n s.failed + occurrences n s.skipped

total-attempt :
    (s : Scan) (name : Name) (missing : Option Name) (o : Outcome) (n : Name)
    → total (attempt s name missing o) n ≡ total s n + (if name == n then 1 else 0)
total-attempt s name (some dep) o n = omega (arith, occurrences-append n s.skipped (name ∷ []))
total-attempt s name none raised n = omega (arith, occurrences-append n s.failed (name ∷ []))
total-attempt s name none (returned none) n =
    omega (arith, occurrences-append n s.succeeded (name ∷ []))
total-attempt s name none (returned (some r)) n =
    omega (arith, occurrences-append n s.succeeded (name ∷ []))

module _ (run : Name → Outcome) where
  total-run_extractor :
      (s : Scan) (e : Extractor) (n : Name)
      → total (run_extractor run s e) n ≡ total s n + (if e.name == n then 1 else 0)
  unfolding run_extractor
  total-run_extractor s e n =
      total-attempt s e.name (missing_dep s.succeeded e.dependencies) (run e.name) n

  pub total-run_all :
      (s : Scan) (es : List Extractor) (n : Name)
      → total (run_all run s es) n ≡ total s n + occurrences n (names es)
  unfolding run_all
  total-run_all s [] n = omega arith
  total-run_all s (e ∷ es) n =
      omega (arith, total-run_all (run_extractor run s e) es n, total-run_extractor s e n)

  -- Each extractor of the order is entered once, among the succeeded, the failed or the skipped,
  -- and the overall status is COMPLETE exactly when every one of them succeeded.
  pub execute_partition :
      (order : List Extractor)
      → let s = execute run order in
        ((n : Name)
          → occurrences n s.succeeded + occurrences n s.failed + occurrences n s.skipped
            ≡ occurrences n (names order))
        × ((overall s ≡ complete)
            ↔ ((n : Name) → occurrences n s.succeeded ≡ occurrences n (names order)))
  unfolding execute overall
  execute_partition order =
      let s = run_all run empty_scan order in
      let entered : (n : Name) → total s n ≡ occurrences n (names order) =
        (λ n. omega (arith, total-run_all empty_scan order n)) in
      (
        entered,
        (
          λ h n. ground (
            arith,
            entered n,
            occurrences-le-length n s.failed,
            occurrences-le-length n s.skipped,
          ),
          λ h. ground (
            arith,
            length_le_of_occurrences s.failed [] (λ n. omega (arith, entered n, h n)),
            length_le_of_occurrences s.skipped [] (λ n. omega (arith, entered n, h n)),
          ),
        ),
      )

-- The turn of an extractor is a success if no dependency is missing and its run returns.
abbrev success : Option Name → Outcome → Bool
success (some dep) o = false
success none o = returns o

-- Whether an extractor has succeeded after a turn.
succeeded-attempt :
    (s : Scan) (name : Name) (missing : Option Name) (o : Outcome) (n : Name)
    → mem n (attempt s name missing o).succeeded
      ≡ (mem n s.succeeded || ((name == n) && success missing o))
succeeded-attempt s name (some dep) o n = ground arith
succeeded-attempt s name none raised n = ground arith
succeeded-attempt s name none (returned none) n = ground (arith, mem-append_one s.succeeded name n)
succeeded-attempt s name none (returned (some r)) n =
    ground (arith, mem-append_one s.succeeded name n)

success_lem :
    (succeeded deps : List Name) (o : Outcome)
    → success (missing_dep succeeded deps) o ≡ (all_in succeeded deps && returns o)
success_lem succeeded deps o = ground (arith, missing_dep_iff succeeded deps)

module _ (run : Name → Outcome) where
  pub succeeded-run_extractor :
      (s : Scan) (e : Extractor) (n : Name)
      → mem n (run_extractor run s e).succeeded ≡ (
          mem n s.succeeded
          || ((e.name == n) && (all_in s.succeeded e.dependencies && returns (run e.name))))
  unfolding run_extractor
  succeeded-run_extractor s e n =
      succeeded-attempt s e.name (missing_dep s.succeeded e.dependencies) (run e.name) n
      ∙ ap (λ t. mem n s.succeeded || ((e.name == n) && t))
          (success_lem s.succeeded e.dependencies (run e.name))

  -- The turns of other extractors leave the success of a name as it is.
  pub succeeded-run_all_other :
      (s : Scan) (es : List Extractor) (n : Name)
      → occurrences n (names es) ≡ 0
      → mem n (run_all run s es).succeeded ≡ mem n s.succeeded
  unfolding run_all
  succeeded-run_all_other s [] n h = refl
  succeeded-run_all_other s (e ∷ es) n h =
      ground
        (arith, succeeded-run_all_other (run_extractor run s e) es n, succeeded-run_extractor s e n)

  pub run_all-append :
      (s : Scan) (xs ys : List Extractor)
      → run_all run s (xs ++ ys) ≡ run_all run (run_all run s xs) ys
  unfolding run_all
  run_all-append s [] ys = refl
  run_all-append s (e ∷ xs) ys = run_all-append (run_extractor run s e) xs ys
