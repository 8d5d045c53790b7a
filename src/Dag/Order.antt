-- ===== src/Dag/Order.antt =====
-- extractors/base.py: what `_resolve_dag` returns.
use native.Mathlib.Decide.{dec_lt}
use vantacore_engine.Prelude.{
  ==_iff, Bool-cases, List, Option-cases, [], ap, ap₂, arith, if◌then◌else◌, inl, inr, length, ltb,
  mem, mem_iff, none, occurrences, occurrences_eq_of_length, refl, some, subst, suc, sym, true,
  zero, ℕ, ◌++◌, ◌+◌, ◌<◌, ◌==◌, ◌∙◌, ◌∷◌, ◌≡◌, ◌≢◌, ◌≤◌,
}
use vantacore_engine.Dag.{
  Name, Extractor, sort_names, name_map, prepend, select, left_out, resolve_dag,
}
use vantacore_engine.Dag.Edges.{pending}
use vantacore_engine.Dag.Rounds.{IsTopological}
use vantacore_engine.Dag.Waiting.{depends_on, pending-source, pending-zero, IsTopological-split}
use vantacore_engine.Dag.Keys.{names, keys, graph, occurrences-keys, sort_names-Inv}

-- Every extractor has a name of its own.
abbrev pub DistinctNames : List Extractor → Type 0
DistinctNames es = (n : Name) → occurrences n (names es) ≤ 1

pub name_map-name :
    (es : List Extractor) (n : Name) (e : Extractor) → name_map es n ≡ some e → e.name ≡ n
unfolding name_map
name_map-name [] n e h = cc
name_map-name (x ∷ es) n e h = ground (arith, name_map-name es n e)

name_map-found :
    (es : List Extractor) (n : Name) → 0 < occurrences n (names es) → name_map es n ≢ none
unfolding name_map
name_map-found [] n h e = omega arith
name_map-found (x ∷ es) n h e = ground (arith, name_map-found es n)

names-select :
    (es : List Extractor) (ns : List Name)
    → ((n : Name) → occurrences n ns ≤ occurrences n (keys es))
    → names (select es ns) ≡ ns
unfolding select
names-select es [] h = refl
names-select es (n ∷ ns) h = elim (Option-cases (name_map es n)) [
  | inl missing ↦ absurd (name_map-found es n (ground (arith, h n, occurrences-keys es n)) missing)
  | inr (e, found) ↦
      let rest = names-select es ns (λ m. omega (arith, h m)) in
      ap (λ o. names (prepend o (select es ns))) found
      ∙ ap₂ (λ (x : Name) (xs : List Name). x ∷ xs) (name_map-name es n e found) rest
]

occurrences-left_out :
    (sorted : List Name) (es : List Extractor) (n : Name)
    → occurrences n (left_out sorted es) ≡ (if mem n sorted then 0 else occurrences n (names es))
unfolding left_out
occurrences-left_out sorted [] n = ground arith
occurrences-left_out sorted (e ∷ es) n = elim (Bool-cases (e.name == n)) [
  | inl same ↦
      let eq = (==_iff e.name n).0 same in
      ground (arith, occurrences-left_out sorted es n, ap (λ k. mem k sorted) eq)
  | inr other ↦ ground (arith, occurrences-left_out sorted es n)
]

length-names : (es : List Extractor) → length (names es) ≡ length es
length-names [] = refl
length-names (e ∷ es) = ap suc (length-names es)

module _ (es : List Extractor) where
  abbrev sorted : List Name
  sorted = (sort_names es).sorted_names

  sorted-counts :
      (n : Name)
      → occurrences n sorted
        ≡ (if pending sorted n (graph es) == 0 then occurrences n (keys es) else 0)
  sorted-counts n =
      let (inv, empty) = sort_names-Inv es in
      ground (arith, inv.counts n, inv.degrees n, ap (occurrences n) empty)

  names-execution_order : names (resolve_dag es).execution_order ≡ sorted
  unfolding resolve_dag
  names-execution_order = names-select es sorted (λ n. ground (arith, sorted-counts n))

  occurrences-disabled :
      DistinctNames es
      → (n : Name) → occurrences n (resolve_dag es).disabled ≡ occurrences n (left_out sorted es)
  unfolding resolve_dag
  occurrences-disabled distinct n = elim (Bool-cases (ltb (length sorted) (length es))) [
    | inl fewer ↦ rw fewer refl
    | inr all ↦
        let fits = λ (m : Name). sorted-le-names m in
        let same =
          occurrences_eq_of_length sorted (names es) fits (ground (arith, length-names es)) n in
        rw all (ground (arith, same, occurrences-left_out sorted es n, mem_iff n sorted))
  ]
    where
      sorted-le-names : (m : Name) → occurrences m sorted ≤ occurrences m (names es)
      sorted-le-names m = ground (arith, sorted-counts m, occurrences-keys es m)

  -- Each name of an extractor comes once, in the execution order or among the disabled, if the
  -- names are distinct.
  pub order-add-disabled :
      DistinctNames es
      → (n : Name)
      → occurrences n (names (resolve_dag es).execution_order)
          + occurrences n (resolve_dag es).disabled
        ≡ occurrences n (names es)
  order-add-disabled distinct n = ground (
    arith,
    ap (occurrences n) names-execution_order,
    occurrences-disabled distinct n,
    occurrences-left_out sorted es n,
    mem_iff n sorted,
    sorted-counts n,
    occurrences-keys es n,
    distinct n,
  )

  -- In the execution order each extractor stands behind all its dependencies that are among the
  -- compatible extractors.
  pub execution_order_topological :
      (earlier : List Name) (n : Name) (later : List Name) (dep : Name)
      → names (resolve_dag es).execution_order ≡ earlier ++ (n ∷ later)
      → depends_on es n dep ≡ true
      → 0 < occurrences dep (names es)
      → mem dep earlier ≡ true
  execution_order_topological earlier n later dep e listed known =
      let (inv, _) = sort_names-Inv es in
      let t = subst (IsTopological (graph es) []) (sym names-execution_order ∙ e) inv.topological in
      pending-zero earlier (keys es) n dep es (IsTopological-split (graph es) [] earlier n later t)
        listed (ground (arith, mem_iff dep (keys es), occurrences-keys es dep))

  -- A disabled extractor has a dependency that is disabled too: from it a chain of dependencies
  -- goes on without end.
  pub disabled_waits :
      DistinctNames es
      → (n : Name) → 0 < occurrences n (resolve_dag es).disabled
      → (dep : Name) × (depends_on es n dep ≡ true)
        × (0 < occurrences dep (resolve_dag es).disabled)
  disabled_waits distinct n h =
      let (dep, free, key, listed) = pending-source sorted (keys es) n es (
        ground (
          arith,
          occurrences-disabled distinct n,
          occurrences-left_out sorted es n,
          sorted-counts n,
          occurrences-keys es n,
          mem_iff n sorted,
        )) in
      (
        dep,
        listed,
        ground (
          arith,
          occurrences-disabled distinct dep,
          occurrences-left_out sorted es dep,
          mem_iff dep (keys es),
          occurrences-keys es dep,
        ),
      )

  module _ (distinct : DistinctNames es) (rank : Name → ℕ)
      (falls : (n dep : Name) → depends_on es n dep ≡ true → rank dep < rank n) where
    none_below : (k n : ℕ) → rank n < k → occurrences n (resolve_dag es).disabled ≡ 0
    none_below zero n h = absurd (omega arith)
    none_below (suc k) n h = elim (dec_lt 0 (occurrences n (resolve_dag es).disabled)) [
      | no z ↦ omega arith
      | yes z ↦
          let (dep, listed, waits) = disabled_waits distinct n z in
          absurd (omega (arith, none_below k dep (omega (arith, falls n dep listed))))
    ]

    -- Without a cycle, that is where a rank falls along every dependency, no extractor is disabled
    -- and each one is in the execution order, once.
    pub acyclic_all_sorted :
        (n : Name)
        → (occurrences n (resolve_dag es).disabled ≡ 0)
          × (occurrences n (names (resolve_dag es).execution_order) ≡ occurrences n (names es))
    acyclic_all_sorted n =
        let nothing = none_below (rank n + 1) n (omega arith) in
        (nothing, omega (arith, nothing, order-add-disabled distinct n))
