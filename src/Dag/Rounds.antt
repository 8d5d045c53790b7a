-- ===== src/Dag/Rounds.antt =====
-- extractors/base.py: the invariant of the `while` loop of `_resolve_dag`, and that it ends.
use mathlib.Core.List.{append_assoc, append-nil}
use vantacore_engine.Prelude.{
  List, List-cases, [], ap, arith, false, if◌then◌else◌, inl, inr, length, length-append,
  length_le_of_occurrences, ltb, mem, mem_iff, occurrences, occurrences-append, suc, sym, zero, ℕ,
  ◌&&◌, ◌++◌, ◌+◌, ◌<◌, ◌==◌, ◌∙◌, ◌∷◌, ◌≡◌, ◌≤◌, ◌⊎◌,
}
use vantacore_engine.Dag.{Name, Search, relax, visit, kahn}
use vantacore_engine.Dag.Edges.{Edge, pending, targets, pending-visit}
use vantacore_engine.Dag.Degrees.{relax_lem}

-- Each name of `names` has no edge left but from names that stand before it: `before`, or in the
-- list itself.
abbrev pub IsTopological : List Edge → List Name → List Name → Type 0
IsTopological es before [] = Unit {0}
IsTopological es before (n ∷ names) =
    (pending before n es ≡ 0) × IsTopological es (before ++ (n ∷ [])) names

IsTopological-snoc :
    (es : List Edge) (before names : List Name) (n : Name)
    → IsTopological es before names
    → pending (before ++ names) n es ≡ 0
    → IsTopological es before (names ++ (n ∷ []))
IsTopological-snoc es before [] n t e = (ap (λ l. pending l n es) (sym (append-nil before)) ∙ e, tt)
IsTopological-snoc es before (m ∷ names) n t e = (
  t.0,
  IsTopological-snoc es (before ++ (m ∷ [])) names n t.1
      (ap (λ l. pending l n es) (append_assoc before (m ∷ []) names) ∙ e),
)

occurrences-targets :
    (dep n : Name) (es : List Edge) → occurrences n (targets dep es) ≤ pending [] n es
occurrences-targets dep n [] = omega arith
occurrences-targets dep n ((d, m) ∷ es) = ground (arith, occurrences-targets dep n es)

-- What the loop relies on: the dictionary of the dependents holds the edges, whose ends are keys,
-- and no key comes twice.
pub record Holds (dependents : Name → List Name) (keys : List Name) (es : List Edge) : Type 0 where
  pub edges_from : (dep : Name) → dependents dep ≡ targets dep es
  pub ends_are_keys : (n : Name) → 0 < pending [] n es → 0 < occurrences n keys
  pub distinct : (n : Name) → occurrences n keys ≤ 1

module _ (dependents : Name → List Name) (keys : List Name) (es : List Edge)
    (g : Holds dependents keys es) where
  -- The degree of a name counts the edges from names not yet sorted, and the names of degree 0 are
  -- those that are sorted or queued, each of them once.
  pub record Inv (s : Search) : Type 0 where
    pub degrees : (n : Name) → s.in_degree n ≡ pending s.sorted_names n es
    pub counts :
        (n : Name)
        → occurrences n s.sorted_names + occurrences n s.queue
          ≡ (if s.in_degree n == 0 then occurrences n keys else 0)
    pub topological : IsTopological es [] s.sorted_names

  module _ (s : Search) (node : Name) (queue : List Name) (v : Inv s)
      (q : s.queue ≡ node ∷ queue) where
    -- A queued name has degree 0, and is not yet sorted.
    head_of_queue : (s.in_degree node ≡ 0) × (mem node s.sorted_names ≡ false)
    head_of_queue =
        let here : occurrences node s.queue ≡ 1 + occurrences node queue =
          ap (occurrences node) q ∙ ground arith in
        ground (arith, here, v.counts node, g.distinct node, mem_iff node s.sorted_names)

    pending-visited :
        (n : Name)
        → pending (s.sorted_names ++ (node ∷ [])) n es + occurrences n (dependents node)
          ≡ s.in_degree n
    pending-visited n =
        ap (λ t. pending (s.sorted_names ++ (node ∷ [])) n es + occurrences n t) (g.edges_from node)
        ∙ pending-visit s.sorted_names node n es head_of_queue.1
        ∙ sym (v.degrees n)

    relaxed :
        (n : Name)
        → let (in_degree', queue') = relax (dependents node) s.in_degree queue in
          (in_degree' n + occurrences n (dependents node) ≡ s.in_degree n)
          × (occurrences n queue'
              ≡ occurrences n queue
                + (if ltb 0 (occurrences n (dependents node)) && (in_degree' n == 0) then 1 else 0))
    relaxed = relax_lem (dependents node) s.in_degree queue (λ n. omega (arith, pending-visited n))

    visit-counts :
        (n : Name)
        → let s' = visit dependents s node queue in
          occurrences n s'.sorted_names + occurrences n s'.queue
          ≡ (if s'.in_degree n == 0 then occurrences n keys else 0)
    unfolding visit
    visit-counts n =
        let here : occurrences n s.queue ≡ (if node == n then 1 else 0) + occurrences n queue =
          ap (occurrences n) q in
        let ends : occurrences n (dependents node) ≤ pending [] n es =
          omega (arith, ap (occurrences n) (g.edges_from node), occurrences-targets node n es) in
        ground (
          arith,
          here,
          ends,
          relaxed n,
          v.counts n,
          g.distinct n,
          g.ends_are_keys n,
          occurrences-append n s.sorted_names (node ∷ []),
        )

    pub visit-Inv : Inv (visit dependents s node queue)
    visit-Inv = record {
      degrees = λ n. unfold visit in omega (arith, relaxed n, pending-visited n);
      counts = visit-counts;
      topological =
          unfold visit in
          IsTopological-snoc es [] s.sorted_names node v.topological
            (sym (v.degrees node) ∙ head_of_queue.0);
    }

  length-visit :
      (s : Search) (node : Name) (queue : List Name)
      → length (visit dependents s node queue).sorted_names ≡ length s.sorted_names + 1
  unfolding visit
  length-visit s node queue = length-append s.sorted_names (node ∷ [])

  all-le-keys : (s : Search) → Inv s → length s.sorted_names + length s.queue ≤ length keys
  all-le-keys s v = omega (
    arith,
    length-append s.sorted_names s.queue,
    length_le_of_occurrences (s.sorted_names ++ s.queue) keys
        (λ n. ground (arith, occurrences-append n s.sorted_names s.queue, v.counts n)),
  )

  -- With a round for each key left the loop ends with an empty queue, and the invariant holds.
  pub kahn-Inv :
      (fuel : ℕ) (s : Search)
      → Inv s
      → length keys ≤ fuel + length s.sorted_names
      → Inv (kahn fuel dependents s) × ((kahn fuel dependents s).queue ≡ [])
  unfolding kahn
  kahn-Inv zero s v h = (v, empty (List-cases s.queue))
    where
      empty :
          (s.queue ≡ []) ⊎ ((x : Name) × (rest : List Name) × (s.queue ≡ x ∷ rest)) → s.queue ≡ []
      empty (inl e) = e
      empty (inr (x, rest, e)) = absurd (omega (arith, all-le-keys s v, ap length e))
  kahn-Inv (suc fuel) s v h = elim (List-cases s.queue) [
    | inl e ↦ rw (e, kahn) (v, e)
    | inr (node, queue, e) ↦
        rw (e, kahn)
          (kahn-Inv fuel (visit dependents s node queue) (visit-Inv s node queue v e)
            (omega (arith, length-visit s node queue)))
  ]
