-- ===== src/Dag/Keys.antt =====
-- extractors/base.py: the keys of the dictionaries are the names of the extractors, once each, and
-- the sort starts from its invariant.
use vantacore_engine.Prelude.{
  ==_iff, Bool-cases, List, [], ap, arith, if◌then◌else◌, inl, inr, length, ltb, mem, mem_iff, not,
  occurrences, occurrences-append, ◌&&◌, ◌+◌, ◌<◌, ◌==◌, ◌∷◌, ◌≡◌, ◌≤◌,
}
use vantacore_engine.Dag.{
  Name, Extractor, add_key, keys_from, no_edges, add_extractors, start, sort_names,
}
use vantacore_engine.Dag.Edges.{Edge, edges_of, edges, pending, pending-append, add_extractors_lem}
use vantacore_engine.Dag.Degrees.{sources_lem}
use vantacore_engine.Dag.Rounds.{Holds, Inv, kahn-Inv}

abbrev pub names : List Extractor → List Name
names [] = []
names (e ∷ es) = e.name ∷ names es

occurrences-add_key :
    (keys : List Name) (name n : Name)
    → occurrences n (add_key keys name)
      ≡ (if (name == n) && not (mem name keys) then occurrences n keys + 1 else occurrences n keys)
occurrences-add_key keys name n =
    ground (arith, occurrences-append n keys (name ∷ []), Bool-cases (mem name keys))

keys_from_lem :
    (keys : List Name) (es : List Extractor) (n : Name)
    → occurrences n keys ≤ 1
    → occurrences n (keys_from keys es)
      ≡ (if ltb 0 (occurrences n keys + occurrences n (names es)) then 1 else 0)
unfolding keys_from
keys_from_lem keys [] n h = ground arith
keys_from_lem keys (e ∷ es) n h = elim (Bool-cases (e.name == n)) [
  | inl same ↦
      let eq = (==_iff e.name n).0 same in
      ground (
        arith,
        occurrences-add_key keys e.name n,
        keys_from_lem (add_key keys e.name) es n,
        mem_iff n keys,
        ap (λ k. mem k keys) eq,
      )
  | inr other ↦
      ground (arith, occurrences-add_key keys e.name n, keys_from_lem (add_key keys e.name) es n)
]

pending-edges_of :
    (keys : List Name) (name n : Name) (deps : List Name)
    → 0 < pending [] n (edges_of keys name deps)
    → name ≡ n
pending-edges_of keys name n [] h = absurd (omega arith)
pending-edges_of keys name n (dep ∷ deps) h = ground (arith, pending-edges_of keys name n deps)

pending-edges :
    (keys : List Name) (n : Name) (es : List Extractor)
    → 0 < pending [] n (edges keys es)
    → 0 < occurrences n (names es)
pending-edges keys n [] h = absurd (omega arith)
pending-edges keys n (e ∷ es) h = ground (
  arith,
  pending-append [] n (edges_of keys e.name e.dependencies) (edges keys es),
  pending-edges_of keys e.name n e.dependencies,
  pending-edges keys n es,
)

module _ (es : List Extractor) where
  abbrev pub keys : List Name
  keys = keys_from [] es

  abbrev pub graph : List Edge
  graph = edges keys es

  pub occurrences-keys :
      (n : Name) → occurrences n keys ≡ (if ltb 0 (occurrences n (names es)) then 1 else 0)
  occurrences-keys n = ground (arith, keys_from_lem [] es n)

  pub holds : Holds (add_extractors keys no_edges es).dependents keys graph
  holds = record {
    edges_from = λ dep. (add_extractors_lem keys no_edges es dep).1;
    ends_are_keys = λ n h. ground (arith, occurrences-keys n, pending-edges keys n es h);
    distinct = λ n. ground (arith, occurrences-keys n);
  }

  start-Inv :
      Inv
        (add_extractors keys no_edges es).dependents
        keys
        graph
        holds
        (start (add_extractors keys no_edges es) keys)
  unfolding start
  start-Inv = record {
    degrees = λ n. omega (arith, (add_extractors_lem keys no_edges es n).0);
    counts = λ n. ground (arith, sources_lem (add_extractors keys no_edges es).in_degree keys n);
    topological = tt;
  }

  -- The sort ends with an empty queue, in the invariant of its loop.
  pub sort_names-Inv :
      Inv (add_extractors keys no_edges es).dependents keys graph holds (sort_names es)
      × ((sort_names es).queue ≡ [])
  unfolding sort_names start
  sort_names-Inv =
      kahn-Inv (add_extractors keys no_edges es).dependents keys graph holds (length keys)
        (start (add_extractors keys no_edges es) keys) start-Inv (omega arith)
