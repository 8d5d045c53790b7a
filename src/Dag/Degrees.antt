-- ===== src/Dag/Degrees.antt =====
-- extractors/base.py: one round of the sort, name by name.
use vantacore_engine.Prelude.{
  ==_iff, Bool-cases, List, [], ap, arith, if◌then◌else◌, inl, inr, ltb, occurrences,
  occurrences-append, ℕ, ◌&&◌, ◌++◌, ◌+◌, ◌-◌, ◌==◌, ◌∷◌, ◌≡◌, ◌≤◌,
}
use vantacore_engine.Dag.{Name, update, sources, relax}

-- How often `sources` lists a name.
pub sources_lem :
    (in_degree : Name → ℕ) (keys : List Name) (n : Name)
    → occurrences n (sources in_degree keys) ≡ (if in_degree n == 0 then occurrences n keys else 0)
unfolding sources
sources_lem in_degree [] n = ground arith
sources_lem in_degree (name ∷ keys) n = elim (Bool-cases (name == n)) [
  | inl e ↦
      let same : name ≡ n = (==_iff name n).0 e in
      ground (arith, ap in_degree same, sources_lem in_degree keys n)
  | inr e ↦ ground (arith, sources_lem in_degree keys n)
]

-- The loop over the dependents takes off each name's degree as often as it is listed, and queues
-- a name once if its degree falls to 0 there.
pub relax_lem :
    (deps : List Name) (in_degree : Name → ℕ) (queue : List Name)
    → ((n : Name) → occurrences n deps ≤ in_degree n)
    → (n : Name)
    → let (in_degree', queue') = relax deps in_degree queue in
      (in_degree' n + occurrences n deps ≡ in_degree n)
      × (occurrences n queue'
          ≡ occurrences n queue
            + (if ltb 0 (occurrences n deps) && (in_degree' n == 0) then 1 else 0))
unfolding relax
relax_lem [] in_degree queue h n = ground arith
relax_lem (dep ∷ deps) in_degree queue h n =
    let in_degree1 = update in_degree dep (in_degree dep - 1) in
    let queue1 = if in_degree dep - 1 == 0 then queue ++ (dep ∷ []) else queue in
    let h1 : (m : Name) → occurrences m deps ≤ in_degree1 m = still_below in
    let (degree, queued) = relax_lem deps in_degree1 queue1 h1 n in
    elim (Bool-cases (dep == n)) [
      | inl e ↦
          let same = ap in_degree ((==_iff dep n).0 e) in
          let now : occurrences n queue1
              ≡ occurrences n queue + (if in_degree dep - 1 == 0 then 1 else 0) =
            ground (arith, occurrences-append n queue (dep ∷ [])) in
          ground (arith, degree, queued, h n, same, now)
      | inr e ↦
          let now : occurrences n queue1 ≡ occurrences n queue =
            ground (arith, occurrences-append n queue (dep ∷ [])) in
          ground (arith, degree, queued, now)
    ]
  where
    still_below : (m : Name) → occurrences m deps ≤ update in_degree dep (in_degree dep - 1) m
    still_below m = elim (Bool-cases (dep == m)) [
      | inl e ↦ let same = ap in_degree ((==_iff dep m).0 e) in ground (arith, h m, same)
      | inr e ↦ ground (arith, h m)
    ]
