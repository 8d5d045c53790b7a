-- ===== src/Coordinator/Limit.antt =====
-- core/scanner/coordinator.py: one check of all workers.
use vantacore_engine.Prelude.{
  List, [], arith, if◌then◌else◌, length, refl, true, ℕ, ◌+◌, ◌∙◌, ◌∷◌, ◌≡◌, ◌≤◌,
}
use vantacore_engine.Coordinator.{Coordinator, ExitCode, joined, set_event, check_workers}
use vantacore_engine.Coordinator.Inv.{
  having, noted, all_noted, new_workers, new_counts, check_from_lem, length-joined, AreLimited, sum,
  any_gives_up, new_counts-AreLimited, spawned-all_noted, stop_event-all_noted,
}

check_workers-eq :
    (codes : List ExitCode) (c : Coordinator)
    → c.started ≡ true
    → length c.workers ≡ length c.respawn_counts
    → let seen = joined codes c.workers in
      check_workers codes c
      ≡ having
          (all_noted c seen c.respawn_counts)
          (new_workers seen c.respawn_counts)
          (new_counts seen c.respawn_counts)
unfolding check_workers
check_workers-eq codes c o e = rw (← length-joined codes c.workers) (
    check_from_lem c [] (joined codes c.workers) [] c.respawn_counts refl
      (length-joined codes c.workers ∙ e) o)

length-new_workers :
    (ws : List ExitCode) (ks : List ℕ)
    → length ws ≡ length ks
    → (length (new_workers ws ks) ≡ length ks) × (length (new_counts ws ks) ≡ length ks)
length-new_workers [] [] e = (refl, refl)
length-new_workers [] (k ∷ ks) e = absurd (omega arith)
length-new_workers (w ∷ ws) [] e = absurd (omega arith)
length-new_workers (w ∷ ws) (k ∷ ks) e = omega (arith, length-new_workers ws ks)

started-all_noted :
    (c : Coordinator) (ws : List ExitCode) (ks : List ℕ)
    → ((all_noted c ws ks).started ≡ c.started) × ((all_noted c ws ks).num_workers ≡ c.num_workers)
started-all_noted c [] ks = (refl, refl)
started-all_noted c (w ∷ ws) [] = (refl, refl)
started-all_noted c (w ∷ ws) (k ∷ ks) = started-all_noted (noted c w k) ws ks

-- What the coordinator keeps of its workers while it runs; at most `base` processes were started
-- before.
pub record IsTracked (base : ℕ) (c : Coordinator) : Type 0 where
  pub workers_size : length c.workers ≡ c.num_workers
  pub counts_size : length c.respawn_counts ≡ c.num_workers
  pub limited : AreLimited c.respawn_counts
  pub counted : c.spawned ≤ base + c.num_workers + sum c.respawn_counts

pub check_workers-IsTracked :
    {base : ℕ} (codes : List ExitCode) {c : Coordinator}
    → c.started ≡ true
    → IsTracked base c
    → IsTracked base (check_workers codes c)
      × ((check_workers codes c).started ≡ true)
      × ((check_workers codes c).num_workers ≡ c.num_workers)
check_workers-IsTracked {base} codes {c} o v =
    let e = length-joined codes c.workers in
    let seen = joined codes c.workers in
    let sizes = length-new_workers seen c.respawn_counts (omega arith) in
    let same = started-all_noted c seen c.respawn_counts in
    let limited = new_counts-AreLimited seen c.respawn_counts (omega arith) v.limited in
    let spawned = spawned-all_noted c seen c.respawn_counts (omega arith) in
    rw (check_workers-eq codes c o (omega arith)) (
      record {
        workers_size = omega arith;
        counts_size = omega arith;
        limited = limited;
        counted = omega arith;
      },
      same.0 ∙ o,
      same.1,
    )

-- One check of a running coordinator whose workers all have a count: the stop event is set if a
-- worker has crashed that was started again before, and is as it was otherwise; a worker is
-- started anew, and counted, exactly if it has crashed for the first time.
pub check_workers_lem :
    (codes : List ExitCode) (c : Coordinator)
    → c.started ≡ true
    → length c.workers ≡ length c.respawn_counts
    → let seen = joined codes c.workers in
      let c' = check_workers codes c in
      (c'.stop_event
        ≡ (if any_gives_up seen c.respawn_counts then set_event c.stop_event else c.stop_event))
      × (c'.workers ≡ new_workers seen c.respawn_counts)
      × (c'.respawn_counts ≡ new_counts seen c.respawn_counts)
      × (c'.spawned + sum c.respawn_counts ≡ c.spawned + sum c'.respawn_counts)
check_workers_lem codes c o e =
    let seen = joined codes c.workers in
    rw (check_workers-eq codes c o e) (
      stop_event-all_noted c seen c.respawn_counts,
      refl,
      refl,
      spawned-all_noted c seen c.respawn_counts (length-joined codes c.workers ∙ e),
    )
