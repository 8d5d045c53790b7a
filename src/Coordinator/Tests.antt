-- ===== src/Coordinator/Tests.antt =====
-- core/scanner/coordinator.py with two workers.
use vantacore_engine.Prelude.{
  List, [], arith, false, file_not_found, none, ok, raise, refl, runtime_error, some, true, ◌*◌,
  ◌∷◌, ◌≡◌, ◌≤◌,
}
use vantacore_engine.Ring.{Handle, Segment, create}
use vantacore_engine.Worker.{drain}
use vantacore_engine.Worker.Drain.{processed}
use vantacore_engine.Coordinator.{
  Coordinator, alive, exited, signalled, fresh, start, submit, check_workers, respawn_worker,
  check_from,
}
use vantacore_engine.Coordinator.Trace.{
  Call, starting, submitting, draining, checking, stopping, execute, starts, spawned_bounded,
}
use vantacore_engine.Coordinator.Pipeline.{submit_all, submitted-processed}

abbrev two_workers : Coordinator
two_workers = fresh (some 2) none 4

-- One worker for an unknown number of processors, and for two.
defaults :
    ((fresh none none 4).num_workers ≡ 1)
    × ((fresh none (some 8) 4).num_workers ≡ 7)
    × ((fresh none (some 1) 4).num_workers ≡ 1)
defaults = (refl, refl, refl)

not_started :
    ((submit two_workers 5).0 ≡ raise runtime_error)
    × ((start none two_workers).0 ≡ raise file_not_found)
    × ((start (some 9) (start (some 9) two_workers).1).0 ≡ raise runtime_error)
unfolding submit start create
not_started = (refl, refl, refl)

-- Both workers run; one has been started again.
abbrev running_two : Coordinator
running_two = record two_workers {
  stop_event = some false;
  workers = alive ∷ alive ∷ [];
  respawn_counts = 1 ∷ 0 ∷ [];
  started = true;
  spawned = 3;
}

checks :
    (check_workers (exited 1 ∷ signalled 9 ∷ []) running_two ≡ record running_two {
      stop_event = some true;
      workers = exited 1 ∷ alive ∷ [];
      respawn_counts = 1 ∷ 1 ∷ [];
      spawned = 4;
    })
    × (check_workers (exited 0 ∷ []) running_two
        ≡ record running_two { workers = exited 0 ∷ alive ∷ [] })
unfolding check_workers check_from respawn_worker
checks = (refl, refl)

abbrev calls : List Call
calls = starting (some 9) ∷ submitting 5 ∷ checking (exited 1 ∷ []) ∷ draining ∷ stopping [] ∷ []

spawned_bounded_example :
    (execute calls (fresh (some 2) none 4)).spawned
    ≤ 2 * (fresh (some 2) none 4).num_workers * starts calls
spawned_bounded_example = spawned_bounded (some 2) none 4 calls

starts_well : (start (some 9) two_workers).0 ≡ ok tt
unfolding start create
starts_well = refl

submitted-processed_example :
    let (accepted, c') = submit_all (start (some 9) two_workers).1 (8 ∷ 0 ∷ []) in
    (accepted ≡ true)
    × ((h : Handle) × (s : Segment) × (c'.ring_buffer ≡ some (h, s))
        × ((drain (1 ∷ []) 8 9 3 h (record { ring = s; results = [] })).1.results
            ≡ processed (1 ∷ []) 8 9 (8 ∷ 0 ∷ [])))
submitted-processed_example =
    submitted-processed (1 ∷ []) 8 9 (some 9) two_workers (8 ∷ 0 ∷ []) refl starts_well
      (omega arith) (omega arith)
