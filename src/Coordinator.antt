-- ===== src/Coordinator.antt =====
-- core/scanner/coordinator.py: `ScannerCoordinator`. The parameters that a worker process is given
-- do not change after `start`; of the process itself, its exit code is what is looked at.
pub mod Inv
pub mod Limit
pub mod Trace
pub mod Pipeline
mod Tests
use vantacore_engine.Prelude.{
  Bool, List, Option, Result, [], false, file_not_found, get_or, if◌then◌else◌, leb, length, max,
  none, not, ok, raise, replicate, runtime_error, set, some, suc, true, zero, ℕ, ◌&&◌, ◌+◌, ◌-◌,
  ◌==◌, ◌∷◌,
}
use vantacore_engine.Ring
use vantacore_engine.Ring.{Handle, Segment}

-- `exitcode` of a process; -n stands for the signal n that has ended it.
pub data ExitCode : Type 0 where
  alive : ExitCode
  exited : ℕ → ExitCode
  signalled : ℕ → ExitCode

abbrev pub is_crash : ExitCode → Bool
is_crash alive = false
is_crash (exited zero) = false
is_crash (exited (suc n)) = true
is_crash (signalled n) = true

abbrev pub is_alive : ExitCode → Bool
is_alive alive = true
is_alive _ = false

-- `spawned` counts the processes started so far; the dictionary of respawn counts is the list of
-- its values.
pub record Coordinator : Type 0 where
  pub num_workers : ℕ
  pub ring_buffer_capacity : ℕ
  pub ring_buffer : Option (Handle × Segment)
  pub result_queue : Option (List ℕ)
  pub stop_event : Option Bool
  pub workers : List ExitCode
  pub respawn_counts : List ℕ
  pub started : Bool
  pub spawned : ℕ

-- `__init__`; none for `num_workers` leaves it to the number of processors, none if unknown.
abbrev pub fresh : Option ℕ → Option ℕ → ℕ → Coordinator
fresh num_workers cpu_count ring_buffer_capacity = record {
  num_workers = elim num_workers [
    | none ↦ max 1 (elim cpu_count [ none ↦ 2 | some n ↦ if n == 0 then 2 else n ] - 1)
    | some n ↦ n
  ];
  ring_buffer_capacity = ring_buffer_capacity;
  ring_buffer = none;
  result_queue = none;
  stop_event = none;
  workers = [];
  respawn_counts = [];
  started = false;
  spawned = 0;
}

-- What follows the creation of the ring.
abbrev pub launch : Coordinator → Result (Handle × Segment) → Result (Unit {0}) × Coordinator
launch c (raise e) = (raise e, c)
launch c (ok ring) = (
  ok tt,
  record c {
    ring_buffer = some ring;
    result_queue = some [];
    stop_event = some false;
    workers = replicate c.num_workers alive;
    respawn_counts = replicate c.num_workers 0;
    started = true;
    spawned = c.spawned + c.num_workers;
  },
)

-- `file_size` is what `os.path.getsize` gives, none if the dump does not exist.
unfoldable pub start : Option ℕ → Coordinator → Result (Unit {0}) × Coordinator
start file_size c = if c.started then (raise runtime_error, c) else elim file_size [
  | none ↦ (raise file_not_found, c)
  | some size ↦ launch c (Ring.create c.ring_buffer_capacity none 0)
]

abbrev pub put_to : Coordinator → ℕ → Option (Handle × Segment) → Result Bool × Coordinator
put_to c addr none = (raise runtime_error, c)
put_to c addr (some (h, s)) =
    ((Ring.put h s addr).0, record c { ring_buffer = some (h, (Ring.put h s addr).1) })

unfoldable pub submit : Coordinator → ℕ → Result Bool × Coordinator
submit c addr = if not c.started then (raise runtime_error, c) else put_to c addr c.ring_buffer

-- The results, which go to the hooks too.
unfoldable pub drain_results : Coordinator → List ℕ × Coordinator
drain_results c = elim c.result_queue [
  | none ↦ ([], c)
  | some results ↦ (results, record c { result_queue = some [] })
]

abbrev pub set_event : Option Bool → Option Bool
set_event none = none
set_event (some is_set) = some true

unfoldable pub respawn_worker : Coordinator → ℕ → Coordinator
respawn_worker c worker_index =
    let respawns = get_or c.respawn_counts worker_index 0 in
    if leb 1 respawns then record c { stop_event = set_event c.stop_event } else record c {
      workers = set c.workers worker_index alive;
      respawn_counts = set c.respawn_counts worker_index (respawns + 1);
      spawned = c.spawned + 1;
    }

-- The loop over the workers, from an index on, for as many as are left. What it replaces lies
-- behind it.
unfoldable pub check_from : ℕ → ℕ → Coordinator → Coordinator
unfolding respawn_worker
check_from zero i c = c
check_from (suc left) i c =
    check_from left (i + 1)
      (if is_crash (get_or c.workers i alive) && c.started then respawn_worker c i else c)

-- What `join` lets the coordinator see of the exit codes; a worker that is left out is as before.
abbrev pub joined : List ExitCode → List ExitCode → List ExitCode
joined [] workers = workers
joined codes [] = []
joined (code ∷ codes) (worker ∷ workers) = code ∷ joined codes workers

unfoldable pub check_workers : List ExitCode → Coordinator → Coordinator
unfolding check_from
check_workers codes c =
    check_from (length c.workers) 0 (record c { workers = joined codes c.workers })

-- The ring is closed and unlinked, and what is alive is terminated.
unfoldable pub shut_down : List ExitCode → Coordinator → Coordinator
shut_down codes c =
    let checked = check_workers codes (record c { stop_event = set_event c.stop_event }) in
    record checked { workers = []; ring_buffer = none; started = false }

unfoldable pub stop : List ExitCode → Coordinator → Coordinator
stop codes c = if not c.started then c else shut_down codes c
