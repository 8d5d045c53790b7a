-- ===== src/Extractors/Process/Carving.antt =====
-- extractors/linux/process.py: `_find_init_task_va`, the carving of the dump, and `run`.
use vantacore_engine.Prelude.{
  Bool, List, Option, Result, [], false, if◌then◌else◌, leb, length, ltb, mem, none, not, ok, raise,
  some, suc, zero, ℕ, ◌&&◌, ◌*◌, ◌++◌, ◌+◌, ◌-◌, ◌==◌, ◌||◌, ◌∷◌,
}
use vantacore_engine.Bytes.{Bytes, slice, bytes_eq, starts_with}
use vantacore_engine.Extractors.Chunked.{range_count, scan_chunks}
use vantacore_engine.Extractors.Process.{
  Task, Process, Walk, carve, is_valid_kernel_va, clean_comm, unsigned, is_pid, max_hops,
  read_task_struct, walk_list,
}

abbrev pub systemd : Bytes
systemd = b's' ∷ b'y' ∷ b's' ∷ b't' ∷ b'e' ∷ b'm' ∷ b'd' ∷ []

abbrev pub init : Bytes
init = b'i' ∷ b'n' ∷ b'i' ∷ b't' ∷ []

abbrev pub swapper : Bytes
swapper = b's' ∷ b'w' ∷ b'a' ∷ b'p' ∷ b'p' ∷ b'e' ∷ b'r' ∷ []

abbrev pub is_init_comm : Bytes → Bool
is_init_comm comm = starts_with comm systemd || (starts_with comm init || bytes_eq comm swapper)

abbrev pub is_init_name : Option Bytes → Bool
is_init_name none = false
is_init_name (some comm) = is_init_comm comm

abbrev pub is_init_task : Option Task → Bool
is_init_task none = false
is_init_task (some t) = (t.pid == 1) && is_init_comm t.comm

module _ (read : ℕ → ℕ → Result Bytes) where
  -- A buffer of 256 bytes never reaches the process id, so that the first test never holds.
  abbrev pub is_init_at : ℕ → Result Bytes → Bool
  is_init_at va (raise e) = false
  is_init_at va (ok buf) =
      if ltb (length buf) 256
      then false
      else (leb (0x678 + 16) (length buf)
          && ((unsigned 4 buf 0x558 == 1)
              && is_init_name (clean_comm (slice buf 0x678 (0x678 + 16)))))
        || is_init_task (read_task_struct read va)

  -- The addresses of the range from `va` on, `left` of them.
  unfoldable pub scan_init : ℕ → ℕ → Option ℕ
  scan_init zero va = none
  scan_init (suc left) va =
      let rest = scan_init left (va + 256) in if is_init_at va (read va 256) then some va else rest

  unfoldable pub find_init_task_va : ℕ → Option ℕ
  unfolding scan_init
  find_init_task_va kernel_base =
      if (kernel_base == 0) || not (is_valid_kernel_va kernel_base)
      then none
      else scan_init (range_count (4 * 1024 * 1024) 256) kernel_base

pub record Carved : Type 0 where
  pub pid : ℕ
  pub comm : Bytes
  pub phys_offset : ℕ

pub record Carver : Type 0 where
  pub carve_hops : ℕ
  pub seen_pids : List ℕ
  pub processes : List Process
  pub carve_results : List Carved

abbrev pub is_valid_state : ℕ → Bool
is_valid_state state = mem state (0 ∷ 1 ∷ 2 ∷ 4 ∷ 8 ∷ 16 ∷ 32 ∷ 64 ∷ 128 ∷ [])

-- What is written down of a structure that passes all tests.
unfoldable pub add_carved : Process → ℕ → Carver → Carver
add_carved p phys_off c = record {
  carve_hops = c.carve_hops;
  seen_pids = if mem p.pid c.seen_pids then c.seen_pids else c.seen_pids ++ (p.pid ∷ []);
  processes = if mem p.pid c.seen_pids then c.processes else c.processes ++ (p ∷ []);
  carve_results =
      c.carve_results ++ ((record { pid = p.pid; comm = p.comm; phys_offset = phys_off }) ∷ []);
}

abbrev pub add_named : ℕ → ℕ → ℕ → ℕ → Option Bytes → Carver → Carver
add_named pid tgid state phys_off none c = c
add_named pid tgid state phys_off (some comm) c =
    add_carved
      (record { pid = pid; tgid = tgid; comm = comm; state = state; ppid = 0; source = carve })
      phys_off c

unfoldable pub carve_at : ℕ → Bytes → ℕ → Carver → Carver
unfolding clean_comm add_carved
carve_at offset chunk align_off c =
    let pid = unsigned 4 chunk (align_off + 0x558) in
    let state = unsigned 8 chunk align_off in
    if ltb (length chunk - align_off) (0x678 + 16)
    then c
    else if not (leb 1 pid && is_pid pid)
    then c
    else if not (is_valid_state state)
    then c
    else add_named pid (unsigned 4 chunk (align_off + 0x55c)) state (offset + align_off)
        (clean_comm (slice chunk (align_off + 0x678) (align_off + 0x678 + 16))) c

-- The places of a chunk from `align_off` on, `left` of them.
unfoldable pub carve_places : ℕ → Bytes → ℕ → ℕ → Carver → Carver
unfolding carve_at
carve_places offset chunk zero align_off c = c
carve_places offset chunk (suc left) align_off c =
    carve_places offset chunk left (align_off + 8) (carve_at offset chunk align_off c)

unfoldable pub carve_chunk : ℕ → Bytes → Carver → Carver
unfolding carve_places
carve_chunk offset chunk c =
    carve_places offset chunk (range_count (length chunk - 0x700) 8) 0
      (record c { carve_hops = c.carve_hops + 1 })

abbrev pub is_capped : Carver → Bool
is_capped c = leb 500000 c.carve_hops

unfoldable pub unlisted : List ℕ → List Carved → List Carved
unlisted list_walk_pids [] = []
unlisted list_walk_pids (item ∷ items) =
    let rest = unlisted list_walk_pids items in
    if mem item.pid list_walk_pids then rest else item ∷ rest

pub record Report : Type 0 where
  pub processes : List Process
  pub dkom_anomalies : List Carved

abbrev pub not_walked : Walk
not_walked = record {
  queue = [];
  visited = [];
  hops = 0;
  seen_pids = [];
  list_walk_pids = [];
  processes = [];
}

abbrev pub start_at : Option ℕ → Walk
start_at none = not_walked
start_at (some va) = record not_walked { queue = va ∷ [] }

unfoldable pub carve_dump : Bytes → Walk → Carver
unfolding scan_chunks carve_chunk
carve_dump dump w = scan_chunks dump 65536 is_capped carve_chunk (length dump + 1) 0 (record {
  carve_hops = 0;
  seen_pids = w.seen_pids;
  processes = w.processes;
  carve_results = [];
})

-- `dump` is what the handle reads, `kernel_base` what the backend says.
unfoldable pub run : (ℕ → ℕ → Result Bytes) → ℕ → Bytes → Report
unfolding find_init_task_va walk_list carve_dump unlisted
run read kernel_base dump =
    let w = walk_list read (max_hops + 1) (start_at (find_init_task_va read kernel_base)) in
    let c = carve_dump dump w in
    record { processes = c.processes; dkom_anomalies = unlisted w.list_walk_pids c.carve_results }
