-- ===== src/Extractors/Process.antt =====
-- extractors/linux/process.py: `LinuxProcessExtractor`, the reading of a task and the walk of the
-- task list. Signed fields are kept as their bits: a test for a process id below 4194304 refuses
-- every negative one.
pub mod Carving
pub mod Walking
pub mod Fuel
pub mod Tally
pub mod Dkom
mod Tests
use vantacore_engine.Prelude.{
  Bool, List, Option, Result, [], if◌then◌else◌, leb, length, ltb, mem, none, not, ok, raise, some,
  suc, true, zero, ℕ, ◌&&◌, ◌++◌, ◌+◌, ◌-◌, ◌==◌, ◌||◌, ◌∷◌,
}
use vantacore_engine.Bytes.{Bytes, slice, bytes_eq, starts_with, little_endian, unpack_from}

abbrev pub is_valid_kernel_va : ℕ → Bool
is_valid_kernel_va va = leb 0xffff800000000000 va && leb va 0xffffffffffff0000

-- `comm_bytes.split(b"\x00")[0]`
unfoldable pub until_nul : Bytes → Bytes
until_nul [] = []
until_nul (b ∷ bs) = let rest = until_nul bs in if b == 0 then [] else b ∷ rest

unfoldable pub is_printable : Bytes → Bool
is_printable [] = true
is_printable (b ∷ bs) = (leb 32 b && leb b 126) && is_printable bs

unfoldable pub clean_comm : Bytes → Option Bytes
unfolding until_nul is_printable
clean_comm comm_bytes =
    let raw_name = until_nul comm_bytes in
    if length raw_name == 0 then none else if is_printable raw_name then some raw_name else none

-- A field of a buffer that is long enough.
abbrev pub unsigned : ℕ → Bytes → ℕ → ℕ
unsigned width buf offset = little_endian (slice buf offset (offset + width))

abbrev pub is_pid : ℕ → Bool
is_pid pid = ltb pid 4194304

pub record Task : Type 0 where
  pub pid : ℕ
  pub tgid : ℕ
  pub comm : Bytes
  pub state : ℕ
  pub ppid : ℕ
  pub va : ℕ

unfoldable pub parent_pid : Result Bytes → ℕ
parent_pid (raise e) = 0
parent_pid (ok parent_buf) =
    if leb (0x558 + 4) (length parent_buf)
    then (let pid = unsigned 4 parent_buf 0x558 in if is_pid pid then pid else 0)
    else 0

pub data Source : Type 0 where
  list_walk : Source
  carve : Source

pub record Process : Type 0 where
  pub pid : ℕ
  pub tgid : ℕ
  pub comm : Bytes
  pub state : ℕ
  pub ppid : ℕ
  pub source : Source

pub record Walk : Type 0 where
  pub queue : List ℕ
  pub visited : List ℕ
  pub hops : ℕ
  pub seen_pids : List ℕ
  pub list_walk_pids : List ℕ
  pub processes : List Process

abbrev pub max_hops : ℕ
max_hops = 500000

abbrev pub add_task : Option Task → Walk → Walk
add_task none w = w
add_task (some t) w = if mem t.pid w.seen_pids then w else record w {
  seen_pids = w.seen_pids ++ (t.pid ∷ []);
  list_walk_pids = w.list_walk_pids ++ (t.pid ∷ []);
  processes =
      w.processes
      ++ ((record {
        pid = t.pid;
        tgid = t.tgid;
        comm = t.comm;
        state = t.state;
        ppid = t.ppid;
        source = list_walk;
      })
          ∷ []);
}

abbrev pub next_of : Result ℕ → List ℕ
next_of (raise e) = []
next_of (ok next_ptr) =
    if is_valid_kernel_va next_ptr && is_valid_kernel_va (next_ptr - 0x4a8)
    then (next_ptr - 0x4a8) ∷ []
    else []

abbrev pub next_task : Result Bytes → List ℕ
next_task (raise e) = []
next_task (ok next_ptr_bytes) = next_of (unpack_from 8 next_ptr_bytes 0)

-- `read` is `backend.read_virtual` in the namespace "GLOBAL_KERNEL".
module _ (read : ℕ → ℕ → Result Bytes) where
  abbrev pub parent_of : ℕ → ℕ → ℕ
  parent_of va parent_va =
      if is_valid_kernel_va parent_va && not (parent_va == va)
      then parent_pid (read parent_va 0x600)
      else 0

  abbrev pub named_task : ℕ → Bytes → Option Bytes → Option Task
  named_task va buf none = none
  named_task va buf (some comm) = some (record {
    pid = unsigned 4 buf 0x558;
    tgid = unsigned 4 buf 0x55c;
    comm = comm;
    state = unsigned 8 buf 0;
    ppid = parent_of va (unsigned 8 buf 0x4b8);
    va = va;
  })

  abbrev pub decode_task : ℕ → Result Bytes → Option Task
  decode_task va (raise e) = none
  decode_task va (ok buf) =
      if ltb (length buf) 0x688
      then none
      else if not (is_pid (unsigned 4 buf 0x558))
      then none
      else named_task va buf (clean_comm (slice buf 0x678 (0x678 + 16)))

  unfoldable pub read_task_struct : ℕ → Option Task
  unfolding clean_comm parent_pid
  read_task_struct va = decode_task va (read va 0x700)

  -- The body of the loop for an address that is taken, and the tail of the queue.
  unfoldable pub visit : ℕ → List ℕ → Walk → Walk
  unfolding read_task_struct
  visit va rest w =
      let w' =
        add_task (read_task_struct va)
          (record w { visited = w.visited ++ (va ∷ []); hops = w.hops + 1 }) in
      record w' { queue = rest ++ next_task (read (va + 0x4a8) 8) }

  abbrev pub is_skipped : ℕ → Walk → Bool
  is_skipped va w = mem va w.visited || ((va == 0) || not (is_valid_kernel_va va))

  -- The queue holds one address at most, so a round visits one or is the last.
  unfoldable pub walk_list : ℕ → Walk → Walk
  walk_list zero w = w
  walk_list (suc fuel) w = elim w.queue [
    | [] ↦ w
    | va ∷ rest ↦
        let skipped = walk_list fuel (record w { queue = rest }) in
        let visited = walk_list fuel (visit va rest w) in
        if leb max_hops w.hops then w else if is_skipped va w then skipped else visited
  ]
