-- ===== src/Ring.antt =====
-- core/scanner/ring_buffer.py: `SharedMemoryRingBuffer`.
-- `Segment` is what the two shared memory segments hold (every attached process sees the same
-- one), `Handle` what one process keeps for itself. Each method body that runs under the lock is
-- one step on the segment, which it is among processes that take one and the same lock.
pub mod Inv
pub mod Count
pub mod Queue
pub mod Refine
pub mod Trace
mod Tests
use vantacore_engine.Prelude.{
  Bool, List, Option, Result, false, get_or, if◌then◌else◌, leb, ltb, none, ok, overflow_error,
  raise, replicate, runtime_error, set, some, true, value_error, ℕ, ◌%◌, ◌+◌, ◌==◌, ◌^◌, ◌||◌,
}

abbrev pub hard_capacity_limit : ℕ
hard_capacity_limit = 65536

-- The metadata words at offsets 0, 8 and 16, and the array of `capacity` slots.
pub record Segment : Type 0 where
  pub head : ℕ
  pub tail : ℕ
  pub capacity : ℕ
  pub slots : List ℕ

-- The part of the object that is private to a process: whether it has closed its attachment, and
-- which lock it takes.
pub record Handle : Type 0 where
  pub closed : Bool
  pub lock : ℕ

-- `lock if lock is not None else multiprocessing.Lock()`, where `own` is the lock that is new.
abbrev pub lock_or : Option ℕ → ℕ → ℕ
lock_or none own = own
lock_or (some lock) own = lock

-- `__init__` with create=True. Fresh shared memory is zeroed.
unfoldable pub create : ℕ → Option ℕ → ℕ → Result (Handle × Segment)
create capacity lock own =
    if leb capacity 0 || ltb hard_capacity_limit capacity
    then raise value_error
    else ok (
      record { closed = false; lock = lock_or lock own },
      record { head = 0; tail = 0; capacity = capacity; slots = replicate capacity 0 },
    )

-- `__init__` with create=False: the two names, where none stands for one that is missing or empty.
-- The capacity is read from the segment, so attaching leaves it as it is.
unfoldable pub attach : Option ℕ → Option ℕ → Option ℕ → ℕ → Result Handle
attach (some data_name) (some meta_name) lock own =
    ok (record { closed = false; lock = lock_or lock own })
attach _ _ lock own = raise value_error

-- The body of `put` under the lock. A `uint64` slot refuses an integer that does not fit, and
-- that is after the test for a full ring and before the tail is moved.
unfoldable pub enqueue : Segment → ℕ → Result Bool × Segment
enqueue s addr =
    let next_tail = (s.tail + 1) % s.capacity in
    if next_tail == s.head
    then (ok false, s)
    else if leb (2 ^ 64) addr
    then (raise overflow_error, s)
    else (ok true, record s { tail = next_tail; slots = set s.slots s.tail addr })

pub put : Handle → Segment → ℕ → Result Bool × Segment
unfolding enqueue
put h s addr = if h.closed then (raise runtime_error, s) else enqueue s addr

-- The body of `get` under the lock.
unfoldable pub dequeue : Segment → Option ℕ × Segment
dequeue s =
    if s.head == s.tail
    then (none, s)
    else (some (get_or s.slots s.head 0), record s { head = (s.head + 1) % s.capacity })

unfoldable pub get : Handle → Segment → Result (Option ℕ) × Segment
unfolding dequeue
get h s = if h.closed then (raise runtime_error, s) else let (addr, s') = dequeue s in (ok addr, s')

pub is_empty : Handle → Segment → Bool
is_empty h s = if h.closed then true else s.head == s.tail

pub is_full : Handle → Segment → Bool
is_full h s = if h.closed then false else (s.tail + 1) % s.capacity == s.head

-- `close` and `__exit__`. What the operating system does to the mapping cannot be seen through
-- the object, and its errors are swallowed.
unfoldable pub close : Handle → Handle
close h = record h { closed = true }

-- `unlink`, with whether the names of the two segments are still in the system's namespace. The
-- memory stays with the processes that are attached.
unfoldable pub unlink : Handle → Bool → Handle × Bool
unfolding close
unlink h linked = (close h, false)
