-- ===== src/Ring/Inv.antt =====
-- core/scanner/ring_buffer.py: what every method keeps true of the shared segment.
use vantacore_engine.Prelude.{
  Option, arith, false, length, length-replicate, length-set, ok, ℕ, ◌%◌, ◌+◌, ◌-◌, ◌<◌, ◌≡◌, ◌≤◌,
}
use vantacore_engine.Ring.{Segment, Handle, hard_capacity_limit, create, enqueue, put, dequeue}

pub record IsValid (s : Segment) : Type 0 where
  pub positive : 0 < s.capacity
  pub limited : s.capacity ≤ hard_capacity_limit
  pub head_in : s.head < s.capacity
  pub tail_in : s.tail < s.capacity
  pub allocated : length s.slots ≡ s.capacity

-- The number of queued addresses, going round from the head to the tail.
abbrev pub count : Segment → ℕ
count s = (s.tail + s.capacity - s.head) % s.capacity

pub create-IsValid :
    (capacity : ℕ) (lock : Option ℕ) (own : ℕ) {h : Handle} {s : Segment}
    → create capacity lock own ≡ ok (h, s)
    → IsValid s × (s.capacity ≡ capacity) × (s.head ≡ s.tail)
unfolding create
create-IsValid capacity lock own e = ground (arith, length-replicate {A = ℕ} capacity 0)

pub enqueue-IsValid : {s : Segment} (addr : ℕ) → IsValid s → IsValid (enqueue s addr).1
unfolding enqueue
enqueue-IsValid {s} addr v = ground (arith, length-set s.slots s.tail addr)

pub dequeue-IsValid : {s : Segment} → IsValid s → IsValid (dequeue s).1
unfolding dequeue
dequeue-IsValid {s} v = ground arith

pub put-IsValid : (h : Handle) {s : Segment} (addr : ℕ) → IsValid s → IsValid (put h s addr).1
unfolding put
put-IsValid h {s} addr v = ground (arith, enqueue-IsValid addr v)

pub create-open :
    (capacity : ℕ) (lock : Option ℕ) (own : ℕ) {h : Handle} {s : Segment}
    → create capacity lock own ≡ ok (h, s)
    → h.closed ≡ false
unfolding create
create-open capacity lock own e = ground arith
