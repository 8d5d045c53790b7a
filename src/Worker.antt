-- ===== src/Worker.antt =====
-- core/scanner/worker.py: `_process_address` and the loops of `scanner_worker_main`. The result
-- queue is the list of the numbers put, in order.
pub mod Candidates
pub mod Drain
pub mod Main
pub mod Service
mod Tests
use vantacore_engine.Prelude.{
  Bool, List, Result, [], drop, false, if◌then◌else◌, leb, length, ltb, none, ok, raise, some, suc,
  take, true, zero, ℕ, ◌%◌, ◌&&◌, ◌++◌, ◌+◌, ◌-◌, ◌/◌, ◌∷◌,
}
use vantacore_engine.Bytes.{Bytes, little_endian}
use vantacore_engine.Paging.{read_at}
use vantacore_engine.Ring.{Segment, Handle, get}

-- `np.frombuffer(..., dtype=np.uint64)`
unfoldable pub words : ℕ → Bytes → List ℕ
words zero window = []
words (suc n) window = little_endian (take 8 window) ∷ words n (drop 8 window)

-- `candidates[mask]`
unfoldable pub masked : ℕ → List ℕ → List ℕ
masked dump_file_size [] = []
masked dump_file_size (c ∷ candidates) =
    let rest = masked dump_file_size candidates in
    if leb 0x1000 c && leb c (dump_file_size - 8) then c ∷ rest else rest

-- An address of the ring is not negative.
unfoldable pub process_address : Bytes → ℕ → ℕ → ℕ → List ℕ
unfolding words masked
process_address dump addr window_size dump_file_size =
    if ltb dump_file_size (addr + window_size)
    then []
    else let window = read_at dump addr window_size in
      if ltb (length window) 8
      then []
      else let usable_len = length window - length window % 8 in
        masked dump_file_size (words (usable_len / 8) (take usable_len window))

-- What a worker keeps during its run.
pub record Run : Type 0 where
  pub ring : Segment
  pub results : List ℕ

module _ (dump : Bytes) (window_size : ℕ) (dump_file_size : ℕ) where
  -- After a `get` that found an address.
  abbrev pub handle : Run → ℕ → Segment → Run
  handle r addr ring = record {
    ring = ring;
    results = r.results ++ process_address dump addr window_size dump_file_size;
  }

  -- A round of the first loop: nothing to do if the ring is empty; an error ends the worker.
  unfoldable pub round : Handle → Run → Result Run
  round h r =
      let (addr, ring) = get h r.ring in
      elim addr [
        | raise e ↦ raise e
        | ok none ↦ ok (record { ring = ring; results = r.results })
        | ok (some a) ↦ ok (handle r a ring)
      ]

  -- The second loop, upon the stop event; the Boolean says that the ring was found empty.
  unfoldable pub drain : ℕ → Handle → Run → Bool × Run
  drain zero h r = (false, r)
  drain (suc fuel) h r =
      let (addr, ring) = get h r.ring in
      elim addr [
        | raise e ↦ (false, record { ring = ring; results = r.results })
        | ok none ↦ (true, record { ring = ring; results = r.results })
        | ok (some a) ↦ drain fuel h (handle r a ring)
      ]
