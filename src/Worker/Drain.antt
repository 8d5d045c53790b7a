-- ===== src/Worker/Drain.antt =====
-- core/scanner/worker.py: the loop that empties the ring.
use vantacore_engine.Prelude.{
  List, [], ap, arith, false, length, none, refl, some, suc, sym, true, zero, ℕ, ◌++◌, ◌<◌, ◌∙◌,
  ◌∷◌, ◌≡◌,
}
use mathlib.Core.List.{append-nil, append_assoc}
use vantacore_engine.Bytes.{Bytes}
use vantacore_engine.Ring.{Segment, Handle, dequeue}
use vantacore_engine.Ring.Inv.{IsValid, count, dequeue-IsValid}
use vantacore_engine.Ring.Queue.{poll}
use vantacore_engine.Ring.Refine.{contents, length-contents, dequeue_refines, get_open}
use vantacore_engine.Worker.{Run, process_address, handle, drain}

pub dequeue_nothing : {s : Segment} → IsValid s → contents s ≡ [] → (dequeue s).0 ≡ none
unfolding poll
dequeue_nothing {s} v e = ap (λ p. p.0) (dequeue_refines v) ∙ ap (λ q. (poll q).0) e

pub dequeue_first :
    {s : Segment} {addr : ℕ} {q : List ℕ}
    → IsValid s
    → contents s ≡ addr ∷ q
    → ((dequeue s).0 ≡ some addr) × (contents (dequeue s).1 ≡ q)
unfolding poll
dequeue_first {s} {addr} {q} v e = (
  ap (λ p. p.0) (dequeue_refines v) ∙ ap (λ q. (poll q).0) e,
  ap (λ p. p.1) (dequeue_refines v) ∙ ap (λ q. (poll q).1) e,
)

pub dequeue_rest : {s : Segment} → IsValid s → contents s ≡ [] → contents (dequeue s).1 ≡ []
unfolding poll
dequeue_rest {s} v e = ap (λ p. p.1) (dequeue_refines v) ∙ ap (λ q. (poll q).1) e

module _ (dump : Bytes) (window_size : ℕ) (dump_file_size : ℕ) where
  -- What the addresses of a queue give, one after the other.
  abbrev pub processed : List ℕ → List ℕ
  processed [] = []
  processed (addr ∷ q) = process_address dump addr window_size dump_file_size ++ processed q

  drain_queue :
      (fuel : ℕ) (h : Handle) (r : Run) (q : List ℕ)
      → h.closed ≡ false
      → IsValid r.ring
      → contents r.ring ≡ q
      → length q < fuel
      → let (empty, r') = drain dump window_size dump_file_size fuel h r in
        (empty ≡ true) × ((contents r'.ring ≡ []) × (r'.results ≡ r.results ++ processed q))
  unfolding drain
  drain_queue zero h r q o v e k = absurd (omega arith)
  drain_queue (suc fuel) h r [] o v e k =
      rw (drain, get_open h r.ring o, dequeue_nothing v e, get_open h r.ring o)
        (refl, (dequeue_rest v e, sym (append-nil r.results)))
  drain_queue (suc fuel) h r (addr ∷ q) o v e k =
      rw (drain, get_open h r.ring o, (dequeue_first v e).0, get_open h r.ring o)
        (let (empty, (left, results)) =
            drain_queue fuel h (handle dump window_size dump_file_size r addr (dequeue r.ring).1) q
              o (dequeue-IsValid v) (dequeue_first v e).1 (omega arith) in
          (
            empty,
            (
              left,
              results
                  ∙ append_assoc r.results (process_address dump addr window_size dump_file_size)
                      (processed q),
            ),
          ))

-- Upon the stop event a worker empties the ring, if nobody adds to it any more: as many rounds as
-- there are addresses and one more find it empty, and the results are what each of the queued
-- addresses gives, in their order.
pub drain_lem :
    (dump : Bytes) (window_size dump_file_size fuel : ℕ) (h : Handle) (r : Run)
    → h.closed ≡ false
    → IsValid r.ring
    → count r.ring < fuel
    → let (empty, r') = drain dump window_size dump_file_size fuel h r in
      (empty ≡ true)
      × ((contents r'.ring ≡ [])
          × (r'.results ≡ r.results ++ processed dump window_size dump_file_size (contents r.ring)))
drain_lem dump window_size dump_file_size fuel h r o v k =
    drain_queue dump window_size dump_file_size fuel h r (contents r.ring) o v refl
      (omega (arith, length-contents r.ring))
