-- ===== src/Worker/Service.antt =====
-- core/scanner/worker.py: a worker from its start to its end.
use vantacore_engine.Prelude.{Bool, List, [], true, ℕ, ◌++◌, ◌≡◌}
use vantacore_engine.Bytes.{Bytes}
use vantacore_engine.Ring.{Segment, enqueue}
use vantacore_engine.Ring.Queue.{Queue}
use vantacore_engine.Ring.Refine.{contents}
use vantacore_engine.Worker.{Run}
use vantacore_engine.Worker.Drain.{processed}
use vantacore_engine.Worker.Main.{Shared, if_taken}

-- What an offer adds to the queue.
added : ℕ → Segment → List ℕ
added addr s = if_taken (enqueue s addr).0 addr

module _ (dump : Bytes) (window_size : ℕ) (dump_file_size : ℕ) where
  abbrev gives : List ℕ → List ℕ
  gives = processed dump window_size dump_file_size

  -- What is put out, and what the queue would give, is what all addresses give.
  IsBalanced : Run → Shared → Type 0
  IsBalanced start w =
      w.run.results ++ gives (contents w.run.ring)
      ≡ start.results ++ gives (contents start.ring ++ w.accepted)

  -- The ring is empty, and all has been put out.
  IsDone : Run → Bool × Shared → Type 0
  IsDone start p =
      (p.0 ≡ true)
      × ((contents p.1.run.ring ≡ [])
          × (p.1.run.results ≡ start.results ++ gives (contents start.ring ++ p.1.accepted)))
