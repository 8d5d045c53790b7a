-- ===== src/Worker/Main.antt =====
-- core/scanner/worker.py: `scanner_worker_main` as a whole. Before each round of its two loops
-- another process may put any addresses into the ring; the stop event is set behind the last round
-- of the first.
use vantacore_engine.Prelude.{
  Bool, Exception, List, Option, Result, [], false, none, ok, raise, some, true, ℕ, ◌++◌, ◌+◌, ◌∷◌,
}
use vantacore_engine.Bytes.{Bytes}
use vantacore_engine.Ring.{get, Handle, attach, close, enqueue}
use vantacore_engine.Worker.{handle, Run, round, drain}

-- The worker with its ring, and the addresses that were accepted while it runs.
pub record Shared : Type 0 where
  pub run : Run
  pub accepted : List ℕ

abbrev pub if_taken : Result Bool → ℕ → List ℕ
if_taken (ok true) addr = addr ∷ []
if_taken (ok false) addr = []
if_taken (raise e) addr = []

unfoldable pub offer_one : ℕ → Shared → Shared
offer_one addr w =
    let (reply, ring) = enqueue w.run.ring addr in
    record {
      run = record { ring = ring; results = w.run.results };
      accepted = w.accepted ++ if_taken reply addr;
    }

unfoldable pub offered : List ℕ → Shared → Shared
unfolding offer_one
offered [] w = w
offered (addr ∷ addrs) w = offered addrs (offer_one addr w)

-- No lock is passed, so the worker takes a lock of its own.
abbrev pub worker_lock : ℕ
worker_lock = 1

-- How the worker ends.
pub data Exit : Type 0 where
  not_attached not_opened failed drained : Exit

pub record Ended : Type 0 where
  pub exit : Exit
  pub handle : Option Handle
  pub shared : Shared

module _ (dump : Bytes) (window_size : ℕ) (dump_file_size : ℕ) where
  -- The first loop: a round for each list of addresses that are offered before it.
  unfoldable pub serve : Handle → List (List ℕ) → Shared → Option Exception × Shared
  unfolding offered
  serve h [] w = (none, w)
  serve h (offer ∷ offers) w =
      let w' = offered offer w in
      elim (round dump window_size dump_file_size h w'.run) [
        | raise e ↦ (some e, w')
        | ok r ↦ serve h offers (record { run = r; accepted = w'.accepted })
      ]

  -- The second loop, while addresses are offered before its rounds and then without; the Boolean
  -- says that the ring was found empty, which ends it.
  unfoldable pub drain_amid : Handle → List (List ℕ) → Shared → Bool × Shared
  unfolding offered
  drain_amid h [] w =
      let (empty, r) = drain dump window_size dump_file_size (w.run.ring.capacity + 1) h w.run in
      (empty, record { run = r; accepted = w.accepted })
  drain_amid h (offer ∷ offers) w =
      let w' = offered offer w in
      let (addr, ring) = get h w'.run.ring in
      elim addr [
        | raise e ↦ (
          false,
          record { run = record { ring = ring; results = w'.run.results }; accepted = w'.accepted },
        )
        | ok none ↦ (
          true,
          record { run = record { ring = ring; results = w'.run.results }; accepted = w'.accepted },
        )
        | ok (some a) ↦ drain_amid h offers (record {
          run = handle dump window_size dump_file_size w'.run a ring;
          accepted = w'.accepted;
        })
      ]

  abbrev pub exit_of : Bool → Exit
  exit_of true = drained
  exit_of false = failed

  -- Upon the stop event: the second loop, unless the first raised, and then the closing of both.
  unfoldable pub finish : Handle → List (List ℕ) → Option Exception × Shared → Ended
  unfolding drain_amid
  finish h offers (some e, w) = record { exit = failed; handle = some (close h); shared = w }
  finish h offers (none, w) =
      let (empty, w') = drain_amid h offers w in
      record { exit = exit_of empty; handle = some (close h); shared = w' }

-- The dump is what opening the file gives.
unfoldable pub scanner_worker_main :
    Option ℕ → Option ℕ → Result Bytes → ℕ → ℕ → List (List ℕ) → List (List ℕ) → Shared → Ended
unfolding serve finish
scanner_worker_main shm_data_name shm_meta_name dump window_size dump_file_size offers late w =
    elim (attach shm_data_name shm_meta_name none worker_lock) [
      | raise e ↦ record { exit = not_attached; handle = none; shared = w }
      | ok h ↦ elim dump [
        | raise e ↦ record { exit = not_opened; handle = some (close h); shared = w }
        | ok bytes ↦
            finish bytes window_size dump_file_size h late
              (serve bytes window_size dump_file_size h offers w)
      ]
    ]
