-- ===== src/Worker/Tests.antt =====
-- core/scanner/worker.py at a small dump.
use vantacore_engine.Prelude.{
  List, [], file_not_found, if◌then◌else◌, ltb, none, ok, raise, refl, some, true, ℕ, ◌+◌, ◌/◌, ◌∷◌,
  ◌≡◌,
}
use vantacore_engine.Bytes.{Bytes, little_endian}
use vantacore_engine.Ring.{attach, close, dequeue, enqueue, get}
use vantacore_engine.Worker.{Run, words, masked, process_address, drain, round}
use vantacore_engine.Worker.Candidates.{pointers, process_address-eq-pointers}
use vantacore_engine.Worker.Main.{
  worker_lock, drain_amid, offer_one, drained, finish, not_attached, not_opened, offered,
  scanner_worker_main, serve,
}

-- 0x1000 and 1, in a file said to be longer than they are.
abbrev two_words : Bytes
two_words = 0 ∷ 0x10 ∷ 0 ∷ 0 ∷ 0 ∷ 0 ∷ 0 ∷ 0 ∷ 1 ∷ 0 ∷ 0 ∷ 0 ∷ 0 ∷ 0 ∷ 0 ∷ 0 ∷ 7 ∷ []

finds :
    (process_address two_words 0 17 0x2000 ≡ 0x1000 ∷ [])
    × (process_address two_words 1 7 0x2000 ≡ [])
    × (process_address two_words 0 17 16 ≡ [])
    × (process_address two_words 0 8 0x1007 ≡ [])
unfolding process_address words masked little_endian
finds = (refl, refl, refl, refl)

process_address-eq-pointers_example :
    process_address two_words 0 17 17
    ≡ (if ltb 17 (0 + 17) then [] else pointers two_words 0 (17 / 8))
process_address-eq-pointers_example = process_address-eq-pointers two_words 0 17

abbrev two_queued : Run
two_queued = record {
  ring = record { head = 2; tail = 1; capacity = 3; slots = 8 ∷ 7 ∷ 0 ∷ [] };
  results = 5 ∷ [];
}

-- Of the offers 16 to 20 the full ring refuses the first.
abbrev offers : List (List ℕ)
offers = (16 ∷ []) ∷ (17 ∷ []) ∷ [] ∷ (18 ∷ []) ∷ []

abbrev late : List (List ℕ)
late = (19 ∷ []) ∷ (20 ∷ []) ∷ []

offers-accepted :
    let ended =
      scanner_worker_main
        (some 1)
        (some 2)
        (ok two_words)
        8
        0x2000
        offers
        late
        (record { run = two_queued; accepted = [] }) in
    (ended.exit ≡ drained) × (ended.shared.accepted ≡ 17 ∷ 18 ∷ 19 ∷ 20 ∷ [])
unfolding scanner_worker_main serve finish drain_amid offered offer_one drain process_address words
    masked little_endian attach enqueue get dequeue round
offers-accepted = (refl, refl)

no-names :
    (scanner_worker_main none
      (some 2)
      (ok two_words)
      8
      0x2000
      offers
      late
      (record { run = two_queued; accepted = [] })).exit
    ≡ not_attached
unfolding scanner_worker_main attach
no-names = refl

no-dump :
    let ended =
      scanner_worker_main
        (some 1)
        (some 2)
        (raise file_not_found)
        8
        0x2000
        offers
        late
        (record { run = two_queued; accepted = [] }) in
    (ended.exit ≡ not_opened) × (ended.handle ≡ some (record { closed = true; lock = worker_lock }))
unfolding scanner_worker_main attach close
no-dump = (refl, refl)
