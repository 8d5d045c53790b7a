-- ===== src/Coordinator/Pipeline.antt =====
-- core/scanner/: the coordinator, the ring and a worker together.
use mathlib.Core.List.{append-nil, append_assoc}
use vantacore_engine.Prelude.{
  Bool, List, Option, Result, [], ap, arith, false, file_not_found, length, length-append, none, ok,
  raise, refl, some, sym, true, ℕ, ◌&&◌, ◌++◌, ◌+◌, ◌<◌, ◌^◌, ◌∙◌, ◌∷◌, ◌≡◌,
}
use vantacore_engine.Bytes.{Bytes}
use vantacore_engine.Ring.{Handle, Segment, create, enqueue}
use vantacore_engine.Ring.Count.{empty_iff}
use vantacore_engine.Ring.Inv.{IsValid, create-IsValid, create-open, enqueue-IsValid}
use vantacore_engine.Ring.Refine.{
  contents, contents-empty, length-contents, put_open, capacity-enqueue, enqueue_accepts,
}
use vantacore_engine.Worker.{drain}
use vantacore_engine.Worker.Drain.{processed, drain_lem}
use vantacore_engine.Coordinator.{Coordinator, launch, start, put_to, submit}

abbrev is_accepted : Result Bool → Bool
is_accepted (ok accepted) = accepted
is_accepted (raise e) = false

-- One `submit` after the other; the Boolean says that each of them returned True.
unfoldable pub submit_all : Coordinator → List ℕ → Bool × Coordinator
submit_all c [] = (true, c)
submit_all c (addr ∷ addrs) =
    let (reply, c') = submit c addr in
    let (accepted, c'') = submit_all c' addrs in (is_accepted reply && accepted, c'')

abbrev pub AreAddresses : List ℕ → Type 0
AreAddresses [] = Unit {0}
AreAddresses (addr ∷ addrs) = (addr < 2 ^ 64) × AreAddresses addrs

submit_open :
    (c : Coordinator) (addr : ℕ) (h : Handle) (s : Segment)
    → c.started ≡ true
    → c.ring_buffer ≡ some (h, s)
    → h.closed ≡ false
    → submit c addr ≡ ((enqueue s addr).0, record c { ring_buffer = some (h, (enqueue s addr).1) })
unfolding submit
submit_open c addr h s o e open_ring =
    let step : submit c addr ≡ put_to c addr c.ring_buffer = simp o refl in
    let put : put_to c addr (some (h, s))
        ≡ ((enqueue s addr).0, record c { ring_buffer = some (h, (enqueue s addr).1) }) =
      ap {A = Result Bool × Segment} {B = Result Bool × Coordinator}
        (λ p. (p.0, record c { ring_buffer = some (h, p.1) })) (put_open h s addr open_ring) in
    step ∙ ap (put_to c addr) e ∙ put

submit_all_lem :
    (c : Coordinator) (addrs : List ℕ) (h : Handle) (s : Segment)
    → c.started ≡ true
    → c.ring_buffer ≡ some (h, s)
    → h.closed ≡ false
    → IsValid s
    → AreAddresses addrs
    → length (contents s) + length addrs < s.capacity
    → let (accepted, c') = submit_all c addrs in
      (accepted ≡ true)
      × ((s' : Segment) × (c'.ring_buffer ≡ some (h, s'))
          × IsValid s'
          × (contents s' ≡ contents s ++ addrs))
unfolding submit_all
submit_all_lem c [] h s o e open_ring v fits room = (refl, (s, e, v, sym (append-nil (contents s))))
submit_all_lem c (addr ∷ addrs) h s o e open_ring v fits room =
    let s' = (enqueue s addr).1 in
    let (reply, pushed) = enqueue_accepts addr v (omega arith) fits.0 in
    let longer : length (contents s') ≡ length (contents s) + 1 =
      ap length pushed ∙ length-append (contents s) (addr ∷ []) in
    let (rest, (t, ring, valid, queue)) =
      submit_all_lem (record c { ring_buffer = some (h, s') }) addrs h s' o refl open_ring
        (enqueue-IsValid addr v) fits.1 (omega (arith, capacity-enqueue s addr, longer)) in
    rw (submit_open c addr h s o e open_ring, reply)
      (
        rest,
        (
          t,
          ring,
          valid,
          queue ∙ ap (λ q. q ++ addrs) pushed ∙ append_assoc (contents s) (addr ∷ []) addrs,
        ),
      )

-- The coordinator runs with an empty ring of a capacity.
abbrev IsReady : ℕ → Coordinator → Type 0
IsReady capacity c =
    (c.started ≡ true)
    × ((h : Handle) × (s : Segment) × (c.ring_buffer ≡ some (h, s))
        × (h.closed ≡ false)
        × IsValid s
        × (contents s ≡ [])
        × (s.capacity ≡ capacity))

launch-IsReady :
    (c : Coordinator) (ring : Result (Handle × Segment))
    → create c.ring_buffer_capacity none 0 ≡ ring
    → (launch c ring).0 ≡ ok tt
    → IsReady c.ring_buffer_capacity (launch c ring).1
launch-IsReady c (raise x) made e = cc
launch-IsReady c (ok (h, s)) made e =
    let (valid, size, empty) = create-IsValid c.ring_buffer_capacity none 0 made in
    (
      refl,
      (
        h,
        s,
        refl,
        create-open c.ring_buffer_capacity none 0 made,
        valid,
        contents-empty s ((empty_iff valid).0 empty),
        size,
      ),
    )

no_success : ¬ (◌≡◌ {A = Result (Unit {0})} (raise file_not_found) (ok tt))
no_success e = cc

start-IsReady :
    (file_size : Option ℕ) (c : Coordinator)
    → (start file_size c).0 ≡ ok tt
    → c.started ≡ false
    → IsReady c.ring_buffer_capacity (start file_size c).1
unfolding start
start-IsReady none c e o = absurd (no_success (simp o at e))
start-IsReady (some size) c e o =
    simp o (launch-IsReady c (create c.ring_buffer_capacity none 0) refl (simp o at e))

-- From `start` to the results: as many 64-bit addresses as the ring has room for, submitted to a
-- coordinator that has just been started, are all accepted, and a worker that then empties the
-- ring puts out what each of them gives, in the order in which they were submitted.
pub submitted-processed :
    (dump : Bytes) (window_size dump_file_size : ℕ) (file_size : Option ℕ) (c : Coordinator)
    (addrs : List ℕ)
    → c.started ≡ false
    → (start file_size c).0 ≡ ok tt
    → AreAddresses addrs
    → length addrs < c.ring_buffer_capacity
    → let (accepted, c') = submit_all (start file_size c).1 addrs in
      (accepted ≡ true)
      × ((h : Handle) × (s : Segment) × (c'.ring_buffer ≡ some (h, s))
          × ((drain dump window_size dump_file_size
                (length addrs + 1)
                h
                (record { ring = s; results = [] })).1.results
              ≡ processed dump window_size dump_file_size addrs))
submitted-processed dump window_size dump_file_size file_size c addrs o e fits room =
    let (on, (h, s, ring, open_ring, valid, empty, size)) = start-IsReady file_size c e o in
    let (accepted, (t, ring', valid', queue)) =
      submit_all_lem (start file_size c).1 addrs h s on ring open_ring valid fits
        (omega (arith, ap length empty)) in
    let all : contents t ≡ addrs = queue ∙ ap (λ q. q ++ addrs) empty in
    let (_, (_, results)) =
      drain_lem dump window_size dump_file_size (length addrs + 1) h
        (record { ring = t; results = [] }) open_ring valid'
        (omega (arith, length-contents t, ap length all)) in
    (accepted, (h, t, ring', results ∙ ap (processed dump window_size dump_file_size) all))
