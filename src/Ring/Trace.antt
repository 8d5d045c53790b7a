-- ===== src/Ring/Trace.antt =====
-- core/scanner/ring_buffer.py: any number of processes on one segment. A lock that all of them take
-- makes each call one step, so an execution is a sequence of calls, each by a process with its own
-- handle.
use mathlib.Core.List.{append_assoc}
use vantacore_engine.Prelude.{
  Bool, Bool-cases, List, Option, Result, [], arith, false, inl, inr, length, ok, some, subst, sym,
  true, ℕ, ◌++◌, ◌+◌, ◌<◌, ◌↔◌, ◌∙◌, ◌∷◌, ◌≡◌, ◌⊎◌,
}
use vantacore_engine.Ring.{Segment, Handle, create, enqueue, put, dequeue, get, is_empty, is_full}
use vantacore_engine.Ring.Queue.{Queue, offer, poll}
use vantacore_engine.Ring.Inv.{IsValid, create-IsValid, enqueue-IsValid, dequeue-IsValid}
use vantacore_engine.Ring.Count.{full_iff, empty_iff, count-lt-capacity}
use vantacore_engine.Ring.Refine.{
  contents, enqueue_refines, dequeue_refines, length-contents, contents-empty,
}

pub data Call : Type 0 where
  putting : Handle → ℕ → Call
  getting : Handle → Call

abbrev handle_of : Call → Handle
handle_of (putting h addr) = h
handle_of (getting h) = h

-- All calls are by processes that take this lock.
abbrev pub AllTake : ℕ → List Call → Type 0
AllTake lock [] = Unit {0}
AllTake lock (call ∷ calls) = ((handle_of call).lock ≡ lock) × AllTake lock calls

-- The addresses that the producers were told are queued, and those that the consumers received.
pub record Log : Type 0 where
  pub accepted : List ℕ
  pub delivered : List ℕ

abbrev accept : Result Bool → ℕ → Log → Log
accept (ok true) addr l = record l { accepted = l.accepted ++ (addr ∷ []) }
accept _ addr l = l

abbrev deliver : Result (Option ℕ) → Log → Log
deliver (ok (some addr)) l = record l { delivered = l.delivered ++ (addr ∷ []) }
deliver _ l = l

abbrev pub step : Segment × Log → Call → Segment × Log
step (s, l) (putting h addr) = let (r, s') = put h s addr in (s', accept r addr l)
step (s, l) (getting h) = let (r, s') = get h s in (s', deliver r l)

unfoldable pub execute : Segment × Log → List Call → Segment × Log
execute c [] = c
execute c (call ∷ calls) = execute (step c call) calls

-- Each accepted address is delivered or still queued, in the order in which it was accepted.
pub record Conserves (c : Segment × Log) : Type 0 where
  pub valid : IsValid c.0
  pub order : c.1.accepted ≡ c.1.delivered ++ contents c.0

abbrev InOrder : Log → Queue → Type 0
InOrder l q = l.accepted ≡ l.delivered ++ q

offer-InOrder :
    (cap : ℕ) (q : Queue) (addr : ℕ) (l : Log)
    → InOrder l q
    → let (r, q') = offer cap q addr in InOrder (accept r addr l) q'
unfolding offer
offer-InOrder cap q addr l e = ground (arith, append_assoc l.delivered q (addr ∷ []))

poll-InOrder :
    (q : Queue) (l : Log) → InOrder l q → let (r, q') = poll q in InOrder (deliver (ok r) l) q'
unfolding poll
poll-InOrder [] l e = e
poll-InOrder (addr ∷ q) l e = e ∙ sym (append_assoc l.delivered (addr ∷ []) q)

enqueue-Conserves :
    {s : Segment} {l : Log} (addr : ℕ)
    → Conserves (s, l)
    → let (r, s') = enqueue s addr in Conserves (s', accept r addr l)
enqueue-Conserves {s} {l} addr c = record {
  valid = enqueue-IsValid addr c.valid;
  order =
      subst (λ (o : Result Bool × Queue). InOrder (accept o.0 addr l) o.1)
        (sym (enqueue_refines addr c.valid)) (offer-InOrder s.capacity (contents s) addr l c.order);
}

dequeue-Conserves :
    {s : Segment} {l : Log}
    → Conserves (s, l)
    → let (r, s') = dequeue s in Conserves (s', deliver (ok r) l)
dequeue-Conserves {s} {l} c = record {
  valid = dequeue-IsValid c.valid;
  order =
      subst (λ (o : Option ℕ × Queue). InOrder (deliver (ok o.0) l) o.1)
        (sym (dequeue_refines c.valid)) (poll-InOrder (contents s) l c.order);
}

pub step-Conserves : {c : Segment × Log} (call : Call) → Conserves c → Conserves (step c call)
unfolding put get
step-Conserves (putting h addr) c = elim (Bool-cases h.closed) [
  | inl e ↦ rw e c
  | inr e ↦ rw e (enqueue-Conserves addr c)
]
step-Conserves (getting h) c = elim (Bool-cases h.closed) [
  | inl e ↦ rw e c
  | inr e ↦ rw e (dequeue-Conserves c)
]

execute-Conserves :
    (calls : List Call) {c : Segment × Log} → Conserves c → Conserves (execute c calls)
unfolding execute
execute-Conserves [] h = h
execute-Conserves (call ∷ calls) h = execute-Conserves calls (step-Conserves call h)

abbrev pub no_calls : Log
no_calls = record { accepted = []; delivered = [] }

-- From a ring that `__init__` created, whatever calls are made by processes that take the lock of
-- that ring, and in whatever order it lets them in, the addresses accepted by `put` are, in that
-- order, those that `get` delivered followed by those still queued, and at most `capacity - 1` are
-- queued.
pub execute_conserves :
    (capacity : ℕ) (lock : Option ℕ) (own : ℕ) (calls : List Call) {h : Handle} {s : Segment}
    → create capacity lock own ≡ ok (h, s)
    → AllTake h.lock calls
    → let (t, l) = execute (s, no_calls) calls in
      (l.accepted ≡ l.delivered ++ contents t) × (length (contents t) < t.capacity)
execute_conserves capacity lock own calls {h} {s} e shared =
    let (valid, _, empty) = create-IsValid capacity lock own e in
    let start : Conserves (s, no_calls) = record {
      valid = valid;
      order = sym (contents-empty s ((empty_iff valid).0 empty));
    } in
    let end = execute-Conserves calls start in
    let t = (execute (s, no_calls) calls).0 in
    (end.order, omega (arith, length-contents t, count-lt-capacity end.valid))

-- On an open handle `is_empty` and `is_full` say whether the queue has no address and whether it
-- has the `capacity - 1` that make `put` return False; on a closed one they say True and False.
pub is_empty-is_full_iff :
    (h : Handle) {s : Segment}
    → IsValid s
    → ((is_empty h s ≡ true) ↔ ((h.closed ≡ true) ⊎ (contents s ≡ [])))
      × ((is_full h s ≡ true) ↔ (h.closed ≡ false) × (length (contents s) + 1 ≡ s.capacity))
unfolding is_empty is_full
is_empty-is_full_iff h {s} v =
    ground (arith, length-contents s, full_iff v, empty_iff v, contents-empty s, v)
