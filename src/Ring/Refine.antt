-- ===== src/Ring/Refine.antt =====
-- core/scanner/ring_buffer.py: the segment against a first-in first-out queue of addresses.
use Prim.Native.Nat.{ℕ}
use native.Mathlib.Nat.{mod-add-mod, mod-eq_of_lt, mod-eq-sub-mod, add-zero}
use native.Mathlib.Decide.{dec_lt}
use vantacore_engine.Prelude.{
  Bool-cases, List, [], ap, ap₂, arith, false, get_or, get_or-set_ne, get_or-set_self, inl, inr,
  leb, length, ok, refl, set, suc, sym, true, zero, ◌%◌, ◌++◌, ◌+◌, ◌-◌, ◌<◌, ◌==◌, ◌^◌, ◌∙◌, ◌∷◌,
  ◌≡◌, ◌≢◌,
}
use vantacore_engine.Ring.{Segment, Handle, enqueue, put, dequeue, get}
use vantacore_engine.Ring.Queue.{Queue, offer, poll}
use vantacore_engine.Ring.Count.{
  count-lt-capacity, head-add-count, full_iff, empty_iff, count_after_put, count_after_get,
}
use vantacore_engine.Ring.Inv.{IsValid, count}

module _ (slots : List ℕ) (cap : ℕ) where
  -- The `n` addresses from index `h` on; the index goes round at `cap`.
  abbrev pub queued : ℕ → ℕ → Queue
  queued h zero = []
  queued h (suc n) = get_or slots (h % cap) 0 ∷ queued (suc h) n

  queued-mod : (h k n : ℕ) → h % cap ≡ k % cap → queued h n ≡ queued k n
  queued-mod h k zero e = refl
  queued-mod h k (suc n) e =
      ap₂ (λ (i : ℕ) (q : Queue). get_or slots i 0 ∷ q) e (queued-mod (suc h) (suc k) n next)
    where
      next : suc h % cap ≡ suc k % cap
      next = ground (arith, mod-add-mod h cap 1, mod-add-mod k cap 1)

length-queued : (slots : List ℕ) (cap h n : ℕ) → length (queued slots cap h n) ≡ n
length-queued slots cap h zero = refl
length-queued slots cap h (suc n) = ap suc (length-queued slots cap (suc h) n)

abbrev pub contents : Segment → Queue
contents s = queued s.slots s.capacity s.head (count s)

-- Fewer than `cap` places further round is another index.
mod-ne-add : (a d cap : ℕ) → 0 < d → d < cap → a % cap ≢ (a + d) % cap
mod-ne-add a d cap h k = elim (dec_lt (a % cap + d) cap) [
  | yes p ↦ omega (arith, mod-add-mod a cap d, mod-eq_of_lt p)
  | no p ↦ omega (
    arith,
    mod-add-mod a cap d,
    mod-eq-sub-mod {n = a % cap + d} {m = cap} (omega arith),
    mod-eq_of_lt {n = a % cap + d - cap} {m = cap} (omega arith),
  )
]

module _ (cap : ℕ) where
  queued-snoc :
      (slots : List ℕ) (h n : ℕ)
      → queued slots cap h (suc n) ≡ queued slots cap h n ++ (get_or slots ((h + n) % cap) 0 ∷ [])
  queued-snoc slots h zero = rw add-zero
  queued-snoc slots h (suc n) =
      let shift : suc h + n ≡ h + suc n = omega arith in
      ap (λ q. get_or slots (h % cap) 0 ∷ q) (queued-snoc slots (suc h) n ∙ rw shift)

  -- A write just past the queue leaves the queue alone.
  queued-set :
      (slots : List ℕ) (x h n i : ℕ)
      → n < cap
      → i ≡ (h + n) % cap
      → queued (set slots i x) cap h n ≡ queued slots cap h n
  queued-set slots x h zero i lt e = refl
  queued-set slots x h (suc n) i lt e =
      ap₂ ◌∷◌
        (get_or-set_ne slots x 0 (rw e (λ p. mod-ne-add h (suc n) cap (omega arith) lt (sym p))))
        (queued-set slots x (suc h) n i (omega arith) (e ∙ ap (λ k. k % cap) (omega arith)))

  -- A write at the tail appends.
  queued-push :
      (slots : List ℕ) (x h n i : ℕ)
      → n < cap
      → i < length slots
      → i ≡ (h + n) % cap
      → queued (set slots i x) cap h (suc n) ≡ queued slots cap h n ++ (x ∷ [])
  queued-push slots x h n i lt inside e =
      queued-snoc (set slots i x) h n
      ∙ ap₂ (λ (q : Queue) (y : ℕ). q ++ (y ∷ [])) (queued-set slots x h n i lt e)
          (rw (← e) (get_or-set_self slots i x 0 inside))

pub length-contents : (s : Segment) → length (contents s) ≡ count s
length-contents s = length-queued s.slots s.capacity s.head (count s)

pub contents-empty : (s : Segment) → count s ≡ 0 → contents s ≡ []
contents-empty s e = ap (queued s.slots s.capacity s.head) e

-- The state after an accepted `put`.
abbrev pushed : Segment → ℕ → Segment
pushed s addr = record s { tail = (s.tail + 1) % s.capacity; slots = set s.slots s.tail addr }

contents-pushed :
    {s : Segment} (addr : ℕ)
    → IsValid s
    → (s.tail + 1) % s.capacity ≢ s.head
    → contents (pushed s addr) ≡ contents s ++ (addr ∷ [])
contents-pushed {s} addr v ne =
    ap (queued (set s.slots s.tail addr) s.capacity s.head) {y = suc (count s)}
      (count_after_put v ne ∙ omega arith)
    ∙ queued-push s.capacity s.slots addr s.head (count s) s.tail (count-lt-capacity v)
        (omega (arith, v)) (sym (head-add-count v))

-- What `put` does under the lock is what the bounded queue does.
pub enqueue_refines :
    {s : Segment} (addr : ℕ)
    → IsValid s
    → let (r, s') = enqueue s addr in (r, contents s') ≡ offer s.capacity (contents s) addr
unfolding enqueue offer
enqueue_refines {s} addr v = elim (Bool-cases ((s.tail + 1) % s.capacity == s.head)) [
  | inl full ↦
      let q : (length (contents s) + 1 == s.capacity) ≡ true =
        ground (arith, length-contents s, full_iff v) in
      rw full (rw q refl)
  | inr room ↦
      let q : (length (contents s) + 1 == s.capacity) ≡ false =
        ground (arith, length-contents s, full_iff v) in
      let pushes = contents-pushed addr v (ground arith) in
      elim (Bool-cases (leb (2 ^ 64) addr)) [
        | inl wide ↦ rw room (rw q (rw wide refl))
        | inr fits ↦ rw room (rw q (rw fits (rw pushes refl)))
      ]
]

-- `queued` matches on a successor, the code tests head against tail.
queued-ne-zero :
    (slots : List ℕ) (cap h n : ℕ)
    → n ≢ 0
    → h < cap
    → queued slots cap h n ≡ get_or slots h 0 ∷ queued slots cap ((h + 1) % cap) (n - 1)
queued-ne-zero slots cap h zero ne lt = absurd (ne refl)
queued-ne-zero slots cap h (suc n) ne lt =
    ap₂ (λ (i : ℕ) (q : Queue). get_or slots i 0 ∷ q) (mod-eq_of_lt lt)
      (queued-mod slots cap (suc h) ((h + 1) % cap) n (ground (arith, mod-add-mod (h + 1) cap 0))
        ∙ ap (queued slots cap ((h + 1) % cap)) (omega arith))

-- What `get` does under the lock is what the queue does.
pub dequeue_refines :
    {s : Segment} → IsValid s → let (r, s') = dequeue s in (r, contents s') ≡ poll (contents s)
unfolding dequeue poll
dequeue_refines {s} v =
    ground
      (arith, empty_iff v, count_after_get v, queued-ne-zero s.slots s.capacity s.head (count s), v)

pub get_open :
    (h : Handle) (s : Segment) → h.closed ≡ false → get h s ≡ (ok (dequeue s).0, (dequeue s).1)
unfolding get
get_open h s e = rw e refl

pub put_open :
    (h : Handle) (s : Segment) (addr : ℕ) → h.closed ≡ false → put h s addr ≡ enqueue s addr
unfolding put
put_open h s addr e = rw e refl

pub capacity-enqueue : (s : Segment) (addr : ℕ) → (enqueue s addr).1.capacity ≡ s.capacity
unfolding enqueue
capacity-enqueue s addr = ground arith

lt→leb-false : (a b : ℕ) → a < b → leb b a ≡ false
lt→leb-false a b h = ground arith

offer_accepts :
    (cap : ℕ) (q : Queue) (addr : ℕ)
    → length q + 1 < cap
    → addr < 2 ^ 64
    → offer cap q addr ≡ (ok true, q ++ (addr ∷ []))
unfolding offer
offer_accepts cap q addr room fits =
    let full : (length q + 1 == cap) ≡ false = ground arith in
    let wide : leb (2 ^ 64) addr ≡ false = lt→leb-false addr (2 ^ 64) fits in rw (full, wide) refl

-- A queue with room takes a 64-bit address at its end.
pub enqueue_accepts :
    {s : Segment} (addr : ℕ)
    → IsValid s
    → length (contents s) + 1 < s.capacity
    → addr < 2 ^ 64
    → ((enqueue s addr).0 ≡ ok true) × (contents (enqueue s addr).1 ≡ contents s ++ (addr ∷ []))
enqueue_accepts {s} addr v room fits =
    let accepted : offer s.capacity (contents s) addr ≡ (ok true, contents s ++ (addr ∷ [])) =
      offer_accepts s.capacity (contents s) addr room fits in
    let path = enqueue_refines addr v ∙ accepted in (ap (λ p. p.0) path, ap (λ p. p.1) path)
