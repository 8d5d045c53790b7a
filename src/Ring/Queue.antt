-- ===== src/Ring/Queue.antt =====
-- What a client may expect of the ring: a bounded first-in first-out queue of 64-bit addresses.
use vantacore_engine.Prelude.{
  Bool, List, Option, Result, [], false, if◌then◌else◌, leb, length, none, ok, overflow_error,
  raise, some, true, ℕ, ◌++◌, ◌+◌, ◌==◌, ◌^◌, ◌∷◌,
}

-- Oldest address first.
abbrev pub Queue : Type 0
Queue = List ℕ

-- A ring of `cap` slots holds at most `cap - 1` addresses.
unfoldable pub offer : ℕ → Queue → ℕ → Result Bool × Queue
offer cap q addr =
    if length q + 1 == cap
    then (ok false, q)
    else if leb (2 ^ 64) addr
    then (raise overflow_error, q)
    else (ok true, q ++ (addr ∷ []))

unfoldable pub poll : Queue → Option ℕ × Queue
poll [] = (none, [])
poll (addr ∷ q) = (some addr, q)
