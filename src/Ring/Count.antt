-- ===== src/Ring/Count.antt =====
-- core/scanner/ring_buffer.py: the index arithmetic, in terms of the number of queued addresses.
use native.Mathlib.Nat.{mod-eq_of_lt, mod-eq-sub-mod}
use native.Mathlib.Decide.{dec_lt}
use vantacore_engine.Prelude.{arith, inl, inr, ℕ, ◌%◌, ◌+◌, ◌-◌, ◌<◌, ◌↔◌, ◌∙◌, ◌≡◌, ◌≢◌, ◌≤◌, ◌⊎◌}
use vantacore_engine.Ring.{Segment}
use vantacore_engine.Ring.Inv.{IsValid, count}

-- An index below `2 * cap` goes round once at most.
pub mod_once :
    (x cap : ℕ) → x < cap + cap → (x < cap) × (x % cap ≡ x) ⊎ (cap ≤ x) × (x % cap ≡ x - cap)
mod_once x cap h = elim (dec_lt x cap) [
  | yes p ↦ inl (p, mod-eq_of_lt p)
  | no p ↦ inr (
    omega arith,
    mod-eq-sub-mod {n = x} {m = cap} (omega arith)
        ∙ mod-eq_of_lt {n = x - cap} {m = cap} (omega arith),
  )
]

module _ {s : Segment} (v : IsValid s) where
  abbrev next_tail : ℕ
  next_tail = (s.tail + 1) % s.capacity

  pub count-lt-capacity : count s < s.capacity
  count-lt-capacity = omega (arith, v)

  pub head-add-count : (s.head + count s) % s.capacity ≡ s.tail
  head-add-count = ground (
    arith,
    v,
    mod_once (s.tail + s.capacity - s.head) s.capacity,
    mod_once (s.head + count s) s.capacity,
  )

  pub full_iff : (next_tail ≡ s.head) ↔ (count s + 1 ≡ s.capacity)
  full_iff = ground (
    arith,
    v,
    mod_once (s.tail + s.capacity - s.head) s.capacity,
    mod_once (s.tail + 1) s.capacity,
  )

  pub empty_iff : (s.head ≡ s.tail) ↔ (count s ≡ 0)
  empty_iff = ground (arith, v, mod_once (s.tail + s.capacity - s.head) s.capacity)

  pub count_after_put :
      next_tail ≢ s.head → (next_tail + s.capacity - s.head) % s.capacity ≡ count s + 1
  count_after_put ne = ground (
    arith,
    v,
    mod_once (s.tail + s.capacity - s.head) s.capacity,
    mod_once (s.tail + 1) s.capacity,
    mod_once (next_tail + s.capacity - s.head) s.capacity,
  )

  pub count_after_get :
      s.head ≢ s.tail → (s.tail + s.capacity - (s.head + 1) % s.capacity) % s.capacity + 1 ≡ count s
  count_after_get ne = ground (
    arith,
    v,
    mod_once (s.tail + s.capacity - s.head) s.capacity,
    mod_once (s.head + 1) s.capacity,
    mod_once (s.tail + s.capacity - (s.head + 1) % s.capacity) s.capacity,
  )
