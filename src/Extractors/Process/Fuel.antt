-- ===== src/Extractors/Process/Fuel.antt =====
-- extractors/linux/process.py: the walk of the task list does not hang on its fuel.
use vantacore_engine.Prelude.{
  Bool, List-cases, Result, [], ap, arith, false, if◌then◌else◌, inl, inr, leb, length,
  length-append, refl, suc, sym, true, zero, ℕ, ◌+◌, ◌∙◌, ◌≡◌, ◌≤◌,
}
use vantacore_engine.Bytes.{Bytes}
use vantacore_engine.Bytes.Laws.{length-zero}
use vantacore_engine.Extractors.Process.{Walk, max_hops, next_task, visit, is_skipped, walk_list}
use vantacore_engine.Extractors.Process.Walking.{
  hops-visit, next_task-short, queue-visit, walk_list-cons, walk_list-nil, walk_list-zero,
}

module _ (read : ℕ → ℕ → Result Bytes) where
  full_stop :
      (fuel : ℕ) (w : Walk)
      → max_hops ≤ w.hops
      → walk_list read (suc fuel) w ≡ walk_list read zero w
  full_stop fuel w full = elim (List-cases w.queue) [
    | inl e ↦ walk_list-nil read (suc fuel) w e ∙ sym (walk_list-zero read w)
    | inr (va, rest, e) ↦
        let capped : leb max_hops w.hops ≡ true = ground (arith, full) in
        walk_list-cons read fuel va rest w e ∙ rw capped (sym (walk_list-zero read w))
  ]

  branches :
      (full skip : Bool) (w : Walk) {a b c d : Walk}
      → a ≡ c
      → (full ≡ false → b ≡ d)
      → (if full then w else if skip then a else b) ≡ (if full then w else if skip then c else d)
  branches true skip w e f = refl
  branches false true w e f = e
  branches false false w e f = f refl

  -- A walk that has fuel for all hops that are left has enough.
  pub walk_list-more :
      (fuel more : ℕ) (w : Walk)
      → length w.queue ≤ 1
      → max_hops ≤ w.hops + fuel
      → max_hops ≤ w.hops + more
      → walk_list read fuel w ≡ walk_list read more w
  walk_list-more zero zero w short enough plenty = refl
  walk_list-more zero (suc more) w short enough plenty = sym (full_stop more w (omega arith))
  walk_list-more (suc fuel) zero w short enough plenty = full_stop fuel w (omega arith)
  walk_list-more (suc fuel) (suc more) w short enough plenty = elim (List-cases w.queue) [
    | inl e ↦ walk_list-nil read (suc fuel) w e ∙ sym (walk_list-nil read (suc more) w e)
    | inr (va, rest, e) ↦
        let alone : length rest ≡ 0 = omega (arith, ap length e) in
        let none_left : rest ≡ [] = length-zero rest alone in
        let left = record w { queue = rest } in
        let short' : length (visit read va rest w).queue ≤ 1 = omega (
          arith,
          ap length (queue-visit read va rest w),
          length-append rest (next_task (read (va + 0x4a8) 8)),
          next_task-short (read (va + 0x4a8) 8),
        ) in
        walk_list-cons read fuel va rest w e
        ∙ branches (leb max_hops w.hops) (is_skipped read va w) w
            (walk_list-nil read fuel left none_left ∙ sym (walk_list-nil read more left none_left))
            (λ room.
              walk_list-more fuel more (visit read va rest w) short'
                (omega (arith, hops-visit read va rest w))
                (omega (arith, hops-visit read va rest w)))
        ∙ sym (walk_list-cons read more va rest w e)
  ]
