-- ===== src/Extractors/Patterns/Places.antt =====
-- extractors/cisco/: what stands at a place of a chunk stands at a place of the dump.
use vantacore_engine.Prelude.{
  [], ap, ap₂, arith, drop, length, length-take, min, refl, sym, take, true, ℕ, ◌+◌, ◌-◌, ◌∙◌, ◌∷◌,
  ◌≡◌,
}
use vantacore_engine.Bytes.{Bytes, starts_with}
use vantacore_engine.Bytes.Laws.{drop-take, take-take, drop-drop}
use vantacore_engine.Paging.{read_at}
use vantacore_engine.Extractors.Patterns.Keeps.{IsMatch}

-- The text stands in these bytes from the offset on.
abbrev pub StandsAt : Bytes → ℕ → Bytes → Type 0
StandsAt bs offset text = take (length text) (drop offset bs) ≡ text

starts_with-take :
    (bs pattern : Bytes) → starts_with bs pattern ≡ true → take (length pattern) bs ≡ pattern
unfolding starts_with
starts_with-take bs [] h = refl
starts_with-take [] (c ∷ cs) h = ground arith
starts_with-take (b ∷ bs) (c ∷ cs) h =
    let same : b ≡ c = ground arith in
    ap₂ (λ (x : ℕ) (xs : Bytes). x ∷ xs) same (starts_with-take bs cs (ground arith))

pub IsMatch-StandsAt :
    (pattern chunk : Bytes) (idx : ℕ) → IsMatch pattern chunk idx → StandsAt chunk idx pattern
IsMatch-StandsAt pattern chunk idx h = starts_with-take (drop idx chunk) pattern h

-- A text within a part stands in the whole.
pub take-within :
    (text xs : Bytes) (k : ℕ) → take (length text) (take k xs) ≡ text → take (length text) xs ≡ text
take-within text xs k h =
    let inside : take (min (length text) k) xs ≡ text = sym (take-take (length text) k xs) ∙ h in
    let fits : min (length text) k ≡ length text =
      omega (arith, length-take (min (length text) k) xs, ap length inside) in
    ap (λ n. take n xs) (sym fits) ∙ inside

pub StandsAt-chunk :
    (dump text : Bytes) (offset size idx : ℕ)
    → StandsAt (read_at dump offset size) idx text
    → StandsAt dump (offset + idx) text
StandsAt-chunk dump text offset size idx h =
    take-within text (drop (offset + idx) dump) (size - idx) (
      ap (take (length text)) (
        sym (
          drop-take idx size (drop offset dump)
          ∙ ap (take (size - idx)) (drop-drop idx offset dump)))
      ∙ h)
