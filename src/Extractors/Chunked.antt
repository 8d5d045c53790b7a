-- ===== src/Extractors/Chunked.antt =====
-- extractors/: the loop over the chunks of a dump that several extractors share.
use vantacore_engine.Prelude.{
  Bool, ap, arith, drop, if◌then◌else◌, leb, length, length-drop, length-take, min, suc, take, zero,
  ℕ, ◌+◌, ◌-◌, ◌/◌, ◌==◌, ◌||◌, ◌∙◌, ◌≡◌, ◌≤◌,
}
use vantacore_engine.Bytes.{Bytes, slice}
use vantacore_engine.Bytes.Laws.{drop-take, take-take, drop-drop}
use vantacore_engine.Paging.{read_at}

-- The values of `range(start, stop, stride)` for a start of 0: how many there are.
abbrev pub range_count : ℕ → ℕ → ℕ
range_count stop stride = (stop + stride - 1) / stride

module _ {State : Type 0} (dump : Bytes) (chunk_size : ℕ) (is_capped : State → Bool)
    (visit : ℕ → Bytes → State → State) where
  -- From an offset on. A round reads a byte at least.
  unfoldable pub scan_chunks : ℕ → ℕ → State → State
  scan_chunks zero offset s = s
  scan_chunks (suc fuel) offset s =
      let chunk = read_at dump offset chunk_size in
      let further = scan_chunks fuel (offset + length chunk) (visit offset chunk s) in
      if leb (length dump) offset || is_capped s
      then s
      else if length chunk == 0
      then s
      else further

-- A part of a chunk is a part of the dump.
pub slice-chunk :
    (dump : Bytes) (offset size start n : ℕ)
    → start + n ≤ size
    → slice (read_at dump offset size) start (start + n) ≡ read_at dump (offset + start) n
slice-chunk dump offset size start n h =
    let cut : min (start + n - start) (size - start) ≡ n = omega arith in
    ap (take (start + n - start)) (
      drop-take start size (drop offset dump)
      ∙ ap (take (size - start)) (drop-drop start offset dump))
    ∙ take-take (start + n - start) (size - start) (drop (offset + start) dump)
    ∙ ap (λ m. take m (drop (offset + start) dump)) cut

pub length-chunk :
    (dump : Bytes) (size offset : ℕ)
    → length (read_at dump offset size) ≡ min size (length dump - offset)
length-chunk dump size offset =
    length-take size (drop offset dump) ∙ ap (min size) (length-drop offset dump)
