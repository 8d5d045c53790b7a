-- ===== src/Extractors/Keys.antt =====
-- extractors/generic/keys.py: `KeysExtractor`. The entropy of a window, a sum of logarithms in
-- floating point, is a parameter: its rounded value where it is 7.0 or more.
pub mod Flat
mod Tests
use vantacore_engine.Prelude.{
  Bool, List, Option, [], leb, length, none, some, suc, zero, ℕ, ◌++◌, ◌+◌, ◌-◌, ◌∷◌,
}
use vantacore_engine.Bytes.{Bytes, slice}
use vantacore_engine.Extractors.Chunked.{range_count, scan_chunks}

pub record Region : Type 0 where
  pub offset : ℕ
  pub size : ℕ
  pub entropy : ℕ

pub record Search : Type 0 where
  pub hops : ℕ
  pub results : List Region

abbrev pub max_hops : ℕ
max_hops = 500000

abbrev pub chunk_size : ℕ
chunk_size = 4096

abbrev pub add_region : ℕ → Option ℕ → List Region → List Region
add_region offset none results = results
add_region offset (some entropy) results =
    results ++ ((record { offset = offset; size = 256; entropy = entropy }) ∷ [])

-- The windows of a chunk from `win_offset` on, `left` of them.
unfoldable pub scan_windows : (Bytes → Option ℕ) → ℕ → Bytes → ℕ → ℕ → List Region → List Region
scan_windows high_entropy offset chunk zero win_offset results = results
scan_windows high_entropy offset chunk (suc left) win_offset results =
    let window = slice chunk win_offset (win_offset + 256) in
    scan_windows high_entropy offset chunk left (win_offset + 256)
      (add_region (offset + win_offset) (high_entropy window) results)

unfoldable pub visit_chunk : (Bytes → Option ℕ) → ℕ → Bytes → Search → Search
unfolding scan_windows
visit_chunk high_entropy offset chunk s = record {
  hops = s.hops + 1;
  results =
      scan_windows high_entropy offset chunk (range_count (length chunk - 255) 256) 0 s.results;
}

abbrev pub is_capped : Search → Bool
is_capped s = leb max_hops s.hops

unfoldable pub run : (Bytes → Option ℕ) → Bytes → List Region
unfolding scan_chunks visit_chunk
run high_entropy dump =
    (scan_chunks dump chunk_size is_capped (visit_chunk high_entropy) (length dump + 1) 0
      (record { hops = 0; results = [] })).results
