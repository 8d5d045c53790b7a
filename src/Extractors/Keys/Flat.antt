-- ===== src/Extractors/Keys/Flat.antt =====
-- extractors/generic/keys.py: the chunks do not matter.
use mathlib.Core.List.{append-nil, append_assoc}
use native.Mathlib.Decide.{dec_lt}
use vantacore_engine.Prelude.{
  Bool-cases, List, Option, [], ap, ap₂, arith, false, inl, inr, leb, length, min, none, refl, some,
  suc, sym, true, zero, ℕ, ◌*◌, ◌++◌, ◌+◌, ◌-◌, ◌/◌, ◌<◌, ◌==◌, ◌||◌, ◌∙◌, ◌≡◌, ◌≤◌, ◌⊎◌,
}
use vantacore_engine.Bytes.{Bytes}
use vantacore_engine.Paging.{read_at}
use vantacore_engine.Extractors.Chunked.{range_count, scan_chunks, slice-chunk, length-chunk}
use vantacore_engine.Extractors.Keys.{
  Region, Search, max_hops, chunk_size, add_region, scan_windows, visit_chunk, is_capped, run,
}

-- The reference: the windows of the dump from an address on, 256 bytes apart, without chunks.
unfoldable pub regions : (Bytes → Option ℕ) → Bytes → ℕ → ℕ → List Region
regions high_entropy dump zero address = []
regions high_entropy dump (suc count) address =
    add_region address (high_entropy (read_at dump address 256)) []
    ++ regions high_entropy dump count (address + 256)

add_region-append :
    (offset : ℕ) (found : Option ℕ) (results : List Region)
    → add_region offset found results ≡ results ++ add_region offset found []
add_region-append offset none results = sym (append-nil results)
add_region-append offset (some entropy) results = refl

scan_windows-eq :
    (high_entropy : Bytes → Option ℕ) (dump : Bytes) (offset size left win_offset : ℕ)
    (results : List Region)
    → win_offset + 256 * left ≤ size
    → scan_windows high_entropy offset (read_at dump offset size) left win_offset results
      ≡ results ++ regions high_entropy dump left (offset + win_offset)
unfolding scan_windows regions
scan_windows-eq high_entropy dump offset size zero win_offset results h = sym (append-nil results)
scan_windows-eq high_entropy dump offset size (suc left) win_offset results h =
    let window = slice-chunk dump offset size win_offset 256 (omega arith) in
    let found = high_entropy (read_at dump (offset + win_offset) 256) in
    let rest =
      scan_windows-eq high_entropy dump offset size left (win_offset + 256)
        (add_region (offset + win_offset) found results) (omega arith) in
    let place : offset + (win_offset + 256) ≡ offset + win_offset + 256 = omega arith in
    rw window (
      rest
      ∙ ap₂ (λ (a b : List Region). a ++ b) (add_region-append (offset + win_offset) found results)
          (ap (regions high_entropy dump left) place)
      ∙ append_assoc results (add_region (offset + win_offset) found [])
          (regions high_entropy dump left (offset + win_offset + 256)))

regions-add :
    (high_entropy : Bytes → Option ℕ) (dump : Bytes) (a b address : ℕ)
    → regions high_entropy dump (a + b) address
      ≡ regions high_entropy dump a address ++ regions high_entropy dump b (address + 256 * a)
unfolding regions
regions-add high_entropy dump zero b address =
    ap₂ (regions high_entropy dump) (omega arith) (omega arith)
regions-add high_entropy dump (suc a) b address =
    let count : suc a + b ≡ suc (a + b) = omega arith in
    let place : address + 256 + 256 * a ≡ address + 256 * suc a = omega arith in
    let here = add_region address (high_entropy (read_at dump address 256)) [] in
    let rest =
      regions-add high_entropy dump a b (address + 256)
      ∙ ap (λ p. regions high_entropy dump a (address + 256) ++ regions high_entropy dump b p)
          place in
    rw count (
      ap (λ t. here ++ t) rest
      ∙ sym (
          append_assoc here (regions high_entropy dump a (address + 256))
            (regions high_entropy dump b (address + 256 * suc a))))

finished :
    (high_entropy : Bytes → Option ℕ) (dump : Bytes) (offset : ℕ) (results : List Region)
    → results ≡ results ++ regions high_entropy dump 0 offset
unfolding regions
finished high_entropy dump offset results = sym (append-nil results)

past_end :
    (total offset hops : ℕ)
    → total ≤ chunk_size * max_hops
    → (offset ≡ chunk_size * hops) ⊎ (total ≤ offset)
    → (leb total offset || leb max_hops hops) ≡ true
    → (total - offset) / 256 ≡ 0
past_end total offset hops small at done = let over : total ≤ offset = ground arith in omega arith

advances :
    (total offset hops size : ℕ)
    → size ≡ min chunk_size (total - offset)
    → (leb total offset || leb max_hops hops) ≡ false
    → (offset ≡ chunk_size * hops) ⊎ (total ≤ offset)
    → (0 < size) × ((offset + size ≡ chunk_size * (hops + 1)) ⊎ (total ≤ offset + size))
advances total offset hops size e more at =
    let inside : offset < total = ground arith in
    let some_bytes : 0 < size = omega arith in
    (
      some_bytes,
      elim at [
        | inl whole ↦ elim (dec_lt size chunk_size) [
          | yes p ↦ inr (omega arith)
          | no p ↦ inl (omega arith)
        ]
        | inr over ↦ absurd (omega arith)
      ],
    )

hops_after :
    {total next : ℕ} (high_entropy : Bytes → Option ℕ) (offset : ℕ) (chunk : Bytes) (s : Search)
    → (next ≡ chunk_size * (s.hops + 1)) ⊎ (total ≤ next)
    → (next ≡ chunk_size * (visit_chunk high_entropy offset chunk s).hops) ⊎ (total ≤ next)
unfolding visit_chunk
hops_after high_entropy offset chunk s h = h

split_count :
    (total offset size : ℕ)
    → size ≡ min chunk_size (total - offset)
    → (total - offset) / 256 ≡ size / 256 + (total - (offset + size)) / 256
split_count total offset size e = elim (dec_lt (total - offset) chunk_size) [
  | yes p ↦ omega arith
  | no p ↦ omega arith
]

visit_chunk-eq :
    (high_entropy : Bytes → Option ℕ) (dump : Bytes) (offset : ℕ) (s : Search)
    → (visit_chunk high_entropy offset (read_at dump offset chunk_size) s).results
      ≡ s.results
        ++ regions high_entropy dump (length (read_at dump offset chunk_size) / 256) offset
unfolding visit_chunk
visit_chunk-eq high_entropy dump offset s =
    let size = length-chunk dump chunk_size offset in
    let n = length (read_at dump offset chunk_size) in
    let count : range_count (n - 255) 256 ≡ n / 256 = omega arith in
    let fits : 0 + 256 * range_count (n - 255) 256 ≤ chunk_size = omega arith in
    let place : offset + 0 ≡ offset = omega arith in
    scan_windows-eq high_entropy dump offset chunk_size (range_count (n - 255) 256) 0 s.results fits
    ∙ ap (λ t. s.results ++ t) (ap₂ (regions high_entropy dump) count place)

pos→not_zero : (n : ℕ) → 0 < n → (n == 0) ≡ false
pos→not_zero n h = ground arith

nothing_more :
    (high_entropy : Bytes → Option ℕ) (dump : Bytes) (address : ℕ) (found : List Region)
    → found ++ regions high_entropy dump 0 address ≡ found
unfolding regions
nothing_more high_entropy dump address found = append-nil found

joined :
    (high_entropy : Bytes → Option ℕ) (dump : Bytes) (offset size : ℕ)
    → size ≡ min chunk_size (length dump - offset)
    → (length dump - offset) / 256 ≡ size / 256 + (length dump - (offset + size)) / 256
    → regions high_entropy dump (size / 256) offset
        ++ regions high_entropy dump ((length dump - (offset + size)) / 256) (offset + size)
      ≡ regions high_entropy dump ((length dump - offset) / 256) offset
joined high_entropy dump offset size e parts =
    let a = size / 256 in
    let b = (length dump - (offset + size)) / 256 in
    elim (dec_lt (length dump - offset) chunk_size) [
      | yes p ↦
          let none_left : b ≡ 0 = omega arith in
          let same : (length dump - offset) / 256 ≡ a = omega arith in
          rw (none_left, same)
            (nothing_more high_entropy dump (offset + size) (regions high_entropy dump a offset))
      | no p ↦
          let place : offset + size ≡ offset + 256 * a = omega arith in
          ap (λ q. regions high_entropy dump a offset ++ regions high_entropy dump b q) place
          ∙ sym (regions-add high_entropy dump a b offset)
          ∙ ap (λ n. regions high_entropy dump n offset) (sym parts)
    ]

-- Chunk after chunk, as long as the cap has not been met.
scan_chunks-eq :
    (high_entropy : Bytes → Option ℕ) (dump : Bytes) (fuel offset : ℕ) (s : Search)
    → length dump ≤ chunk_size * max_hops
    → (offset ≡ chunk_size * s.hops) ⊎ (length dump ≤ offset)
    → length dump < offset + fuel
    → (scan_chunks dump chunk_size is_capped (visit_chunk high_entropy) fuel offset s).results
      ≡ s.results ++ regions high_entropy dump ((length dump - offset) / 256) offset
unfolding scan_chunks
scan_chunks-eq high_entropy dump zero offset s small at enough =
    let none_left : (length dump - offset) / 256 ≡ 0 = omega arith in
    rw none_left (finished high_entropy dump offset s.results)
scan_chunks-eq high_entropy dump (suc fuel) offset s small at enough =
    let size = length-chunk dump chunk_size offset in
    elim (Bool-cases (leb (length dump) offset || is_capped s)) [
      | inl done ↦
          let none_left : (length dump - offset) / 256 ≡ 0 =
            past_end (length dump) offset s.hops small at done in
          rw (scan_chunks, done, none_left) (finished high_entropy dump offset s.results)
      | inr more ↦
          let chunk = read_at dump offset chunk_size in
          let (here, next) = advances (length dump) offset s.hops (length chunk) size more at in
          let filled : (length chunk == 0) ≡ false = pos→not_zero (length chunk) here in
          let rest =
            scan_chunks-eq high_entropy dump fuel (offset + length chunk)
              (visit_chunk high_entropy offset chunk s) small
              (hops_after high_entropy offset chunk s next) (omega arith) in
          let visited = visit_chunk-eq high_entropy dump offset s in
          let parts : (length dump - offset) / 256
              ≡ length chunk / 256 + (length dump - (offset + length chunk)) / 256 =
            split_count (length dump) offset (length chunk) size in
          let a = length chunk / 256 in
          let b = (length dump - (offset + length chunk)) / 256 in
          rw (scan_chunks, more, filled)
            (rest
              ∙ ap (λ t. t ++ regions high_entropy dump b (offset + length chunk)) visited
              ∙ append_assoc s.results (regions high_entropy dump a offset)
                  (regions high_entropy dump b (offset + length chunk))
              ∙ ap (λ t. s.results ++ t)
                  (joined high_entropy dump offset (length chunk) size parts))
    ]

-- In a dump of 2,048,000,000 bytes at most, which the cap on the number of chunks allows, the
-- extractor reports exactly the whole windows of 256 bytes, at the multiples of 256, whose entropy
-- is high, in the order of the dump, wherever the chunks end.
pub run-eq-regions :
    (high_entropy : Bytes → Option ℕ) (dump : Bytes)
    → length dump ≤ 2048000000
    → run high_entropy dump ≡ regions high_entropy dump (length dump / 256) 0
unfolding run
run-eq-regions high_entropy dump small =
    let whole : (length dump - 0) / 256 ≡ length dump / 256 = omega arith in
    scan_chunks-eq high_entropy dump (length dump + 1) 0 (record { hops = 0; results = [] }) small
      (inl refl) (omega arith)
    ∙ ap (λ n. regions high_entropy dump n 0) whole
