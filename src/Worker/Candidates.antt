-- ===== src/Worker/Candidates.antt =====
-- core/scanner/worker.py: what `_process_address` finds.
use vantacore_engine.Prelude.{
  Bool-cases, List, Result, [], ap, arith, drop, if◌then◌else◌, inl, inr, leb, length, length-drop,
  length-take, ltb, ok, raise, refl, suc, sym, take, zero, ℕ, ◌%◌, ◌&&◌, ◌*◌, ◌+◌, ◌-◌, ◌/◌, ◌∙◌,
  ◌∷◌, ◌≡◌, ◌≤◌,
}
use vantacore_engine.Bytes.{Bytes, slice, little_endian, unpack_from}
use vantacore_engine.Bytes.Laws.{drop-take, take-take, drop-drop}
use vantacore_engine.Paging.{read_at}
use vantacore_engine.Worker.{words, masked, process_address}

-- A number read from the dump that may be the place of another one inside the dump.
abbrev pub keep_pointer : ℕ → Result ℕ → List ℕ → List ℕ
keep_pointer dump_file_size (ok c) rest =
    if leb 0x1000 c && leb (c + 8) dump_file_size then c ∷ rest else rest
keep_pointer dump_file_size (raise e) rest = rest

-- The reference: `count` numbers of 8 bytes, from an address on, each read for itself.
unfoldable pub pointers : Bytes → ℕ → ℕ → List ℕ
unfolding unpack_from
pointers dump addr zero = []
pointers dump addr (suc count) =
    keep_pointer (length dump) (unpack_from 8 dump addr) (pointers dump (addr + 8) count)

unpack_whole :
    (width : ℕ) (dump : Bytes) (addr : ℕ)
    → addr + width ≤ length dump
    → unpack_from width dump addr ≡ ok (little_endian (slice dump addr (addr + width)))
unfolding unpack_from
unpack_whole width dump addr h = ground arith

masked-step :
    (c size : ℕ) (rest : List ℕ)
    → 8 ≤ size
    → (if leb 0x1000 c && leb c (size - 8) then c ∷ rest else rest) ≡ keep_pointer size (ok c) rest
masked-step c size rest h = ground arith

pointers-zero : (dump : Bytes) (addr : ℕ) → pointers dump addr 0 ≡ []
unfolding pointers
pointers-zero dump addr = refl

masked-pointers :
    (dump : Bytes) (addr n len : ℕ)
    → addr + len ≤ length dump
    → 8 * n ≤ len
    → masked (length dump) (words n (take len (drop addr dump))) ≡ pointers dump addr n
unfolding masked words pointers
masked-pointers dump addr zero len h k = refl
masked-pointers dump addr (suc n) len h k =
    let first : take 8 (take len (drop addr dump)) ≡ slice dump addr (addr + 8) =
      take-take 8 len (drop addr dump) ∙ ap (λ m. take m (drop addr dump)) (omega arith) in
    let behind : drop 8 (take len (drop addr dump)) ≡ take (len - 8) (drop (addr + 8) dump) =
      drop-take 8 len (drop addr dump) ∙ ap (take (len - 8)) (drop-drop 8 addr dump) in
    let whole : unpack_from 8 dump addr ≡ ok (little_endian (slice dump addr (addr + 8))) =
      unpack_whole 8 dump addr (omega arith) in
    let rest = masked-pointers dump (addr + 8) n (len - 8) (omega arith) (omega arith) in
    rw (first, behind, whole, rest)
      (masked-step (little_endian (slice dump addr (addr + 8))) (length dump)
        (pointers dump (addr + 8) n) (omega arith))

window_pointers :
    (dump : Bytes) (addr window_size : ℕ)
    → addr + window_size ≤ length dump
    → (let window = read_at dump addr window_size in
        if ltb (length window) 8
        then []
        else let usable_len = length window - length window % 8 in
          masked (length dump) (words (usable_len / 8) (take usable_len window)))
      ≡ pointers dump addr (window_size / 8)
window_pointers dump addr window_size h =
    let size : length (read_at dump addr window_size) ≡ window_size =
      ground (arith, length-take window_size (drop addr dump), length-drop addr dump) in
    let usable : (window_size - window_size % 8) / 8 ≡ window_size / 8 = omega arith in
    let cut : take (window_size - window_size % 8) (read_at dump addr window_size)
        ≡ take (window_size - window_size % 8) (drop addr dump) =
      take-take (window_size - window_size % 8) window_size (drop addr dump)
      ∙ ap (λ m. take m (drop addr dump)) (omega arith) in
    elim (Bool-cases (ltb window_size 8)) [
      | inl short ↦
          let none_left : window_size / 8 ≡ 0 = ground arith in
          rw (size, short, none_left) (sym (pointers-zero dump addr))
      | inr long ↦
          rw (size, long, usable, cut)
            (masked-pointers dump addr (window_size / 8) (window_size - window_size % 8)
              (omega arith) (omega arith))
    ]

-- A window inside the dump gives the numbers of the dump, read 8 bytes apart from its address on,
-- that are at least 0x1000 and leave room for 8 bytes before the end of the dump, in this order; a
-- window that reaches beyond the end gives none.
pub process_address-eq-pointers :
    (dump : Bytes) (addr window_size : ℕ)
    → process_address dump addr window_size (length dump) ≡ (
        if ltb (length dump) (addr + window_size) then [] else pointers dump addr (window_size / 8))
unfolding process_address
process_address-eq-pointers dump addr window_size =
    elim (Bool-cases (ltb (length dump) (addr + window_size))) [
      | inl beyond ↦ rw beyond refl
      | inr inside ↦ rw inside (window_pointers dump addr window_size (ground arith))
    ]
