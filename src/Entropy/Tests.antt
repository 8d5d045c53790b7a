-- ===== src/Entropy/Tests.antt =====
-- core/entropy.py on one page and on two registers.
use vantacore_engine.Prelude.{
  Bool, List, [], arith, false, length, max, refl, replicate, true, ◌*◌, ◌/◌, ◌<◌, ◌↔◌, ◌∷◌, ◌≡◌,
  ◌≤◌,
}
use vantacore_engine.Bytes.{Bytes, little_endian, elf_magic}
use vantacore_engine.Entropy.{MsrNote, intel_tme, read_msrs, detect}
use vantacore_engine.Entropy.Sampling.{AreWhole, pages_from, high_pages, detect-likely_iff}

abbrev no_notes : Bytes → List MsrNote
no_notes dump = []

abbrev all_high : Bytes → Bool
all_high page = true

abbrev one_page : Bytes
one_page = replicate 4096 7

too_small : (detect all_high no_notes elf_magic 4).likely_encrypted ≡ false
unfolding detect
too_small = refl

-- Two registers, the second with its bit 0 clear, and a rest that is no register.
registers :
    read_msrs 4
      (0x82 ∷ 9 ∷ 0 ∷ 0 ∷ 1 ∷ 0 ∷ 0 ∷ 0 ∷ 0 ∷ 0 ∷ 0 ∷ 0 ∷ 0x31 ∷ 1 ∷ 1 ∷ 0xc0 ∷ 2 ∷ 0 ∷ 0 ∷ 0 ∷ 0
        ∷ 0 ∷ 0 ∷ 0 ∷ 9 ∷ [])
      0
    ≡ intel_tme ∷ []
unfolding read_msrs little_endian
registers = refl

detect-likely_iff_example :
    let pages = pages_from one_page (max (length one_page / 64) 4096) 64 0 in
    AreWhole pages
    × (length pages ≤ 64)
    × (0 < length pages)
    × (((detect all_high no_notes one_page (length one_page)).likely_encrypted ≡ true)
        ↔ (3 * length pages ≤ 4 * high_pages all_high pages))
detect-likely_iff_example = detect-likely_iff all_high no_notes one_page (omega arith)
