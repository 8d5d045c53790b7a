-- ===== src/Entropy.antt =====
-- core/entropy.py: `EncryptedMemoryDetector`. NumPy's entropy of a page is a parameter, as the test
-- whether it is above 7.9; so are the notes that elftools yields.
pub mod Sampling
mod Tests
use vantacore_engine.Prelude.{
  Bool, List, Option, [], false, if◌then◌else◌, leb, length, ltb, max, none, some, suc, zero, ℕ,
  ◌%◌, ◌&&◌, ◌*◌, ◌++◌, ◌+◌, ◌/◌, ◌==◌, ◌∷◌,
}
use vantacore_engine.Bytes.{Bytes, slice, bytes_eq, little_endian, elf_magic}
use vantacore_engine.Paging.{read_at}

pub record Sample : Type 0 where
  pub high_entropy_count : ℕ
  pub total_sampled_pages : ℕ

-- `(i * step) & ~0xFFF`
abbrev pub page_offset_of : ℕ → ℕ → ℕ
page_offset_of step i = i * step / 4096 * 4096

-- A page of the loop: `none` where it goes on without one.
unfoldable pub sampled_page : Bytes → ℕ → ℕ → Option Bytes
sampled_page dump file_size page_offset =
    if ltb file_size (page_offset + 4096)
    then none
    else let page = read_at dump page_offset 4096 in
      if ltb (length page) 4096 then none else some page

abbrev pub counted : (Bytes → Bool) → Option Bytes → Sample → Sample
counted is_high none s = s
counted is_high (some page) s = record {
  high_entropy_count = s.high_entropy_count + (if is_high page then 1 else 0);
  total_sampled_pages = s.total_sampled_pages + 1;
}

-- The rounds from `i` on, `left` of them.
unfoldable pub sample_pages : (Bytes → Bool) → Bytes → ℕ → ℕ → ℕ → ℕ → Sample → Sample
unfolding sampled_page
sample_pages is_high dump file_size step zero i s = s
sample_pages is_high dump file_size step (suc left) i s =
    sample_pages is_high dump file_size step left (i + 1)
      (counted is_high (sampled_page dump file_size (page_offset_of step i)) s)

pub data Evidence : Type 0 where
  amd_sev : Evidence
  intel_tme : Evidence

pub record MsrNote : Type 0 where
  pub is_linux_or_core : Bool
  pub n_type : ℕ
  pub n_desc : Bytes

abbrev pub msr_evidence : ℕ → ℕ → List Evidence
msr_evidence msr_idx msr_val =
    if (msr_idx == 0xc0010131) && (msr_val % 2 == 1)
    then amd_sev ∷ []
    else if (msr_idx == 0x982) && (msr_val % 2 == 1)
    then intel_tme ∷ []
    else []

-- The `while` loop over a note, from an offset on; a round takes 12 bytes.
unfoldable pub read_msrs : ℕ → Bytes → ℕ → List Evidence
read_msrs zero note_data offset = []
read_msrs (suc fuel) note_data offset =
    let msr_idx = little_endian (slice note_data offset (offset + 4)) in
    let msr_val = little_endian (slice note_data (offset + 4) (offset + 12)) in
    let rest = read_msrs fuel note_data (offset + 12) in
    if leb (offset + 12) (length note_data) then msr_evidence msr_idx msr_val ++ rest else []

unfoldable pub notes_evidence : List MsrNote → List Evidence
unfolding read_msrs
notes_evidence [] = []
notes_evidence (n ∷ ns) =
    let rest = notes_evidence ns in
    if n.is_linux_or_core && (n.n_type == 0x202)
    then read_msrs (length n.n_desc + 1) n.n_desc 0 ++ rest
    else rest

-- The confidence is the first number over the second, 0 if that is 0.
pub record Report : Type 0 where
  pub likely_encrypted : Bool
  pub confidence : ℕ × ℕ
  pub evidence : List Evidence

-- `parse` gives the notes of all sections that are yielded before the parser ends or raises.
unfoldable pub detect : (Bytes → Bool) → (Bytes → List MsrNote) → Bytes → ℕ → Report
unfolding sample_pages notes_evidence bytes_eq
detect is_high parse dump file_size =
    if ltb file_size 4096
    then record { likely_encrypted = false; confidence = (0, 0); evidence = [] }
    else let step = max (file_size / 64) 4096 in
      let s =
        sample_pages is_high dump file_size step 64 0
          (record { high_entropy_count = 0; total_sampled_pages = 0 }) in
      record {
        likely_encrypted =
            if s.total_sampled_pages == 0
            then false
            else leb (3 * s.total_sampled_pages) (4 * s.high_entropy_count);
        confidence = (s.high_entropy_count, s.total_sampled_pages);
        evidence =
            if bytes_eq (read_at dump 0 4) elf_magic then notes_evidence (parse dump) else [];
      }
