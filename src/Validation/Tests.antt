-- ===== src/Validation/Tests.antt =====
-- utils/validation.py on small inputs.
use mathlib.Core.List.{append-nil, append_assoc}
use vantacore_engine.Prelude.{
  [], arith, false, length, ok, raise, refl, replicate, true, value_error, ◌++◌, ◌↔◌, ◌∷◌, ◌≡◌, ◌≤◌,
  ◌⊎◌,
}
use vantacore_engine.Bytes.{Bytes, slice, bytes_eq, little_endian, elf_magic}
use vantacore_engine.Validation.{
  validate_elf_header, validate_phdr_bounds, validate_pointer, compute_sha256,
}
use vantacore_engine.Validation.Laws.{validate_elf_header_lem}
use vantacore_engine.Validation.Hashing.{compute_sha256-eq_whole}

abbrev core_header : Bytes
core_header = elf_magic ++ (replicate 12 0 ++ (4 ∷ 0 ∷ 62 ∷ 0 ∷ []))

headers :
    (validate_elf_header core_header ≡ ok tt)
    × (validate_elf_header elf_magic ≡ raise value_error)
    × (validate_elf_header (replicate 20 0) ≡ raise value_error)
unfolding validate_elf_header
headers = (refl, refl, refl)

bounds :
    (validate_phdr_bounds 64 56 120 ≡ ok tt)
    × (validate_phdr_bounds 64 57 120 ≡ raise value_error)
    × (validate_pointer 120 120 ≡ false)
unfolding validate_phdr_bounds validate_pointer
bounds = (refl, refl, refl)

validate_elf_header_lem_example :
    ((validate_elf_header core_header ≡ ok tt)
      ↔ (20 ≤ length core_header)
        × (bytes_eq (slice core_header 0 4) elf_magic ≡ true)
        × (little_endian (slice core_header 16 18) ≡ 4))
    × ((validate_elf_header core_header ≡ ok tt)
        ⊎ (validate_elf_header core_header ≡ raise value_error))
validate_elf_header_lem_example = validate_elf_header_lem core_header

-- A hash that keeps all it is given.
abbrev keep : Bytes → Bytes → Bytes
keep hasher chunk = hasher ++ chunk

compute_sha256-eq_whole_example :
    compute_sha256 keep [] (λ s. s) 2 (1 ∷ 2 ∷ 3 ∷ []) ≡ keep [] (1 ∷ 2 ∷ 3 ∷ [])
compute_sha256-eq_whole_example =
    compute_sha256-eq_whole keep [] (λ s. s) 2 (1 ∷ 2 ∷ 3 ∷ []) append_assoc append-nil
      (omega arith)
