-- ===== src/Architecture/Tests.antt =====
-- core/backends/detector.py at short dumps.
use vantacore_engine.Bytes.{Bytes, starts_with, unpack_from, elf_magic}
use vantacore_engine.Paging
use vantacore_engine.FlatImage
use vantacore_engine.Architecture.{x86_64, flat, detect, read_virtual, get_kernel_base}
use vantacore_engine.Architecture.Laws.{is_x86_64_elf, detect-eq_cases}
use vantacore_engine.Prelude.{
  [], if◌then◌else◌, leb, length, ltb, ok, raise, refl, replicate, struct_error, translation_error,
  ◌&&◌, ◌++◌, ◌∷◌, ◌≡◌,
}

-- An ELF file that ends behind its type field.
abbrev cut : Bytes
cut = elf_magic ++ replicate 14 0

abbrev elf64 : Bytes
elf64 = elf_magic ++ (2 ∷ replicate 11 0) ++ (4 ∷ 0 ∷ 62 ∷ 0 ∷ [])

detect-cut : detect cut ≡ raise struct_error
unfolding detect Paging.detect unpack_from starts_with
detect-cut = refl

detect-elf64 : detect elf64 ≡ ok (x86_64 (Paging.initialize Paging.fresh elf64))
unfolding detect Paging.detect unpack_from starts_with
detect-elf64 = refl

detect-flat_image :
    detect (1 ∷ 2 ∷ []) ≡ ok (flat (FlatImage.initialize FlatImage.fresh (1 ∷ 2 ∷ [])))
unfolding detect Paging.detect FlatImage.detect unpack_from starts_with
detect-flat_image = refl

read-flat :
    read_virtual (flat (FlatImage.initialize FlatImage.fresh (1 ∷ 2 ∷ []))) [] 1 2 ≡ ok (2 ∷ 0 ∷ [])
unfolding read_virtual FlatImage.initialize
read-flat = refl

base-flat : get_kernel_base (flat FlatImage.fresh) ≡ 0
unfolding get_kernel_base
base-flat = refl

detect-eq_cases_example : detect cut ≡ (
    if starts_with cut elf_magic
    then if leb 20 (length cut) && is_x86_64_elf cut
      then ok (x86_64 (Paging.initialize Paging.fresh cut))
      else if leb 18 (length cut) && ltb (length cut) 20
      then raise struct_error
      else raise translation_error
    else if leb 67108864 (length cut)
    then ok (x86_64 (Paging.initialize Paging.fresh cut))
    else ok (flat (FlatImage.initialize FlatImage.fresh cut)))
detect-eq_cases_example = detect-eq_cases cut
