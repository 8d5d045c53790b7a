-- ===== src/Architecture/Laws.antt =====
-- core/backends/detector.py: which backend a dump gets, from its first bytes and its size, and
-- what every backend promises of a read.
use vantacore_engine.Bytes.{Bytes, starts_with, elf_magic, unpack_from}
use vantacore_engine.Bytes.Fields.{
  get_or-take, starts_with-take, bytes_eq-take, unpack_u16, unpack_from_short,
}
use vantacore_engine.Paging
use vantacore_engine.Paging.{read_at, test_machine}
use vantacore_engine.FlatImage
use vantacore_engine.Architecture.{x86_64, flat, detect}
use vantacore_engine.Prelude.{
  Bool, Bool-cases, ap, ap₂, arith, get_or, if◌then◌else◌, inl, inr, leb, length, length-take, ltb,
  min, not, ok, raise, refl, struct_error, translation_error, ◌&&◌, ◌*◌, ◌+◌, ◌==◌, ◌≡◌, ◌≤◌,
}

-- Of a dump with the magic bytes: class ELFCLASS64 and machine EM_X86_64.
abbrev pub is_x86_64_elf : Bytes → Bool
is_x86_64_elf dump = (get_or dump 4 0 == 2) && (get_or dump 18 0 + 256 * get_or dump 19 0 == 62)

length-header : (dump : Bytes) → length (read_at dump 0 20) ≡ min 20 (length dump)
length-header dump = length-take 20 dump

is_x86_64_elf-header :
    (dump : Bytes)
    → 20 ≤ length dump
    → test_machine (read_at dump 0 20) (unpack_from 2 (read_at dump 0 20) 18)
      ≡ ok (is_x86_64_elf dump)
is_x86_64_elf-header dump long =
    rw (unpack_u16 (read_at dump 0 20) 18 (omega (arith, length-header dump))) (
      rw (get_or-take 20 dump 4 0 (omega arith)) (
        rw (get_or-take 20 dump 18 0 (omega arith))
          (rw (get_or-take 20 dump 19 0 (omega arith)) refl)))

module _ (dump : Bytes) where
  abbrev test_of_elf : Bool
  test_of_elf = leb 18 (length (read_at dump 0 20)) && starts_with (read_at dump 0 20) elf_magic

  test_of_elf_lem : test_of_elf ≡ (leb 18 (length dump) && starts_with dump elf_magic)
  test_of_elf_lem =
      ap₂ ◌&&◌ (ground (arith, length-header dump))
        (starts_with-take 20 dump elf_magic (omega arith))

  -- What `X86_64TranslationBackend.detect` gives for each kind of dump.
  detect-x86_64 : Paging.detect dump ≡ (
      if leb 18 (length dump) && starts_with dump elf_magic
      then if ltb (length dump) 20 then raise struct_error else ok (is_x86_64_elf dump)
      else ok (leb 67108864 (length dump)))
  unfolding Paging.detect
  detect-x86_64 =
      rw test_of_elf_lem (elim (Bool-cases (leb 18 (length dump) && starts_with dump elf_magic)) [
        | inr other ↦ rw other refl
        | inl elf ↦ rw elf (elim (Bool-cases (ltb (length dump) 20)) [
          | inl short ↦ rw short (
              rw (unpack_from_short 2 (read_at dump 0 20) 18 (ground (arith, length-header dump)))
                refl)
          | inr long ↦ rw long (is_x86_64_elf-header dump (ground arith))
        ])
      ])

  detect-flat : FlatImage.detect dump ≡ not (starts_with dump elf_magic)
  unfolding FlatImage.detect
  detect-flat = ap not (bytes_eq-take dump elf_magic)

  -- The backend of a dump. A dump without the ELF magic is x86_64 from 64 MB on and flat below. One
  -- with it is x86_64 if it is for that machine, and an error if not: `struct.error` if it ends
  -- behind the 18th byte and before the 20th, `TranslationError` otherwise.
  pub detect-eq_cases : detect dump ≡ (
      if starts_with dump elf_magic
      then if leb 20 (length dump) && is_x86_64_elf dump
        then ok (x86_64 (Paging.initialize Paging.fresh dump))
        else if leb 18 (length dump) && ltb (length dump) 20
        then raise struct_error
        else raise translation_error
      else if leb 67108864 (length dump)
      then ok (x86_64 (Paging.initialize Paging.fresh dump))
      else ok (flat (FlatImage.initialize FlatImage.fresh dump)))
  unfolding detect
  detect-eq_cases = ground (arith, detect-x86_64, detect-flat)
