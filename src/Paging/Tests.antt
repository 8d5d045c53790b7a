-- ===== src/Paging/Tests.antt =====
-- core/backends/x86_64.py: a dump of five pages with one table of each level and a data page.
use vantacore_engine.Prelude.{
  [], arith, false, if◌then◌else◌, none, ok, page_fault_error, raise, refl, some, ◌↔◌, ◌∷◌, ◌≡◌,
}
use vantacore_engine.Bytes.{Bytes}
use vantacore_engine.Paging.{
  Backend, cr3_of, detect, initialize, fresh, walk_pml4, read_virtual, canonical_high,
}
use vantacore_engine.Paging.Walk.{Translates, walk_pml4_iff}
use vantacore_engine.Paging.Reference.{virtual_bytes, any_mapped}
use vantacore_engine.Paging.Read.{read_virtual-eq-virtual_bytes}
use vantacore_engine.Paging.Kaslr.{IsKernelBase, initialize-IsKernelBase}

-- A table of 24 bytes at address 0 whose first entry is present and points at page 0, so each
-- address translates to its last twelve bits.
abbrev tiny : Bytes
tiny = 1 ∷ 0 ∷ 0 ∷ 0 ∷ 0 ∷ 0 ∷ 0 ∷ 0 ∷ b'v' ∷ b'a' ∷ b'n' ∷ b't' ∷ b'a' ∷ []

abbrev loaded : Backend
loaded = record {
  dump_handle = some tiny;
  file_size = 13;
  kernel_base = canonical_high;
  page_offset_base = 0xFFFF888000000000;
}

namespaces :
    (cr3_of (b'0' ∷ b'x' ∷ b'1' ∷ b'f' ∷ b'_' ∷ b'0' ∷ b' ' ∷ []) ≡ 0x1f0)
    × (cr3_of (b'0' ∷ b'x' ∷ b'g' ∷ []) ≡ 0)
    × (cr3_of (b'G' ∷ []) ≡ 0)
unfolding cr3_of
namespaces = (refl, refl, refl)

initialize-tiny : initialize fresh tiny ≡ loaded
unfolding initialize
initialize-tiny = refl

walk-tiny : (walk_pml4 loaded 0 9 ≡ some 9) × (walk_pml4 loaded 0 13 ≡ none)
unfolding walk_pml4
walk-tiny = (refl, refl)

read-tiny : read_virtual loaded [] 8 7 ≡ ok (b'v' ∷ b'a' ∷ b'n' ∷ b't' ∷ b'a' ∷ 0 ∷ 0 ∷ [])
unfolding read_virtual
read-tiny = refl

-- A read of no byte raises, though its address is mapped.
read-nothing : read_virtual loaded [] 8 0 ≡ raise page_fault_error
unfolding read_virtual
read-nothing = refl

detect-tiny : detect tiny ≡ ok false
unfolding detect
detect-tiny = refl

walk_pml4_iff_example : (walk_pml4 loaded 0 9 ≡ some 9) ↔ Translates loaded 0 9 9
walk_pml4_iff_example = walk_pml4_iff loaded 0 9 9

read_virtual-eq-virtual_bytes_example : read_virtual loaded [] 8 7 ≡ (
    if any_mapped loaded (cr3_of []) 8 7
    then ok (virtual_bytes loaded tiny (cr3_of []) 8 7)
    else raise page_fault_error)
read_virtual-eq-virtual_bytes_example = read_virtual-eq-virtual_bytes loaded tiny [] 8 7 refl refl

-- A descriptor of limit 0x0fff and base 0xffff800012345678 at the start.
abbrev with_descriptor : Bytes
with_descriptor = 0xff ∷ 0x0f ∷ 0x78 ∷ 0x56 ∷ 0x34 ∷ 0x12 ∷ 0 ∷ 0x80 ∷ 0xff ∷ 0xff ∷ []

kernel_base-with_descriptor : (initialize fresh with_descriptor).kernel_base ≡ 0xffff800012345000
unfolding initialize
kernel_base-with_descriptor = refl

initialize-IsKernelBase_example : IsKernelBase (initialize fresh with_descriptor).kernel_base
initialize-IsKernelBase_example =
    initialize-IsKernelBase fresh with_descriptor (omega arith) (omega arith)
