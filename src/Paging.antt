-- ===== src/Paging.antt =====
-- core/backends/x86_64.py: `X86_64TranslationBackend`.
-- The dump handle is seeked before each read, so its position is no state of the backend: it is
-- the bytes of the dump. A bit mask is written as a remainder and a quotient by powers of two.
mod Namespace
unfoldable pub use Namespace.{cr3_of}
pub mod Walk
pub mod Page
pub mod Reference
pub mod Read
pub mod Kaslr
mod Tests
use vantacore_engine.Prelude.OptionBind.{◌>>=◌}
use vantacore_engine.Bytes.{Bytes, slice, unpack_from, starts_with, elf_magic}
use vantacore_engine.Prelude.{
  Bool, Option, Result, [], drop, get_or, if◌then◌else◌, leb, length, ltb, min, none, ok,
  page_fault_error, raise, replicate, some, suc, take, zero, ℕ, ◌%◌, ◌&&◌, ◌*◌, ◌++◌, ◌+◌, ◌-◌, ◌/◌,
  ◌==◌, ◌^◌,
}

pub record Backend : Type 0 where
  pub dump_handle : Option Bytes
  pub file_size : ℕ
  pub kernel_base : ℕ
  pub page_offset_base : ℕ

abbrev pub canonical_high : ℕ
canonical_high = 0xFFFF800000000000

-- `__init__`
abbrev pub fresh : Backend
fresh = record {
  dump_handle = none;
  file_size = 0;
  kernel_base = canonical_high;
  page_offset_base = 0xFFFF888000000000;
}

-- `handle.seek(offset)` and then `handle.read(n)`: fewer bytes where the file ends.
abbrev pub read_at : Bytes → ℕ → ℕ → Bytes
read_at dump offset n = take n (drop offset dump)

abbrev pub test_machine : Bytes → Result ℕ → Result Bool
test_machine header (raise e) = raise e
test_machine header (ok e_machine) = ok ((get_or header 4 0 == 2) && (e_machine == 62))

-- `data[0:4] == b"\x7fELF"`; 18 bytes are enough for the test, and the unpacking needs 20.
unfoldable pub detect : Bytes → Result Bool
detect dump =
    let header = read_at dump 0 20 in
    if leb 18 (length header) && starts_with header elf_magic
    then test_machine header (unpack_from 2 header 18)
    else ok (leb 67108864 (length dump))

-- `x & 0x000FFFFFFFFFF000` and `x & 0x000FFFFFFFE00000`
abbrev pub frame_4k : ℕ → ℕ
frame_4k entry = entry % 2 ^ 52 / 2 ^ 12 * 2 ^ 12

abbrev pub frame_2m : ℕ → ℕ
frame_2m entry = entry % 2 ^ 52 / 2 ^ 21 * 2 ^ 21

-- `entry & 1` and `entry & (1 << 7)`
abbrev pub is_present : ℕ → Bool
is_present entry = entry % 2 == 1

abbrev pub is_huge : ℕ → Bool
is_huge entry = entry / 2 ^ 7 % 2 == 1

-- The base in bytes 2 to 9 at `offset`, if they and the limit before them look like an IDT
-- descriptor.
unfoldable pub idt_base : Bytes → ℕ → Option ℕ
unfolding unpack_from
idt_base dump offset =
    let descriptor = read_at dump offset 10 in
    if length descriptor == 10
    then elim (unpack_from 2 descriptor 0) [
      | raise e ↦ none
      | ok limit ↦
          if leb 0x0100 limit && leb limit 0x0FFF
          then elim (unpack_from 8 descriptor 2) [
            | raise e ↦ none
            | ok base ↦ if leb canonical_high base then some base else none
          ]
          else none
    ]
    else none

-- The pages from `offset` on, while it is below the limit: the kernel base if one is found.
unfoldable pub scan_pages : ℕ → Bytes → ℕ → ℕ → Option ℕ
unfolding idt_base
scan_pages zero dump scan_limit offset = none
scan_pages (suc fuel) dump scan_limit offset =
    let rest = scan_pages fuel dump scan_limit (offset + 0x1000) in
    if ltb offset scan_limit
    then elim (idt_base dump offset) [ some base ↦ some (base / 2 ^ 12 * 2 ^ 12) | none ↦ rest ]
    else none

-- The base that the scan found replaces the default.
abbrev pub set_kernel_base : Backend → Option ℕ → Backend
set_kernel_base b none = b
set_kernel_base b (some base) = record b { kernel_base = base }

-- One round for each page below the limit is enough.
abbrev pub scan_dump : Backend → Option Bytes → Backend
scan_dump b none = b
scan_dump b (some dump) =
    let scan_limit = min (2 * 1024 * 1024 * 1024) b.file_size in
    set_kernel_base b (scan_pages (scan_limit / 0x1000 + 1) dump scan_limit 0)

unfoldable pub scan_kaslr_base : Backend → Backend
unfolding scan_pages
scan_kaslr_base b = scan_dump b b.dump_handle

unfoldable pub initialize : Backend → Bytes → Backend
unfolding scan_kaslr_base
initialize b dump = scan_kaslr_base (record b { dump_handle = some dump; file_size = length dump })

-- A read out of bounds gives 0.
unfoldable pub read_phys_u64 : Backend → ℕ → ℕ
unfolding unpack_from
read_phys_u64 b phys_offset = elim b.dump_handle [
  | none ↦ 0
  | some dump ↦
      if ltb b.file_size (phys_offset + 8)
      then 0
      else elim (unpack_from 8 (read_at dump phys_offset 8) 0) [ ok n ↦ n | raise e ↦ 0 ]
]

-- The entry at an index of a table, if its present bit is set.
unfoldable pub table_entry : Backend → ℕ → ℕ → Option ℕ
unfolding read_phys_u64
table_entry b table index =
    let entry = read_phys_u64 b (table + index * 8) in if is_present entry then some entry else none

-- `None` for an address beyond the file.
abbrev pub within_file : Backend → ℕ → Option ℕ
within_file b resolved = if leb b.file_size resolved then none else some resolved

-- The index of `vaddr` in the table of a level, `(vaddr >> shift) & 0x1FF`.
abbrev pub table_index : ℕ → ℕ → ℕ
table_index vaddr shift = vaddr / 2 ^ shift % 512

-- The end of the walk, at the entry of the page directory.
unfoldable pub walk_directory : Backend → ℕ → ℕ → Option ℕ
unfolding table_entry
walk_directory b entry vaddr =
    if is_huge entry then within_file b (frame_2m entry + vaddr % 2 ^ 21) else do
      page ← table_entry b (frame_4k entry) (table_index vaddr 12)
      within_file b (frame_4k page + vaddr % 2 ^ 12)

unfoldable pub walk_pml4 : Backend → ℕ → ℕ → Option ℕ
unfolding table_entry walk_directory
walk_pml4 b cr3 vaddr = do
  pml4e ← table_entry b (cr3 % 2 ^ 64 / 2 ^ 12 * 2 ^ 12) (table_index vaddr 39)
  pdpte ← table_entry b (frame_4k pml4e) (table_index vaddr 30)
  pde ← table_entry b (frame_4k pdpte) (table_index vaddr 21)
  walk_directory b pde vaddr

-- What the loop of `read_virtual` has gathered.
pub record Pages : Type 0 where
  pub bytes : Bytes
  pub resolved : ℕ
  pub total : ℕ

abbrev pub chunk_length : ℕ → ℕ → ℕ
chunk_length bytes_left vaddr = min bytes_left (0x1000 - vaddr % 2 ^ 12)

-- The bytes of one round: zeros for an unmapped page, and after the end of the dump.
unfoldable pub read_chunk : Bytes → Option ℕ → ℕ → Bytes
read_chunk dump none chunk_len = replicate chunk_len 0
read_chunk dump (some phys) chunk_len =
    let read_bytes = read_at dump phys chunk_len in
    read_bytes ++ replicate (chunk_len - length read_bytes) 0

abbrev pub add_page : Bytes → Option ℕ → Pages → Pages
add_page chunk phys p = record {
  bytes = chunk ++ p.bytes;
  resolved = elim phys [ none ↦ p.resolved | some _ ↦ p.resolved + 1 ];
  total = p.total + 1;
}

abbrev pub no_pages : Pages
no_pages = record { bytes = []; resolved = 0; total = 0 }

-- The loop while bytes are left; each round takes one byte at least.
unfoldable pub read_pages : ℕ → Backend → Bytes → ℕ → ℕ → ℕ → Pages
unfolding walk_pml4 read_chunk
read_pages zero b dump cr3 bytes_left vaddr = no_pages
read_pages (suc fuel) b dump cr3 bytes_left vaddr =
    let chunk_len = chunk_length bytes_left vaddr in
    let phys = walk_pml4 b cr3 vaddr in
    let rest = read_pages fuel b dump cr3 (bytes_left - chunk_len) (vaddr + chunk_len) in
    if bytes_left == 0 then no_pages else add_page (read_chunk dump phys chunk_len) phys rest

-- The end of `read_virtual`, after the loop.
abbrev pub page_result : Pages → Result Bytes
page_result pages = if pages.resolved == 0 then raise page_fault_error else ok pages.bytes

abbrev pub read_handle : Option Bytes → Backend → ℕ → ℕ → ℕ → Result Bytes
read_handle none b cr3 virtual_address count = raise page_fault_error
read_handle (some dump) b cr3 virtual_address count =
    page_result (read_pages count b dump cr3 count virtual_address)

unfoldable pub read_virtual : Backend → Bytes → ℕ → ℕ → Result Bytes
unfolding read_pages cr3_of
read_virtual b namespace_id virtual_address count =
    read_handle b.dump_handle b (cr3_of namespace_id) virtual_address count
