-- ===== src/FlatImage.antt =====
-- core/backends/flat_image.py: `FlatImageBackend`. Addresses are those that the callers unpack from
-- memory or count up, so none is negative.
pub mod Laws
mod Tests
use vantacore_engine.Bytes.{Bytes, bytes_eq, elf_magic}
use vantacore_engine.Paging.{read_at}
use vantacore_engine.Prelude.{
  Bool, Option, Result, if◌then◌else◌, leb, length, none, not, ok, page_fault_error, raise,
  replicate, some, ℕ, ◌++◌, ◌+◌, ◌-◌,
}

pub record FlatImage : Type 0 where
  pub dump_handle : Option Bytes
  pub file_size : ℕ

abbrev pub fresh : FlatImage
fresh = record { dump_handle = none; file_size = 0 }

-- `magic != b"\x7fELF"`
unfoldable pub detect : Bytes → Bool
unfolding bytes_eq
detect dump = not (bytes_eq (read_at dump 0 4) elf_magic)

unfoldable pub initialize : FlatImage → Bytes → FlatImage
initialize b dump = record b { dump_handle = some dump; file_size = length dump }

abbrev pub read_handle : Option Bytes → ℕ → ℕ → ℕ → Result Bytes
read_handle none file_size virtual_address count = raise page_fault_error
read_handle (some dump) file_size virtual_address count =
    if leb file_size virtual_address
    then raise page_fault_error
    else if leb (virtual_address + count) file_size
    then ok (read_at dump virtual_address count)
    else let available = file_size - virtual_address in
      ok (read_at dump virtual_address available ++ replicate (count - available) 0)

-- The namespace identifier is ignored.
unfoldable pub read_virtual : FlatImage → Bytes → ℕ → ℕ → Result Bytes
read_virtual b namespace_id virtual_address count =
    read_handle b.dump_handle b.file_size virtual_address count
