-- ===== src/Extractors/Modules/Tests.antt =====
-- extractors/linux/modules.py on a memory that holds a module and a dump that holds another.
use vantacore_engine.Prelude.{
  Result, [], if◌then◌else◌, ok, raise, refl, replicate, take, value_error, ℕ, ◌++◌, ◌+◌, ◌==◌, ◌∷◌,
  ◌≡◌,
}
use vantacore_engine.Bytes.{Bytes, bytes_eq, little_endian}
use vantacore_engine.Extractors.Chunked.{scan_chunks}
use vantacore_engine.Extractors.Keyed.{Distinct, bytes_key, seen}
use vantacore_engine.Extractors.Text.{until}
use vantacore_engine.Extractors.Modules.Fields.{all_word, clean_module_name, is_identifier}
use vantacore_engine.Extractors.Modules.{
  add_carved, add_listed, carve_at, carve_chunk, carve_dump, carve_places, find_head_module_va,
  read_module_struct, run, scan_head, unlisted, visit, walk_list,
}
use vantacore_engine.Extractors.Modules.Names.{carve_names, names}
use vantacore_engine.Extractors.Modules.Hidden.{AllCarved, item_names}
use vantacore_engine.Extractors.Modules.Carving.{modules_lem}

-- A module of 0x2000 bytes at 0xffff888000000000, and the bytes behind it.
abbrev module_bytes : Bytes → Bytes
module_bytes name =
    replicate 0x18 0
    ++ name
    ++ replicate 0x134 0
    ++ (0 ∷ 0 ∷ 0 ∷ 0 ∷ 0x80 ∷ 0x88 ∷ 0xff ∷ 0xff ∷ 0 ∷ 0x20 ∷ 0 ∷ 0 ∷ replicate 172 0)

abbrev fuse : Bytes
fuse = b'f' ∷ b'u' ∷ b's' ∷ b'e' ∷ []

abbrev hide : Bytes
hide = b'h' ∷ b'i' ∷ b'd' ∷ b'e' ∷ []

abbrev base : ℕ
base = 0xffff888000000000

-- The first page that the search for the head of the list comes to.
abbrev memory : ℕ → ℕ → Result Bytes
memory va n = if va == base + 0x800000 then ok (take n (module_bytes fuse)) else raise value_error

memory-names : names (run memory base (module_bytes hide)).modules ≡ fuse ∷ hide ∷ []
unfolding run find_head_module_va walk_list carve_dump carve_chunk carve_places carve_at add_carved
    clean_module_name is_identifier all_word until unlisted bytes_eq scan_chunks scan_head
    read_module_struct visit add_listed little_endian
memory-names = refl

memory-anomalies :
    item_names (run memory base (module_bytes hide ++ module_bytes fuse)).dkom_anomalies ≡ hide ∷ []
unfolding run find_head_module_va walk_list carve_dump carve_chunk carve_places carve_at add_carved
    clean_module_name is_identifier all_word until unlisted bytes_eq scan_chunks scan_head
    read_module_struct visit add_listed little_endian
memory-anomalies = refl

modules_lem_example :
    Distinct (names (run memory base (module_bytes hide)).modules)
    × (AllCarved (module_bytes hide) (run memory base (module_bytes hide)).dkom_anomalies
        × ((name : Bytes)
            → seen name (item_names (run memory base (module_bytes hide)).dkom_anomalies)
              ≡ seen name (carve_names (run memory base (module_bytes hide)).modules)))
modules_lem_example = modules_lem memory base (module_bytes hide)
