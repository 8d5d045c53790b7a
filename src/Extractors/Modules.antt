-- ===== src/Extractors/Modules.antt =====
-- extractors/linux/modules.py: `LinuxModulesExtractor`. The backend is its `read_virtual` in the
-- namespace "GLOBAL_KERNEL" and its kernel base.
pub mod Fields
pub mod Names
pub mod Hidden
pub mod Carving
mod Tests
use vantacore_engine.Prelude.{
  Bool, List, Option, Result, [], if◌then◌else◌, leb, length, mem, none, not, ok, raise, some, suc,
  zero, ℕ, ◌&&◌, ◌*◌, ◌++◌, ◌+◌, ◌-◌, ◌==◌, ◌||◌, ◌∷◌,
}
use vantacore_engine.Bytes.{Bytes, bytes_eq, little_endian, slice, unpack_from}
use vantacore_engine.Extractors.Chunked.{range_count, scan_chunks}
use vantacore_engine.Extractors.Keyed.{bytes_key, seen}
use vantacore_engine.Extractors.Text.{is_digit, until}
use vantacore_engine.Extractors.Modules.Fields.{
  Info, Module, Source, carve, clean_module_name, decode_module, is_common, is_loaded, list_walk,
}
use vantacore_engine.Extractors.Process.{is_valid_kernel_va, unsigned}

pub record Walk : Type 0 where
  pub queue : List ℕ
  pub visited : List ℕ
  pub hops : ℕ
  pub seen_names : List Bytes
  pub list_walk_names : List Bytes
  pub modules : List Module

abbrev pub max_hops : ℕ
max_hops = 500000

unfoldable pub add_listed : Option Info → Walk → Walk
unfolding bytes_eq
add_listed none w = w
add_listed (some i) w = if seen i.name w.seen_names then w else record w {
  seen_names = w.seen_names ++ (i.name ∷ []);
  list_walk_names = w.list_walk_names ++ (i.name ∷ []);
  modules = w.modules ++ ((record { info = i; source = list_walk }) ∷ []);
}

abbrev pub next_of : Result ℕ → List ℕ
next_of (raise e) = []
next_of (ok next_ptr) =
    if is_valid_kernel_va next_ptr && is_valid_kernel_va (next_ptr - 0x08)
    then (next_ptr - 0x08) ∷ []
    else []

abbrev pub next_module : Result Bytes → List ℕ
next_module (raise e) = []
next_module (ok next_ptr_bytes) = next_of (unpack_from 8 next_ptr_bytes 0)

module _ (read : ℕ → ℕ → Result Bytes) where
  unfoldable pub read_module_struct : ℕ → Option Info
  unfolding clean_module_name
  read_module_struct va = decode_module (read va 0x200)

  -- The addresses of the range from `va` on, `left` of them.
  unfoldable pub scan_head : ℕ → ℕ → Option ℕ
  unfolding read_module_struct bytes_eq
  scan_head zero va = none
  scan_head (suc left) va =
      let rest = scan_head left (va + 256) in
      if is_common (read_module_struct va) then some va else rest

  unfoldable pub find_head_module_va : ℕ → Option ℕ
  unfolding scan_head
  find_head_module_va kernel_base =
      if (kernel_base == 0) || not (is_valid_kernel_va kernel_base)
      then none
      else scan_head (range_count (4 * 1024 * 1024) 256) (kernel_base + 0x800000)

  -- The body of the loop for an address that is taken, and the tail of the queue.
  unfoldable pub visit : ℕ → List ℕ → Walk → Walk
  unfolding read_module_struct add_listed
  visit va rest w =
      let w' =
        add_listed (read_module_struct va)
          (record w { visited = w.visited ++ (va ∷ []); hops = w.hops + 1 }) in
      record w' { queue = rest ++ next_module (read (va + 0x08) 8) }

  abbrev pub is_skipped : ℕ → Walk → Bool
  is_skipped va w = mem va w.visited || ((va == 0) || not (is_valid_kernel_va va))

  -- The queue holds one address at most, so a round visits one or is the last.
  unfoldable pub walk_list : ℕ → Walk → Walk
  walk_list zero w = w
  walk_list (suc fuel) w = elim w.queue [
    | [] ↦ w
    | va ∷ rest ↦
        let skipped = walk_list fuel (record w { queue = rest }) in
        let visited = walk_list fuel (visit va rest w) in
        if leb max_hops w.hops then w else if is_skipped va w then skipped else visited
  ]

pub record Carved : Type 0 where
  pub info : Info
  pub phys_offset : ℕ

pub record Carver : Type 0 where
  pub carve_hops : ℕ
  pub seen_names : List Bytes
  pub modules : List Module
  pub carve_results : List Carved

unfoldable pub add_carved : Carved → Carver → Carver
unfolding bytes_eq
add_carved x c = record {
  carve_hops = c.carve_hops;
  seen_names =
      if seen x.info.name c.seen_names then c.seen_names else c.seen_names ++ (x.info.name ∷ []);
  modules =
      if seen x.info.name c.seen_names
      then c.modules
      else c.modules ++ ((record { info = x.info; source = carve }) ∷ []);
  carve_results = c.carve_results ++ (x ∷ []);
}

abbrev pub add_named : ℕ → ℕ → Bytes → Option Bytes → Carver → Carver
add_named phys_off align_off chunk none c = c
add_named phys_off align_off chunk (some name) c =
    let i : Info = record {
      name = name;
      base = unsigned 8 chunk (align_off + 0x150);
      size = unsigned 4 chunk (align_off + 0x158);
    } in
    if is_loaded i then add_carved (record { info = i; phys_offset = phys_off }) c else c

unfoldable pub carve_at : ℕ → Bytes → ℕ → Carver → Carver
unfolding clean_module_name add_carved
carve_at offset chunk align_off c =
    add_named (offset + align_off) align_off chunk
      (clean_module_name (slice chunk (align_off + 0x18) (align_off + 0x18 + 56))) c

-- The places of a chunk from `align_off` on, `left` of them.
unfoldable pub carve_places : ℕ → Bytes → ℕ → ℕ → Carver → Carver
unfolding carve_at
carve_places offset chunk zero align_off c = c
carve_places offset chunk (suc left) align_off c =
    carve_places offset chunk left (align_off + 8) (carve_at offset chunk align_off c)

unfoldable pub carve_chunk : ℕ → Bytes → Carver → Carver
unfolding carve_places
carve_chunk offset chunk c =
    carve_places offset chunk (range_count (length chunk - 0x200) 8) 0
      (record c { carve_hops = c.carve_hops + 1 })

abbrev pub is_capped : Carver → Bool
is_capped c = leb 500000 c.carve_hops

unfoldable pub unlisted : List Bytes → List Carved → List Carved
unfolding bytes_eq
unlisted list_walk_names [] = []
unlisted list_walk_names (item ∷ items) =
    let rest = unlisted list_walk_names items in
    if seen item.info.name list_walk_names then rest else item ∷ rest

abbrev pub not_walked : Walk
not_walked = record {
  queue = [];
  visited = [];
  hops = 0;
  seen_names = [];
  list_walk_names = [];
  modules = [];
}

abbrev pub start_at : Option ℕ → Walk
start_at none = not_walked
start_at (some va) = record not_walked { queue = va ∷ [] }

abbrev pub carver_of : Walk → Carver
carver_of w = record {
  carve_hops = 0;
  seen_names = w.seen_names;
  modules = w.modules;
  carve_results = [];
}

unfoldable pub carve_dump : Bytes → Walk → Carver
unfolding scan_chunks carve_chunk
carve_dump dump w = scan_chunks dump 65536 is_capped carve_chunk (length dump + 1) 0 (carver_of w)

pub record Report : Type 0 where
  pub modules : List Module
  pub dkom_anomalies : List Carved

unfoldable pub run : (ℕ → ℕ → Result Bytes) → ℕ → Bytes → Report
unfolding find_head_module_va walk_list carve_dump unlisted
run read kernel_base dump =
    let w = walk_list read max_hops (start_at (find_head_module_va read kernel_base)) in
    let c = carve_dump dump w in
    record { modules = c.modules; dkom_anomalies = unlisted w.list_walk_names c.carve_results }
