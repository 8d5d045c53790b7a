-- ===== src/Extractors/Cisco/Lina.antt =====
-- extractors/cisco/asa/lina_process.py: `LinaProcessExtractor`. What elftools makes of the dump is a
-- parameter: the notes of the PT_NOTE segments and those of the sections, each of which may raise.
-- Signed process ids are kept as their bits.
pub mod Bounds
mod Tests
use vantacore_engine.Prelude.{
  Bool, List, Option, Result, [], drop, if◌then◌else◌, leb, length, ltb, mem, none, ok, raise, some,
  take, ℕ, ◌&&◌, ◌++◌, ◌+◌, ◌-◌, ◌==◌, ◌||◌, ◌∷◌,
}
use vantacore_engine.Bytes.{Bytes, find, slice}
use vantacore_engine.Paging.{read_at}
use vantacore_engine.Extractors.Chunked.{scan_chunks}
use vantacore_engine.Extractors.Text.{if_any, is_space, strip, until}
use vantacore_engine.Extractors.Patterns.{scan_all, scan_pattern}
use vantacore_engine.Extractors.Process.{unsigned}
use vantacore_engine.Extractors.Cisco.Firmware.{version_prefix}

unfoldable pub printable_only : Bytes → Bytes
printable_only [] = []
printable_only (b ∷ bs) =
    let rest = printable_only bs in if leb 32 b && leb b 126 then b ∷ rest else rest

unfoldable pub extract_printable : Bytes → Bytes
unfolding until printable_only strip
extract_printable b = strip is_space (printable_only (until 0 b))

pub record Note : Type 0 where
  pub n_type : ℕ
  pub n_desc : Bytes

pub data Source : Type 0 where
  elf_note pattern_scan : Source

pub record Thread : Type 0 where
  pub pid : ℕ
  pub ppid : ℕ
  pub name : Bytes
  pub args : Bytes
  pub source : Source

abbrev pub lina : Bytes
lina = b'l' ∷ b'i' ∷ b'n' ∷ b'a' ∷ []

abbrev pub name_or_lina : Bytes → Bytes
name_or_lina [] = lina
name_or_lina (c ∷ s) = c ∷ s

unfoldable pub parse_prpsinfo_note : Bytes → Option Thread
unfolding extract_printable
parse_prpsinfo_note desc =
    if ltb (length desc) 136
    then none
    else some (record {
      pid = unsigned 4 desc 24;
      ppid = unsigned 4 desc 28;
      name = name_or_lina (extract_printable (slice desc 40 56));
      args = extract_printable (slice desc 56 136);
      source = elf_note;
    })

abbrev pub version_at : Bytes → Option ℕ → Option Bytes
version_at header_chunk none = none
version_at header_chunk (some idx) =
    if_any (extract_printable (take 16 (drop (idx + length version_prefix) header_chunk)))

-- None stands for "unknown".
unfoldable pub detect_firmware_version : Bytes → Option Bytes
unfolding find extract_printable
detect_firmware_version dump =
    let header_chunk = read_at dump 0 65536 in
    version_at header_chunk (find header_chunk version_prefix)

-- `deque(maxlen=_MAX_NOTES)`: an element that is one too many pushes out the first.
abbrev pub max_notes : ℕ
max_notes = 256

abbrev pub push : List Thread → Thread → List Thread
push queue t = drop (length queue + 1 - max_notes) (queue ++ (t ∷ []))

abbrev pub push_parsed : List Thread → Option Thread → List Thread
push_parsed queue none = queue
push_parsed queue (some t) = push queue t

unfoldable pub collect_notes : List Thread → List Note → List Thread
unfolding parse_prpsinfo_note
collect_notes queue [] = queue
collect_notes queue (note ∷ notes) =
    collect_notes
      (if (note.n_type == 1) || (note.n_type == 3)
        then push_parsed queue (parse_prpsinfo_note note.n_desc)
        else queue)
      notes

-- The sections are looked at where the segments gave nothing.
abbrev pub or_sections : List Thread → Result (List Note) → Result (List Thread)
or_sections [] (ok notes) = ok (collect_notes [] notes)
or_sections [] (raise e) = raise e
or_sections (t ∷ queue) sections = ok (t ∷ queue)

abbrev pub elf_threads : Result (List Note) → Result (List Note) → Result (List Thread)
elf_threads (raise e) sections = raise e
elf_threads (ok notes) sections = or_sections (collect_notes [] notes) sections

pub record Search : Type 0 where
  pub hops : ℕ
  pub seen_offsets : List ℕ
  pub threads : List Thread

-- `lina\x00`
abbrev pub lina_pattern : Bytes
lina_pattern = lina ++ (0 ∷ [])

abbrev pub pattern_thread : Thread
pattern_thread = record { pid = 0; ppid = 0; name = lina; args = []; source = pattern_scan }

unfoldable pub add_lina : ℕ → Search → Search
add_lina phys_off s = if mem phys_off s.seen_offsets then s else record s {
  seen_offsets = s.seen_offsets ++ (phys_off ∷ []);
  threads = s.threads ++ (pattern_thread ∷ []);
}

-- Both loops end where this holds behind an added thread; before the first it does not.
abbrev pub is_full : Search → Bool
is_full s = leb max_notes (length s.threads)

unfoldable pub visit_chunk : ℕ → Bytes → Search → Search
unfolding scan_pattern add_lina
visit_chunk offset chunk s =
    scan_all lina_pattern is_full (λ idx. add_lina (offset + idx)) chunk
      (record s { hops = s.hops + 1 })

abbrev pub is_capped : Search → Bool
is_capped s = leb 500000 s.hops || is_full s

unfoldable pub scan_text : Bytes → List Thread
unfolding scan_chunks visit_chunk
scan_text dump =
    (scan_chunks dump 65536 is_capped visit_chunk (length dump + 1) 0
      (record { hops = 0; seen_offsets = []; threads = [] })).threads

-- The text is searched where the notes raise or give nothing.
abbrev pub or_text : Bytes → Result (List Thread) → List Thread
or_text dump (raise e) = scan_text dump
or_text dump (ok []) = scan_text dump
or_text dump (ok (t ∷ threads)) = t ∷ threads

pub record Report : Type 0 where
  pub lina_threads : List Thread
  pub firmware_version : Option Bytes

unfoldable pub run : Result (List Note) → Result (List Note) → Bytes → Report
unfolding detect_firmware_version scan_text collect_notes
run segments sections dump = record {
  lina_threads = or_text dump (elf_threads segments sections);
  firmware_version = detect_firmware_version dump;
}
