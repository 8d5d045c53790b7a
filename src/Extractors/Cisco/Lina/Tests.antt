-- ===== src/Extractors/Cisco/Lina/Tests.antt =====
-- extractors/cisco/asa/lina_process.py on a few notes and a short dump.
use vantacore_engine.Prelude.{
  [], length, ok, raise, refl, replicate, value_error, ◌++◌, ◌∷◌, ◌≡◌, ◌≤◌,
}
use vantacore_engine.Bytes.{Bytes, find, find_from, starts_with, little_endian}
use vantacore_engine.Extractors.Chunked.{scan_chunks}
use vantacore_engine.Extractors.Text.{strip, lstrip, rstrip, until}
use vantacore_engine.Extractors.Patterns.{scan_pattern}
use vantacore_engine.Extractors.Cisco.Lina.{
  Note, run, parse_prpsinfo_note, collect_notes, extract_printable, printable_only, add_lina,
  visit_chunk, scan_text, lina, lina_pattern, elf_note, pattern_thread,
}
use vantacore_engine.Extractors.Cisco.Lina.Bounds.{from_notes, or_else, lina_threads_lem}

-- A process 7, child of 1, whose name is not printable.
abbrev info : Note
info = record {
  n_type = 3;
  n_desc =
      replicate 24 0
      ++ (7 ∷ 0 ∷ 0 ∷ 0 ∷ 1 ∷ 0 ∷ 0 ∷ 0 ∷ [])
      ++ replicate 8 0
      ++ (200 ∷ [])
      ++ replicate 95 0;
}

abbrev other : Note
other = record { n_type = 2; n_desc = replicate 136 1 }

abbrev dump : Bytes
dump = 1 ∷ lina_pattern ++ lina_pattern

info-thread :
    (run (ok (info ∷ other ∷ [])) (raise value_error) dump).lina_threads
    ≡ record { pid = 7; ppid = 1; name = lina; args = []; source = elf_note } ∷ []
unfolding run collect_notes parse_prpsinfo_note extract_printable printable_only until strip lstrip
    rstrip little_endian
info-thread = refl

-- elftools raises: the text gives two threads.
raised-threads :
    (run (raise value_error) (ok (info ∷ [])) dump).lina_threads
    ≡ pattern_thread ∷ pattern_thread ∷ []
unfolding run scan_text visit_chunk scan_chunks scan_pattern find_from find starts_with add_lina
raised-threads = refl

lina_threads_lem_example :
    ((run (ok (other ∷ [])) (ok (info ∷ other ∷ [])) dump).lina_threads
      ≡ or_else (from_notes (ok (other ∷ [])) (ok (info ∷ other ∷ []))) (scan_text dump))
    × (length (run (ok (other ∷ [])) (ok (info ∷ other ∷ [])) dump).lina_threads ≤ 256)
lina_threads_lem_example = lina_threads_lem (ok (other ∷ [])) (ok (info ∷ other ∷ [])) dump
