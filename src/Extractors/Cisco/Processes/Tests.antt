-- ===== src/Extractors/Cisco/Processes/Tests.antt =====
-- extractors/cisco/ios/ios_processes.py on a short dump.
use vantacore_engine.Prelude.{[], refl, ◌++◌, ◌∷◌, ◌≡◌}
use vantacore_engine.Bytes.{Bytes, find, find_from, starts_with}
use vantacore_engine.Extractors.Chunked.{scan_chunks}
use vantacore_engine.Extractors.Text.{strip, lstrip, rstrip, until, line_at, words_from, int_digits}
use vantacore_engine.Extractors.Patterns.{scan_pattern}
use vantacore_engine.Extractors.Cisco.Processes.{
  run, visit_chunk, scan_pids, visit_pid, add_line, number, add_region, mempool_magic,
}
use vantacore_engine.Extractors.Cisco.Processes.Sound.{IsFound, run-IsFound}

-- "PID 12: Exec", twice, and a block of a memory pool.
abbrev table : Bytes
table =
    let line : Bytes =
      b'P' ∷ b'I' ∷ b'D' ∷ 32 ∷ b'1' ∷ b'2' ∷ b':' ∷ 32 ∷ b'E' ∷ b'x' ∷ b'e' ∷ b'c' ∷ 10 ∷ [] in
    line ++ line ++ mempool_magic

table-report :
    ((run table).processes
      ≡ record { pid = 12; name = b'E' ∷ b'x' ∷ b'e' ∷ b'c' ∷ []; physical_offset = 0 } ∷ [])
    × ((run table).mempool_regions ≡ 26 ∷ [])
unfolding run visit_chunk scan_pids visit_pid add_line number add_region scan_chunks scan_pattern
    find_from find starts_with strip lstrip rstrip until line_at words_from int_digits
table-report = (refl, refl)

run-IsFound_example : IsFound table (run table)
run-IsFound_example = run-IsFound table
