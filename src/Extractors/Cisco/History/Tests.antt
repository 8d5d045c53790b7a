-- ===== src/Extractors/Cisco/History/Tests.antt =====
-- extractors/cisco/common/cli_history.py on a short dump.
use mathlib.Core.List.{Perm}
use vantacore_engine.Prelude.{List, [], refl, replicate, ◌++◌, ◌∷◌, ◌≡◌}
use vantacore_engine.Bytes.{Bytes, find, find_from, starts_with}
use vantacore_engine.Extractors.Chunked.{scan_chunks}
use vantacore_engine.Extractors.Text.{strip, lstrip, rstrip}
use vantacore_engine.Extractors.Patterns.{scan_pattern}
use vantacore_engine.Extractors.Cisco.History.{
  Match, run, collect, sort, insert_match, cluster, cluster_from, extract_command_string,
  scan_sentinels, visit_sentinel, visit_chunk, found, enable, exit, show,
}
use vantacore_engine.Extractors.Cisco.History.Sorting.{IsOrdered}
use vantacore_engine.Extractors.Cisco.History.Clusters.{IsClustered}
use vantacore_engine.Extractors.Cisco.History.Matches.{AllCommands, history_lem}

-- "enable", "show v" behind it, and "exit" more than 512 bytes further.
abbrev session : Bytes
session = enable ++ (10 ∷ []) ++ show ++ (b'v' ∷ 0 ∷ []) ++ replicate 513 0 ++ exit

session-report : run session ≡ record {
  cli_history = (enable ∷ (show ++ (b'v' ∷ [])) ∷ []) ∷ (exit ∷ []) ∷ [];
  cli_history_confidence = found;
}
unfolding run collect sort insert_match cluster cluster_from extract_command_string scan_sentinels
    visit_sentinel visit_chunk scan_chunks scan_pattern find_from find starts_with strip lstrip
    rstrip
session-report = refl

history_lem_example :
    AllCommands session (collect session)
    × ((ms : List Match) × (Perm ms (collect session)
          × (IsOrdered ms × IsClustered ms (run session).cli_history)))
history_lem_example = history_lem session
