-- ===== src/Extractors/Cisco/History.antt =====
-- extractors/cisco/common/cli_history.py: `CLIHistoryExtractor`.
pub mod Sorting
pub mod Matches
pub mod Clusters
mod Tests
use vantacore_engine.Prelude.{
  Bool, List, Option, [], drop, if◌then◌else◌, leb, length, ltb, min, none, some, take, ℕ, ◌&&◌,
  ◌++◌, ◌+◌, ◌-◌, ◌∷◌,
}
use vantacore_engine.Bytes.{Bytes}
use vantacore_engine.Extractors.Chunked.{scan_chunks}
use vantacore_engine.Extractors.Text.{if_any, is_space, strip, take_while}
use vantacore_engine.Extractors.Patterns.{never, scan_all, scan_pattern}

abbrev pub show : Bytes
show = b's' ∷ b'h' ∷ b'o' ∷ b'w' ∷ 32 ∷ []

-- "configure terminal"
abbrev pub configure : Bytes
configure =
    b'c' ∷ b'o' ∷ b'n' ∷ b'f' ∷ b'i' ∷ b'g' ∷ b'u' ∷ b'r' ∷ b'e' ∷ 32 ∷ b't' ∷ b'e' ∷ b'r' ∷ b'm'
    ∷ b'i' ∷ b'n' ∷ b'a' ∷ b'l' ∷ []

abbrev pub enable : Bytes
enable = b'e' ∷ b'n' ∷ b'a' ∷ b'b' ∷ b'l' ∷ b'e' ∷ []

abbrev pub negate : Bytes
negate = b'n' ∷ b'o' ∷ 32 ∷ []

abbrev pub exit : Bytes
exit = b'e' ∷ b'x' ∷ b'i' ∷ b't' ∷ []

abbrev pub cli_sentinels : List Bytes
cli_sentinels = show ∷ configure ∷ enable ∷ negate ∷ exit ∷ []

-- Printable ASCII: NUL and the ends of lines are not.
abbrev pub in_command : ℕ → Bool
in_command b = leb 32 b && leb b 126

unfoldable pub extract_command_string : Bytes → ℕ → Option Bytes
unfolding take_while strip
extract_command_string chunk offset = if_any (
    strip is_space (
      take_while in_command
        (take (min (length chunk) (offset + 256) - offset) (drop offset chunk))))

-- An offset and the command that begins there.
abbrev pub Match : Type 0
Match = ℕ × Bytes

pub record Search : Type 0 where
  pub hops : ℕ
  pub raw_matches : List Match

abbrev pub add_match : ℕ → Option Bytes → Search → Search
add_match phys_off none s = s
add_match phys_off (some cmd) s = record s { raw_matches = s.raw_matches ++ ((phys_off, cmd) ∷ []) }

unfoldable pub visit_sentinel : ℕ → Bytes → ℕ → Search → Search
unfolding extract_command_string
visit_sentinel offset chunk idx s = add_match (offset + idx) (extract_command_string chunk idx) s

unfoldable pub scan_sentinels : ℕ → Bytes → List Bytes → Search → Search
unfolding scan_pattern visit_sentinel
scan_sentinels offset chunk [] s = s
scan_sentinels offset chunk (sentinel ∷ sentinels) s =
    scan_sentinels offset chunk sentinels
      (scan_all sentinel never (visit_sentinel offset chunk) chunk s)

unfoldable pub visit_chunk : ℕ → Bytes → Search → Search
unfolding scan_sentinels
visit_chunk offset chunk s =
    scan_sentinels offset chunk cli_sentinels (record s { hops = s.hops + 1 })

abbrev pub is_capped : Search → Bool
is_capped s = leb 500000 s.hops

unfoldable pub collect : Bytes → List Match
unfolding scan_chunks visit_chunk
collect dump =
    (scan_chunks dump 65536 is_capped visit_chunk (length dump + 1) 0
      (record { hops = 0; raw_matches = [] })).raw_matches

-- `raw_matches.sort(key=lambda x: x[0])`: Python's sort is stable.
unfoldable pub insert_match : Match → List Match → List Match
insert_match m [] = m ∷ []
insert_match m (n ∷ ns) =
    let rest = insert_match m ns in if leb m.0 n.0 then m ∷ n ∷ ns else n ∷ rest

unfoldable pub sort : List Match → List Match
unfolding insert_match
sort [] = []
sort (m ∷ ms) = insert_match m (sort ms)

-- The loop over `raw_matches[1:]`, with the cluster that is open and the offset before.
unfoldable pub cluster_from : List Bytes → ℕ → List Match → List (List Bytes)
cluster_from current prev_offset [] = current ∷ []
cluster_from current prev_offset (m ∷ ms) =
    let joins = leb (m.0 - prev_offset) 512 && ltb (length current) 256 in
    let rest = cluster_from (if joins then current ++ (m.1 ∷ []) else m.1 ∷ []) m.0 ms in
    if joins then rest else current ∷ rest

unfoldable pub cluster : List Match → List (List Bytes)
unfolding cluster_from
cluster [] = []
cluster (m ∷ ms) = cluster_from (m.1 ∷ []) m.0 ms

pub data Confidence : Type 0 where
  found not_found : Confidence

pub record Report : Type 0 where
  pub cli_history : List (List Bytes)
  pub cli_history_confidence : Confidence

abbrev pub confidence_of : List (List Bytes) → Confidence
confidence_of [] = not_found
confidence_of (c ∷ cs) = found

unfoldable pub run : Bytes → Report
unfolding collect sort cluster
run dump =
    let clusters = cluster (sort (collect dump)) in
    record { cli_history = clusters; cli_history_confidence = confidence_of clusters }
