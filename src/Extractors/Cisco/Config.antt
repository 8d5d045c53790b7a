-- ===== src/Extractors/Cisco/Config.antt =====
-- extractors/cisco/ios/running_config.py: `RunningConfigExtractor`.
pub mod Sections
pub mod Confidence
mod Tests
use vantacore_engine.Prelude.{
  Bool, List, Option, [], drop, if◌then◌else◌, leb, length, min, none, some, take, ℕ, ◌&&◌, ◌++◌,
  ◌+◌, ◌-◌, ◌/◌, ◌==◌, ◌||◌, ◌∷◌,
}
use vantacore_engine.Bytes.{Bytes, bytes_eq, find}
use vantacore_engine.Paging.{read_at}
use vantacore_engine.Extractors.Chunked.{scan_chunks}
use vantacore_engine.Extractors.Keyed.{bytes_key, pair_key, number_key, seen}
use vantacore_engine.Extractors.Text.{if_any, is_space, strip, take_while, until}
use vantacore_engine.Extractors.Patterns.{never, scan_all, scan_pattern}
use vantacore_engine.Extractors.Cisco.Firmware.{ascii_only, version_prefix}

-- "hostname ", "interface ", "router ", "ip route ", "line vty", "crypto " and "aaa ".
abbrev pub anchor_sentinels : List Bytes
anchor_sentinels =
    (b'h' ∷ b'o' ∷ b's' ∷ b't' ∷ b'n' ∷ b'a' ∷ b'm' ∷ b'e' ∷ 32 ∷ [])
    ∷ (b'i' ∷ b'n' ∷ b't' ∷ b'e' ∷ b'r' ∷ b'f' ∷ b'a' ∷ b'c' ∷ b'e' ∷ 32 ∷ [])
    ∷ (b'r' ∷ b'o' ∷ b'u' ∷ b't' ∷ b'e' ∷ b'r' ∷ 32 ∷ [])
    ∷ (b'i' ∷ b'p' ∷ 32 ∷ b'r' ∷ b'o' ∷ b'u' ∷ b't' ∷ b'e' ∷ 32 ∷ [])
    ∷ (b'l' ∷ b'i' ∷ b'n' ∷ b'e' ∷ 32 ∷ b'v' ∷ b't' ∷ b'y' ∷ [])
    ∷ (b'c' ∷ b'r' ∷ b'y' ∷ b'p' ∷ b't' ∷ b'o' ∷ 32 ∷ [])
    ∷ (b'a' ∷ b'a' ∷ b'a' ∷ 32 ∷ [])
    ∷ []

-- "Cisco IOS Software, Version "
abbrev pub ios_version : Bytes
ios_version =
    b'C' ∷ b'i' ∷ b's' ∷ b'c' ∷ b'o' ∷ 32 ∷ b'I' ∷ b'O' ∷ b'S' ∷ 32 ∷ b'S' ∷ b'o' ∷ b'f' ∷ b't'
    ∷ b'w' ∷ b'a' ∷ b'r' ∷ b'e' ∷ b',' ∷ 32 ∷ b'V' ∷ b'e' ∷ b'r' ∷ b's' ∷ b'i' ∷ b'o' ∷ b'n' ∷ 32
    ∷ []

-- "Cisco IOS XE Software, Version "
abbrev pub iosxe_version : Bytes
iosxe_version =
    b'C' ∷ b'i' ∷ b's' ∷ b'c' ∷ b'o' ∷ 32 ∷ b'I' ∷ b'O' ∷ b'S' ∷ 32 ∷ b'X' ∷ b'E' ∷ 32 ∷ b'S' ∷ b'o'
    ∷ b'f' ∷ b't' ∷ b'w' ∷ b'a' ∷ b'r' ∷ b'e' ∷ b',' ∷ 32 ∷ b'V' ∷ b'e' ∷ b'r' ∷ b's' ∷ b'i' ∷ b'o'
    ∷ b'n' ∷ 32 ∷ []

abbrev pub version_patterns : List Bytes
version_patterns = version_prefix ∷ ios_version ∷ iosxe_version ∷ []

abbrev pub version_behind : Bytes → Bytes → Option ℕ → Option Bytes
version_behind chunk prefix none = none
version_behind chunk prefix (some idx) =
    if_any (
      strip is_space (ascii_only (until 10 (until 0 (take 16 (drop (idx + length prefix) chunk))))))

abbrev pub or_version : Option Bytes → Option Bytes → Option Bytes
or_version none rest = rest
or_version (some v) rest = some v

-- The first of the banners with a version behind it; none stands for "unknown".
unfoldable pub detect_firmware_version : Bytes → List Bytes → Option Bytes
unfolding find ascii_only until strip
detect_firmware_version chunk [] = none
detect_firmware_version chunk (prefix ∷ prefixes) =
    or_version (version_behind chunk prefix (find chunk prefix))
      (detect_firmware_version chunk prefixes)

abbrev pub in_block : ℕ → Bool
in_block b = (b == 9) || ((b == 10) || ((b == 13) || (leb 32 b && leb b 126)))

unfoldable pub extract_printable_block : Bytes → ℕ → Bytes
unfolding take_while strip
extract_printable_block chunk start =
    strip is_space
      (take_while in_block (take (min (length chunk) (start + 4096) - start) (drop start chunk)))

pub record Search : Type 0 where
  pub hops : ℕ
  pub found_sections : List Bytes
  pub found_anchors : List Bytes
  pub seen_offsets : List (Bytes × ℕ)

-- `found_anchors.add`
abbrev pub add_anchor : Bytes → List Bytes → List Bytes
add_anchor name names = if seen name names then names else names ++ (name ∷ [])

abbrev pub add_section : Bytes → Bytes → Search → Search
add_section anchor [] s = s
add_section anchor (c ∷ text) s = record s {
  found_sections = s.found_sections ++ ((c ∷ text) ∷ []);
  found_anchors = add_anchor (strip is_space anchor) s.found_anchors;
}

unfoldable pub visit_anchor : ℕ → Bytes → Bytes → ℕ → Search → Search
unfolding bytes_eq strip extract_printable_block
visit_anchor offset chunk anchor idx s =
    let bucket : Bytes × ℕ = (anchor, (offset + idx) / 64) in
    if seen bucket s.seen_offsets
    then s
    else add_section anchor (extract_printable_block chunk idx)
        (record s { seen_offsets = s.seen_offsets ++ (bucket ∷ []) })

unfoldable pub scan_anchors : ℕ → Bytes → List Bytes → Search → Search
unfolding scan_pattern visit_anchor
scan_anchors offset chunk [] s = s
scan_anchors offset chunk (anchor ∷ anchors) s =
    scan_anchors offset chunk anchors
      (scan_all anchor never (visit_anchor offset chunk anchor) chunk s)

unfoldable pub visit_chunk : ℕ → Bytes → Search → Search
unfolding scan_anchors
visit_chunk offset chunk s =
    scan_anchors offset chunk anchor_sentinels (record s { hops = s.hops + 1 })

abbrev pub is_capped : Search → Bool
is_capped s = leb 500000 s.hops

pub data Level : Type 0 where
  not_found low medium high : Level

unfoldable pub level_of : ℕ → Level
level_of sections_found =
    if sections_found == 0
    then not_found
    else if (sections_found == 1) || (sections_found == 2)
    then low
    else if leb 3 sections_found && leb sections_found 5
    then medium
    else high

-- `"\n\n".join(found_sections)`
unfoldable pub join_sections : List Bytes → Bytes
join_sections [] = []
join_sections (text ∷ []) = text
join_sections (text ∷ more ∷ texts) = text ++ (10 ∷ 10 ∷ join_sections (more ∷ texts))

pub record Report : Type 0 where
  pub text : Bytes
  pub confidence : Level
  pub sections_found : ℕ
  pub firmware_version : Option Bytes

abbrev pub nothing : Search
nothing = record { hops = 0; found_sections = []; found_anchors = []; seen_offsets = [] }

unfoldable pub search : Bytes → Search
unfolding scan_chunks visit_chunk
search dump = scan_chunks dump 65536 is_capped visit_chunk (length dump + 1) 0 nothing

unfoldable pub run : Bytes → Report
unfolding search level_of join_sections detect_firmware_version
run dump =
    let s = search dump in
    record {
      text = join_sections s.found_sections;
      confidence = level_of (length s.found_anchors);
      sections_found = length s.found_anchors;
      firmware_version = detect_firmware_version (read_at dump 0 65536) version_patterns;
    }
