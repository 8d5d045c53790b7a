-- ===== src/Extractors/Cisco/Connections/Tests.antt =====
-- extractors/cisco/asa/conn_table.py on a short dump.
use vantacore_engine.Prelude.{[], none, refl, true, ◌++◌, ◌∷◌, ◌≡◌}
use vantacore_engine.Bytes.{Bytes, bytes_eq, find, find_from, starts_with}
use vantacore_engine.Extractors.Chunked.{scan_chunks}
use vantacore_engine.Extractors.Keyed.{bytes_key, number_key, pair_key}
use vantacore_engine.Extractors.Text.{
  all_octets, int, int_digits, is_dotted, lstrip, rstrip, split_on, strip, until, words_from,
}
use vantacore_engine.Extractors.Patterns.{scan_pattern}
use vantacore_engine.Extractors.Cisco.Firmware.{extract_firmware_version}
use vantacore_engine.Extractors.Cisco.Connections.{
  add_connection, add_tokens, is_valid_ip, parse_ip_port, rsplit_colon, run, scan_patterns,
  visit_chunk, visit_pattern, word_behind,
}

-- "10.0.0.1"
abbrev host : Bytes
host = b'1' ∷ b'0' ∷ b'.' ∷ b'0' ∷ b'.' ∷ b'0' ∷ b'.' ∷ b'1' ∷ []

-- "   TCP 10.0.0.1:80, 10.0.0.1:81 bytes -7,", and "   UDP 10.0.0.1:0 10.0.0.1:81" with no port.
abbrev lines : Bytes
lines =
    (32 ∷ 32 ∷ 32 ∷ b'T' ∷ b'C' ∷ b'P' ∷ 32 ∷ host)
    ++ (b':' ∷ b'8' ∷ b'0' ∷ b',' ∷ 32 ∷ host)
    ++ (b':' ∷ b'8' ∷ b'1' ∷ 32 ∷ b'b' ∷ b'y' ∷ b't' ∷ b'e' ∷ b's' ∷ 32 ∷ b'-' ∷ b'7' ∷ b',' ∷ 10
        ∷ [])
    ++ (32 ∷ 32 ∷ 32 ∷ b'U' ∷ b'D' ∷ b'P' ∷ 32 ∷ host)
    ++ (b':' ∷ b'0' ∷ 32 ∷ host)
    ++ (b':' ∷ b'8' ∷ b'1' ∷ [])

lines-report : run lines ≡ record {
  connections =
      (record {
        conn_id = 1;
        protocol = b'T' ∷ b'C' ∷ b'P' ∷ [];
        src = (host, 80);
        dst = (host, 81);
        flags = [];
        bytes_in = (true, 7);
        physical_offset = 0;
      })
      ∷ [];
  firmware_version = none;
}
unfolding run visit_chunk scan_patterns visit_pattern add_tokens add_connection word_behind
    parse_ip_port rsplit_colon is_valid_ip extract_firmware_version scan_chunks scan_pattern
    find_from find starts_with bytes_eq is_dotted all_octets split_on strip lstrip rstrip int
    int_digits until words_from
lines-report = refl
