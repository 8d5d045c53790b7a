-- ===== src/Extractors/Cisco/Vpn/Tests.antt =====
-- extractors/cisco/asa/vpn_sessions.py on a short dump.
use vantacore_engine.Prelude.{[], false, none, occurrences, refl, true, ℕ, ◌++◌, ◌∷◌, ◌≡◌, ◌≤◌}
use vantacore_engine.Bytes.{Bytes, bytes_eq, find, find_from, starts_with}
use vantacore_engine.Extractors.Chunked.{scan_chunks}
use vantacore_engine.Extractors.Keyed.{Distinct, bytes_key, pair_key}
use vantacore_engine.Extractors.Text.{
  take_while, strip, lstrip, rstrip, words_from, first_token, is_dotted, split_on, all_octets, int,
  int_digits,
}
use vantacore_engine.Extractors.Patterns.{scan_pattern}
use vantacore_engine.Extractors.Cisco.Secrets.{add_secret, add_token, extract_token, visit_prefix}
use vantacore_engine.Extractors.Cisco.Secrets.Sound.{AllSecretsOf, buckets}
use vantacore_engine.Extractors.Cisco.Vpn.{
  run, visit_chunk, scan_sessions, visit_session, add_session, is_valid_ip, psk_prefix, ikev,
}
use vantacore_engine.Extractors.Cisco.Vpn.Laws.{redact_report}
use vantacore_engine.Extractors.Cisco.Vpn.Sessions.{AllSessions, keys, sessions_gated}

abbrev peer : Bytes
peer = b'1' ∷ b'0' ∷ b'.' ∷ b'0' ∷ b'.' ∷ b'0' ∷ b'.' ∷ b'2' ∷ []

-- "IKEv2 10.0.0.2", and a key.
abbrev tunnel : Bytes
tunnel = ikev ++ (b'2' ∷ 32 ∷ []) ++ peer ++ (10 ∷ []) ++ psk_prefix ++ (b's' ∷ b'3' ∷ 0 ∷ [])

tunnel-report : run false tunnel ≡ record {
  vpn_sessions = record { session_type = ikev; peer_ip = peer; physical_offset = 0 } ∷ [];
  vpn_psks = record { value = none; redacted = true; physical_offset = 30 } ∷ [];
}
unfolding run visit_chunk scan_sessions visit_session add_session scan_chunks scan_pattern find_from
    find starts_with visit_prefix extract_token take_while add_token add_secret strip lstrip rstrip
    words_from first_token is_valid_ip is_dotted split_on all_octets int int_digits bytes_eq
tunnel-report = refl

sessions_gated_example :
    (run false tunnel ≡ redact_report (run true tunnel))
    × ((AllSecretsOf tunnel (run true tunnel).vpn_psks
          × ((n : ℕ) → occurrences n (buckets (run true tunnel).vpn_psks) ≤ 1))
        × (AllSessions tunnel (run true tunnel).vpn_sessions
            × Distinct (keys tunnel (run true tunnel).vpn_sessions)))
sessions_gated_example = sessions_gated tunnel
