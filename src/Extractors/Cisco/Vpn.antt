-- ===== src/Extractors/Cisco/Vpn.antt =====
-- extractors/cisco/asa/vpn_sessions.py: `ASAVPNSessionsExtractor`.
pub mod Laws
pub mod Sessions
mod Tests
use vantacore_engine.Prelude.{
  Bool, List, Option, [], drop, false, if◌then◌else◌, leb, length, none, some, take, ℕ, ◌++◌, ◌+◌,
  ◌==◌, ◌||◌, ◌∷◌,
}
use vantacore_engine.Prelude.Equality.{Eq}
use vantacore_engine.Bytes.{Bytes, bytes_eq}
use vantacore_engine.Extractors.Chunked.{scan_chunks}
use vantacore_engine.Extractors.Keyed.{bytes_key, pair_key, seen}
use vantacore_engine.Extractors.Text.{
  first_token, is_bracket, is_dotted, split_words, strip, words_from,
}
use vantacore_engine.Extractors.Patterns.{never, scan_all, scan_pattern}
use vantacore_engine.Extractors.Cisco.Secrets.{Findings, Secret, visit_prefix}

-- "pre-shared-key "
abbrev pub psk_prefix : Bytes
psk_prefix =
    b'p' ∷ b'r' ∷ b'e' ∷ b'-' ∷ b's' ∷ b'h' ∷ b'a' ∷ b'r' ∷ b'e' ∷ b'd' ∷ b'-' ∷ b'k' ∷ b'e' ∷ b'y'
    ∷ 32 ∷ []

abbrev pub ikev : Bytes
ikev = b'I' ∷ b'K' ∷ b'E' ∷ b'v' ∷ []

abbrev pub any_connect : Bytes
any_connect = b'A' ∷ b'n' ∷ b'y' ∷ b'C' ∷ b'o' ∷ b'n' ∷ b'n' ∷ b'e' ∷ b'c' ∷ b't' ∷ []

-- "Crypto map tag:"
abbrev pub crypto_map : Bytes
crypto_map =
    b'C' ∷ b'r' ∷ b'y' ∷ b'p' ∷ b't' ∷ b'o' ∷ 32 ∷ b'm' ∷ b'a' ∷ b'p' ∷ 32 ∷ b't' ∷ b'a' ∷ b'g'
    ∷ b':' ∷ []

-- "peer address:"
abbrev pub peer_address : Bytes
peer_address =
    b'p' ∷ b'e' ∷ b'e' ∷ b'r' ∷ 32 ∷ b'a' ∷ b'd' ∷ b'd' ∷ b'r' ∷ b'e' ∷ b's' ∷ b's' ∷ b':' ∷ []

abbrev pub session_patterns : List Bytes
session_patterns = ikev ∷ any_connect ∷ crypto_map ∷ peer_address ∷ []

abbrev pub zero_ip : Bytes
zero_ip = b'0' ∷ b'.' ∷ b'0' ∷ b'.' ∷ b'0' ∷ b'.' ∷ b'0' ∷ []

abbrev pub broadcast_ip : Bytes
broadcast_ip =
    b'2' ∷ b'5' ∷ b'5' ∷ b'.' ∷ b'2' ∷ b'5' ∷ b'5' ∷ b'.' ∷ b'2' ∷ b'5' ∷ b'5' ∷ b'.' ∷ b'2' ∷ b'5'
    ∷ b'5' ∷ []

unfoldable pub is_valid_ip : Bytes → Bool
unfolding strip bytes_eq is_dotted
is_valid_ip s =
    let clean = strip is_bracket s in
    if bytes_eq clean zero_ip || bytes_eq clean broadcast_ip then false else is_dotted clean

pub record Session : Type 0 where
  pub session_type : Bytes
  pub peer_ip : Bytes
  pub physical_offset : ℕ

pub record Search : Type 0 where
  pub hops : ℕ
  pub psks : Findings
  pub seen_session_keys : List (Bytes × Bytes)
  pub sessions : List Session

abbrev pub peer_of : Option Bytes → Bytes
peer_of none = []
peer_of (some token) = strip is_bracket token

unfoldable pub add_session : Session → Search → Search
unfolding bytes_eq
add_session x s = if seen (x.session_type, x.peer_ip) s.seen_session_keys then s else record s {
  seen_session_keys = s.seen_session_keys ++ ((x.session_type, x.peer_ip) ∷ []);
  sessions = s.sessions ++ (x ∷ []);
}

-- The visit of a pattern at an index: the first address among the words of 128 bytes.
unfoldable pub visit_session : ℕ → Bytes → Bytes → ℕ → Search → Search
unfolding words_from first_token is_valid_ip add_session strip
visit_session offset chunk pattern idx s =
    add_session
      (record {
        session_type = strip (λ c. c == b':') pattern;
        peer_ip = peer_of (first_token is_valid_ip (split_words (take 128 (drop idx chunk))));
        physical_offset = offset + idx;
      })
      s

unfoldable pub scan_sessions : ℕ → Bytes → List Bytes → Search → Search
unfolding scan_pattern visit_session
scan_sessions offset chunk [] s = s
scan_sessions offset chunk (pattern ∷ patterns) s =
    scan_sessions offset chunk patterns
      (scan_all pattern never (visit_session offset chunk pattern) chunk s)

unfoldable pub visit_chunk : Bool → ℕ → Bytes → Search → Search
unfolding scan_pattern visit_prefix scan_sessions
visit_chunk include_secrets offset chunk s = scan_sessions offset chunk session_patterns (record s {
  hops = s.hops + 1;
  psks =
      scan_all psk_prefix never (visit_prefix include_secrets psk_prefix offset chunk) chunk s.psks;
})

abbrev pub is_capped : Search → Bool
is_capped s = leb 500000 s.hops

abbrev pub nothing : Search
nothing = record {
  hops = 0;
  psks = record { seen_buckets = []; findings = [] };
  seen_session_keys = [];
  sessions = [];
}

pub record Report : Type 0 where
  pub vpn_sessions : List Session
  pub vpn_psks : List Secret

unfoldable pub run : Bool → Bytes → Report
unfolding scan_chunks visit_chunk
run include_secrets dump =
    let s =
      scan_chunks dump 65536 is_capped (visit_chunk include_secrets) (length dump + 1) 0 nothing in
    record { vpn_sessions = s.sessions; vpn_psks = s.psks.findings }
