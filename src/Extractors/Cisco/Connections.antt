-- ===== src/Extractors/Cisco/Connections.antt =====
-- extractors/cisco/asa/conn_table.py: `ASAConnTableExtractor`.
pub mod Sound
mod Tests
use mathlib.Core.Option
use vantacore_engine.Prelude.{
  Bool, List, Option, [], drop, false, if◌then◌else◌, leb, length, map, none, some, take, true, ℕ,
  ◌&&◌, ◌++◌, ◌+◌, ◌-◌, ◌==◌, ◌||◌, ◌∷◌,
}
use vantacore_engine.Bytes.{Bytes, bytes_eq}
use vantacore_engine.Paging.{read_at}
use vantacore_engine.Extractors.Chunked.{scan_chunks}
use vantacore_engine.Extractors.Keyed.{bytes_key, number_key, pair_key, seen}
use vantacore_engine.Extractors.Text.{
  if_any, int, is_dotted, is_space, is_within, rstrip, split_words, strip, until, words_from,
}
use vantacore_engine.Extractors.Patterns.{never, scan_all, scan_pattern}
use vantacore_engine.Extractors.Cisco.Firmware.{extract_firmware_version}
use vantacore_engine.Extractors.Cisco.Vpn.{broadcast_ip, zero_ip}

unfoldable pub is_valid_ip : Bytes → Bool
unfolding bytes_eq is_dotted
is_valid_ip s = if bytes_eq s zero_ip || bytes_eq s broadcast_ip then false else is_dotted s

-- The characters of ",;)".
abbrev pub is_tail : ℕ → Bool
is_tail c = (c == b',') || ((c == b';') || (c == b')'))

abbrev pub extend_first : ℕ → Bytes × Bytes → Bytes × Bytes
extend_first c (ip_part, port_part) = (c ∷ ip_part, port_part)

-- `s.rsplit(":", 1)` where there is a colon: the last one.
unfoldable pub rsplit_colon : Bytes → Option (Bytes × Bytes)
rsplit_colon [] = none
rsplit_colon (c ∷ s) = elim (rsplit_colon s) [
  | none ↦ if c == b':' then some ([], s) else none
  | some parts ↦ some (extend_first c parts)
]

abbrev pub port_of : Option (Bool × ℕ) → Option ℕ
port_of none = none
port_of (some (true, n)) = none
port_of (some (false, n)) = if leb 1 n && leb n 65535 then some n else none

abbrev pub ip_and_port : Option (Bytes × Bytes) → Option (Bytes × ℕ)
ip_and_port none = none
ip_and_port (some (ip_part, port_part)) =
    let port = Option.map (λ n. (ip_part, n)) (port_of (int port_part)) in
    if is_valid_ip ip_part then port else none

unfoldable pub parse_ip_port : Bytes → Option (Bytes × ℕ)
unfolding rsplit_colon is_valid_ip int rstrip
parse_ip_port token = ip_and_port (rsplit_colon (rstrip is_tail token))

abbrev pub Key : Type 0
Key = Bytes × ((Bytes × ℕ) × (Bytes × ℕ))

-- `bytes_in` is the number that was read, with its sign. The offset stands for its hexadecimal text.
pub record Connection : Type 0 where
  pub conn_id : ℕ
  pub protocol : Bytes
  pub src : Bytes × ℕ
  pub dst : Bytes × ℕ
  pub flags : List Bytes
  pub bytes_in : Bool × ℕ
  pub physical_offset : ℕ

pub record Search : Type 0 where
  pub hops : ℕ
  pub seen_tuples : List Key
  pub connections : List Connection
  pub conn_id_counter : ℕ

-- `s.upper()` of ASCII letters: the first word is one of the patterns.
abbrev pub upper : Bytes → Bytes
upper [] = []
upper (c ∷ s) = (if leb b'a' c && leb c b'z' then c - 32 else c) ∷ upper s

-- The word behind the first one that is `label`.
unfoldable pub word_behind : Bytes → List Bytes → Option Bytes
unfolding bytes_eq
word_behind label [] = none
word_behind label (word ∷ []) = none
word_behind label (word ∷ next ∷ words) =
    let rest = word_behind label (next ∷ words) in if bytes_eq word label then some next else rest

abbrev pub flags_word : Bytes
flags_word = b'f' ∷ b'l' ∷ b'a' ∷ b'g' ∷ b's' ∷ []

abbrev pub bytes_word : Bytes
bytes_word = b'b' ∷ b'y' ∷ b't' ∷ b'e' ∷ b's' ∷ []

abbrev pub is_comma : ℕ → Bool
is_comma c = c == b','

abbrev pub one_flag : Bytes → List Bytes
one_flag [] = []
one_flag (c ∷ s) = (c ∷ s) ∷ []

abbrev pub first_part : List Bytes → List Bytes
first_part [] = []
first_part (part ∷ parts) = one_flag (strip is_comma part)

abbrev pub flags_of : Option Bytes → List Bytes
flags_of none = []
flags_of (some word) = first_part (split_words (until 0 word))

abbrev pub or_zero : Option (Bool × ℕ) → Bool × ℕ
or_zero none = (false, 0)
or_zero (some n) = n

abbrev pub bytes_of : Option Bytes → Bool × ℕ
bytes_of none = (false, 0)
bytes_of (some word) = or_zero (int (strip is_comma word))

unfoldable pub add_connection : Connection → Search → Search
unfolding bytes_eq
add_connection c s =
    let key : Key = (c.protocol, (c.src, c.dst)) in
    if seen key s.seen_tuples then s else record s {
      seen_tuples = s.seen_tuples ++ (key ∷ []);
      connections = s.connections ++ ((record c { conn_id = s.conn_id_counter }) ∷ []);
      conn_id_counter = s.conn_id_counter + 1;
    }

-- The entry before it is numbered.
abbrev pub entry_of : ℕ → Bytes → List Bytes → Bytes × ℕ → Bytes × ℕ → Connection
entry_of phys_off protocol tokens src dst = record {
  conn_id = 0;
  protocol = protocol;
  src = src;
  dst = dst;
  flags = flags_of (word_behind flags_word tokens);
  bytes_in = bytes_of (word_behind bytes_word tokens);
  physical_offset = phys_off;
}

abbrev pub add_ends :
    ℕ → Bytes → List Bytes → Option (Bytes × ℕ) → Option (Bytes × ℕ) → Search → Search
add_ends phys_off protocol tokens none dst s = s
add_ends phys_off protocol tokens (some src) none s = s
add_ends phys_off protocol tokens (some src) (some dst) s =
    add_connection (entry_of phys_off protocol tokens src dst) s

unfoldable pub add_tokens : ℕ → List Bytes → Search → Search
unfolding parse_ip_port add_connection word_behind words_from until strip int
add_tokens phys_off (protocol ∷ src ∷ dst ∷ more) s =
    add_ends phys_off (upper protocol) (protocol ∷ src ∷ dst ∷ more) (parse_ip_port src)
      (parse_ip_port dst) s
add_tokens phys_off _ s = s

-- The line is not cut at a NUL.
unfoldable pub visit_pattern : ℕ → Bytes → ℕ → Search → Search
unfolding until strip words_from add_tokens
visit_pattern offset chunk idx s =
    add_tokens (offset + idx) (split_words (strip is_space (until 10 (take 128 (drop idx chunk)))))
      s

-- "   TCP ", "   UDP " and "   ICMP ".
abbrev pub conn_patterns : List Bytes
conn_patterns =
    (32 ∷ 32 ∷ 32 ∷ b'T' ∷ b'C' ∷ b'P' ∷ 32 ∷ [])
    ∷ (32 ∷ 32 ∷ 32 ∷ b'U' ∷ b'D' ∷ b'P' ∷ 32 ∷ [])
    ∷ (32 ∷ 32 ∷ 32 ∷ b'I' ∷ b'C' ∷ b'M' ∷ b'P' ∷ 32 ∷ [])
    ∷ []

unfoldable pub scan_patterns : ℕ → Bytes → List Bytes → Search → Search
unfolding scan_pattern visit_pattern
scan_patterns offset chunk [] s = s
scan_patterns offset chunk (pattern ∷ patterns) s =
    scan_patterns offset chunk patterns
      (scan_all pattern never (visit_pattern offset chunk) chunk s)

unfoldable pub visit_chunk : ℕ → Bytes → Search → Search
unfolding scan_patterns
visit_chunk offset chunk s =
    scan_patterns offset chunk conn_patterns (record s { hops = s.hops + 1 })

abbrev pub is_capped : Search → Bool
is_capped s = leb 500000 s.hops

pub record Report : Type 0 where
  pub connections : List Connection
  pub firmware_version : Option Bytes

abbrev pub nothing : Search
nothing = record { hops = 0; seen_tuples = []; connections = []; conn_id_counter = 1 }

unfoldable pub run : Bytes → Report
unfolding scan_chunks visit_chunk extract_firmware_version
run dump =
    let s = scan_chunks dump 65536 is_capped visit_chunk (length dump + 1) 0 nothing in
    record {
      connections = s.connections;
      firmware_version = extract_firmware_version (read_at dump 0 65536);
    }
