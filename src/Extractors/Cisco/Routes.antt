-- ===== src/Extractors/Cisco/Routes.antt =====
-- extractors/cisco/ios/routing_table.py: `IOSRoutingTableExtractor`.
pub mod Texts
mod Dots
pub mod Mask
pub mod Sound
mod Tests
use vantacore_engine.Prelude.{
  Bool, List, Option, [], drop, if◌then◌else◌, leb, length, ltb, none, some, take, ℕ, ◌%◌, ◌&&◌,
  ◌++◌, ◌+◌, ◌/◌, ◌∷◌,
}
use vantacore_engine.Bytes.{Bytes, bytes_eq}
use vantacore_engine.Extractors.Chunked.{scan_chunks}
use vantacore_engine.Extractors.Keyed.{bytes_key, number_key, pair_key, seen}
use vantacore_engine.Extractors.Text.{first_token, line_at, split_words, strip, words_from}
use vantacore_engine.Extractors.Cisco.Routes.Texts.{
  is_mark, is_valid_ip, is_valid_ipv4_prefix, mask_to_prefix_len,
}
use vantacore_engine.Extractors.Patterns.{never, scan_all, scan_pattern}

pub data Protocol : Type 0 where
  ospf connected static bgp eigrp rip : Protocol

-- `_PROTOCOL_MAP`: a letter and a blank.
abbrev pub protocol_map : List (Bytes × Protocol)
protocol_map =
    ((b'O' ∷ 32 ∷ []), ospf)
    ∷ ((b'C' ∷ 32 ∷ []), connected)
    ∷ ((b'S' ∷ 32 ∷ []), static)
    ∷ ((b'B' ∷ 32 ∷ []), bgp)
    ∷ ((b'D' ∷ 32 ∷ []), eigrp)
    ∷ ((b'R' ∷ 32 ∷ []), rip)
    ∷ []

-- Protocols as the keys of the set of seen prefixes.
abbrev pub code_of : Protocol → ℕ
code_of ospf = 0
code_of connected = 1
code_of static = 2
code_of bgp = 3
code_of eigrp = 4
code_of rip = 5

-- "ip route "
abbrev pub ip_route : Bytes
ip_route = b'i' ∷ b'p' ∷ 32 ∷ b'r' ∷ b'o' ∷ b'u' ∷ b't' ∷ b'e' ∷ 32 ∷ []

abbrev pub via : Bytes
via = b'v' ∷ b'i' ∷ b'a' ∷ []

-- None stands for "directly connected".
pub record Route : Type 0 where
  pub protocol : Protocol
  pub prefix : Bytes
  pub next_hop : Option Bytes
  pub physical_offset : ℕ

pub record Search : Type 0 where
  pub hops : ℕ
  pub seen_prefixes : List (ℕ × Bytes)
  pub routes : List Route

unfoldable pub add_route : Route → Search → Search
unfolding bytes_eq
add_route r s =
    let key : ℕ × Bytes = (code_of r.protocol, r.prefix) in
    if seen key s.seen_prefixes
    then s
    else record s { seen_prefixes = s.seen_prefixes ++ (key ∷ []); routes = s.routes ++ (r ∷ []) }

abbrev pub hop_word : List Bytes → Option Bytes
hop_word [] = none
hop_word (word ∷ words) = if is_valid_ip word then some (strip is_mark word) else none

-- The word behind the first "via", if it is an address.
unfoldable pub next_hop_of : List Bytes → Option Bytes
unfolding bytes_eq is_valid_ip strip
next_hop_of [] = none
next_hop_of (word ∷ words) =
    let rest = next_hop_of words in if bytes_eq word via then hop_word words else rest

abbrev pub add_prefixed : Protocol → ℕ → List Bytes → Option Bytes → Search → Search
add_prefixed protocol phys_off tokens none s = s
add_prefixed protocol phys_off tokens (some token) s =
    add_route
      (record {
        protocol = protocol;
        prefix = strip is_mark token;
        next_hop = next_hop_of tokens;
        physical_offset = phys_off;
      })
      s

unfoldable pub visit_code : ℕ → Bytes → Protocol → ℕ → Search → Search
unfolding line_at words_from first_token is_valid_ipv4_prefix strip next_hop_of add_route
visit_code offset chunk protocol idx s =
    let tokens = split_words (line_at chunk idx 128) in
    add_prefixed protocol (offset + idx) tokens (first_token is_valid_ipv4_prefix tokens) s

unfoldable pub scan_codes : ℕ → Bytes → List (Bytes × Protocol) → Search → Search
unfolding scan_pattern visit_code
scan_codes offset chunk [] s = s
scan_codes offset chunk ((code, protocol) ∷ codes) s =
    scan_codes offset chunk codes (scan_all code never (visit_code offset chunk protocol) chunk s)

-- The decimal digits of a number of at most 32.
abbrev pub show : ℕ → Bytes
show n = if ltb n 10 then (b'0' + n) ∷ [] else (b'0' + n / 10) ∷ (b'0' + n % 10) ∷ []

abbrev pub static_prefix : Bytes → Bytes → Option ℕ → Bytes
static_prefix net mask none = net ++ (32 ∷ mask)
static_prefix net mask (some n) = net ++ (b'/' ∷ show n)

unfoldable pub add_static : ℕ → List Bytes → Search → Search
unfolding bytes_eq is_valid_ip mask_to_prefix_len add_route
add_static phys_off (ip ∷ route ∷ net ∷ mask ∷ hop ∷ more) s =
    if bytes_eq ip (take 2 ip_route)
      && (bytes_eq route (take 5 (drop 3 ip_route)) && (is_valid_ip net && is_valid_ip mask))
    then add_route
        (record {
          protocol = static;
          prefix = static_prefix net mask (mask_to_prefix_len mask);
          next_hop = if is_valid_ip hop then some hop else none;
          physical_offset = phys_off;
        })
        s
    else s
add_static phys_off _ s = s

unfoldable pub visit_static : ℕ → Bytes → ℕ → Search → Search
unfolding line_at words_from add_static
visit_static offset chunk idx s = add_static (offset + idx) (split_words (line_at chunk idx 128)) s

unfoldable pub visit_chunk : ℕ → Bytes → Search → Search
unfolding scan_pattern scan_codes visit_static
visit_chunk offset chunk s =
    scan_all ip_route never (visit_static offset chunk) chunk
      (scan_codes offset chunk protocol_map (record s { hops = s.hops + 1 }))

abbrev pub is_capped : Search → Bool
is_capped s = leb 500000 s.hops

abbrev pub nothing : Search
nothing = record { hops = 0; seen_prefixes = []; routes = [] }

unfoldable pub run : Bytes → List Route
unfolding scan_chunks visit_chunk
run dump = (scan_chunks dump 65536 is_capped visit_chunk (length dump + 1) 0 nothing).routes
