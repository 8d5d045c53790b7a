-- ===== src/Extractors/Cisco/Acl.antt =====
-- extractors/cisco/asa/acl_rules.py: `ASAACLRulesExtractor`.
pub mod Rules
pub mod Sound
mod Tests
use vantacore_engine.Prelude.{
  Bool, List, Option, [], drop, if◌then◌else◌, leb, length, ltb, none, some, take, ℕ, ◌&&◌, ◌++◌,
  ◌+◌, ◌/◌, ◌||◌, ◌∷◌,
}
use vantacore_engine.Bytes.{Bytes, bytes_eq}
use vantacore_engine.Paging.{read_at}
use vantacore_engine.Extractors.Chunked.{scan_chunks}
use vantacore_engine.Extractors.Keyed.{bytes_key, seen}
use vantacore_engine.Extractors.Text.{line_at, split_words, words_from}
use vantacore_engine.Extractors.Patterns.{never, scan_all, scan_pattern}
use vantacore_engine.Extractors.Cisco.Firmware.{extract_firmware_version}

abbrev pub access_list : Bytes
access_list = b'a' ∷ b'c' ∷ b'c' ∷ b'e' ∷ b's' ∷ b's' ∷ b'-' ∷ b'l' ∷ b'i' ∷ b's' ∷ b't' ∷ []

abbrev pub acl_prefix : Bytes
acl_prefix = access_list ++ (32 ∷ [])

abbrev pub permit : Bytes
permit = b'p' ∷ b'e' ∷ b'r' ∷ b'm' ∷ b'i' ∷ b't' ∷ []

abbrev pub deny : Bytes
deny = b'd' ∷ b'e' ∷ b'n' ∷ b'y' ∷ []

abbrev pub any : Bytes
any = b'a' ∷ b'n' ∷ b'y' ∷ []

abbrev pub host : Bytes
host = b'h' ∷ b'o' ∷ b's' ∷ b't' ∷ []

abbrev pub ip : Bytes
ip = b'i' ∷ b'p' ∷ []

-- `s.lower()`, as far as a comparison with a word of ASCII letters tells.
abbrev pub lower : Bytes → Bytes
lower [] = []
lower (c ∷ s) = (if leb b'A' c && leb c b'Z' then c + 32 else c) ∷ lower s

-- `" ".join(words)`
unfoldable pub join : List Bytes → Bytes
join [] = []
join (word ∷ []) = word
join (word ∷ next ∷ words) = word ++ (32 ∷ join (next ∷ words))

unfoldable pub is_action : Bytes → Bool
unfolding bytes_eq
is_action token = bytes_eq (lower token) permit || bytes_eq (lower token) deny

-- The first word that is an action, in lower case, and the words behind it.
unfoldable pub find_action : List Bytes → Option (Bytes × List Bytes)
unfolding is_action
find_action [] = none
find_action (token ∷ tokens) =
    let rest = find_action tokens in if is_action token then some (lower token, tokens) else rest

-- The words behind the protocol, as source and destination.
unfoldable pub split_rest : List Bytes → Bytes × Bytes
unfolding bytes_eq join
split_rest [] = (any, any)
split_rest (a ∷ []) = (a, any)
split_rest (a ∷ b ∷ []) = (a, b)
split_rest (a ∷ b ∷ c ∷ rest) =
    let half = length (a ∷ b ∷ c ∷ rest) / 2 in
    if bytes_eq a any
    then (any, join (b ∷ c ∷ rest))
    else if bytes_eq a host
    then (host ++ (32 ∷ b), join (c ∷ rest))
    else (join (take half (a ∷ b ∷ c ∷ rest)), join (drop half (a ∷ b ∷ c ∷ rest)))

pub record Rule : Type 0 where
  pub acl_name : Bytes
  pub action : Bytes
  pub protocol : Bytes
  pub source : Bytes
  pub destination : Bytes

abbrev pub protocol_of : List Bytes → Bytes
protocol_of [] = ip
protocol_of (word ∷ words) = word

-- The second word of a line that begins with "access-list", or else the first.
abbrev pub name_of : List Bytes → Bytes
name_of [] = []
name_of (word ∷ []) = word
name_of (word ∷ name ∷ words) = if bytes_eq word access_list then name else word

abbrev pub rule_with : Bytes → Option (Bytes × List Bytes) → Option Rule
rule_with name none = none
rule_with name (some (action, behind)) = some (record {
  acl_name = name;
  action = action;
  protocol = protocol_of behind;
  source = (split_rest (drop 1 behind)).0;
  destination = (split_rest (drop 1 behind)).1;
})

unfoldable pub parse_rule : List Bytes → Option Rule
unfolding find_action split_rest bytes_eq
parse_rule tokens =
    if ltb (length tokens) 4 then none else rule_with (name_of tokens) (find_action tokens)

pub record Search : Type 0 where
  pub hops : ℕ
  pub seen_rules : List Bytes
  pub acl_rules : List Rule

abbrev pub add_rule : Bytes → Option Rule → Search → Search
add_rule line none s = s
add_rule line (some rule) s = record s {
  seen_rules = s.seen_rules ++ (line ∷ []);
  acl_rules = s.acl_rules ++ (rule ∷ []);
}

unfoldable pub visit_line : Bytes → Search → Search
unfolding bytes_eq words_from parse_rule
visit_line line s =
    if seen line s.seen_rules then s else add_rule line (parse_rule (split_words line)) s

unfoldable pub visit_chunk : ℕ → Bytes → Search → Search
unfolding scan_pattern line_at visit_line
visit_chunk offset chunk s =
    scan_all acl_prefix never (λ idx. visit_line (line_at chunk idx 256)) chunk
      (record s { hops = s.hops + 1 })

abbrev pub is_capped : Search → Bool
is_capped s = leb 500000 s.hops

pub record Report : Type 0 where
  pub acl_rules : List Rule
  pub firmware_version : Option Bytes

abbrev pub nothing : Search
nothing = record { hops = 0; seen_rules = []; acl_rules = [] }

unfoldable pub search : Bytes → Search
unfolding scan_chunks visit_chunk
search dump = scan_chunks dump 65536 is_capped visit_chunk (length dump + 1) 0 nothing

unfoldable pub run : Bytes → Report
unfolding search extract_firmware_version
run dump = record {
  acl_rules = (search dump).acl_rules;
  firmware_version = extract_firmware_version (read_at dump 0 65536);
}
