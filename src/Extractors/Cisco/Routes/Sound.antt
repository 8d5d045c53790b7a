-- ===== src/Extractors/Cisco/Routes/Sound.antt =====
-- extractors/cisco/ios/routing_table.py: the routes that are reported.
use vantacore_engine.Prelude.{List, [], true, ℕ, ◌++◌, ◌∷◌, ◌≡◌, ◌⊎◌}
use vantacore_engine.Bytes.{Bytes}
use vantacore_engine.Extractors.Keyed.{Distinct, bytes_key, number_key, pair_key, seen}
use vantacore_engine.Extractors.Text.{split_words, strip}
use vantacore_engine.Extractors.Text.Addresses.{IsAddress, IsUpTo}
use vantacore_engine.Extractors.Patterns.Places.{StandsAt}
use vantacore_engine.Extractors.Cisco.Routes.Texts.{is_mark, mask_to_prefix_len}
use vantacore_engine.Extractors.Cisco.Routes.{
  Protocol, Route, Search, bgp, code_of, connected, eigrp, ip_route, ospf, rip, static,
  static_prefix,
}

-- The letter and the blank of a protocol.
abbrev pub code_bytes : Protocol → Bytes
code_bytes ospf = b'O' ∷ 32 ∷ []
code_bytes connected = b'C' ∷ 32 ∷ []
code_bytes static = b'S' ∷ 32 ∷ []
code_bytes bgp = b'B' ∷ 32 ∷ []
code_bytes eigrp = b'D' ∷ 32 ∷ []
code_bytes rip = b'R' ∷ 32 ∷ []

abbrev pub keys : List Route → List (ℕ × Bytes)
keys [] = []
keys (r ∷ rs) = (code_of r.protocol, r.prefix) ∷ keys rs

-- An address, in brackets and with other marks around it or not.
abbrev pub IsMarkedAddress : Bytes → Type 0
IsMarkedAddress s = IsAddress (strip is_mark s)

-- An address, a slash and a number up to 32.
abbrev pub IsPrefix : Bytes → Type 0
IsPrefix prefix =
    (ip_part : Bytes) × (mask_part : Bytes) × (prefix ≡ ip_part ++ (b'/' ∷ mask_part))
    × IsMarkedAddress ip_part
    × IsUpTo 32 mask_part

module _ (dump : Bytes) where
  -- A line of the dump at an offset, by its words.
  abbrev pub IsLine : ℕ → List Bytes → Type 0
  IsLine offset words = (line : Bytes) × StandsAt dump offset line × (words ≡ split_words line)

  -- A word of the line at the letter of the protocol is the prefix, when the marks around it are
  -- taken off.
  abbrev pub IsListed : Route → Type 0
  IsListed r =
      StandsAt dump r.physical_offset (code_bytes r.protocol)
      × (words : List Bytes) × (token : Bytes) × IsLine r.physical_offset words
      × (seen token words ≡ true)
      × (r.prefix ≡ strip is_mark token)
      × IsPrefix r.prefix

  -- The third and the fourth word of a line of the configuration are the network and the mask,
  -- written with the length of the mask if it has one.
  abbrev pub IsConfigured : Route → Type 0
  IsConfigured r =
      StandsAt dump r.physical_offset ip_route
      × (r.protocol ≡ static)
      × (ip : Bytes) × (route : Bytes) × (net : Bytes) × (mask : Bytes) × (more : List Bytes)
      × IsLine r.physical_offset (ip ∷ route ∷ net ∷ mask ∷ more)
      × IsMarkedAddress net
      × IsMarkedAddress mask
      × (r.prefix ≡ static_prefix net mask (mask_to_prefix_len mask))

  abbrev pub IsRoute : Route → Type 0
  IsRoute r = IsListed r ⊎ IsConfigured r

  abbrev pub AllRoutes : List Route → Type 0
  AllRoutes [] = Unit {0}
  AllRoutes (r ∷ rs) = IsRoute r × AllRoutes rs

  record IsFound (s : Search) : Type 0 where
    all_routes : AllRoutes s.routes
    same_keys : s.seen_prefixes ≡ keys s.routes
    distinct : Distinct s.seen_prefixes

  abbrev AllCodes : List (Bytes × Protocol) → Type 0
  AllCodes [] = Unit {0}
  AllCodes ((code, protocol) ∷ codes) = (code_bytes protocol ≡ code) × AllCodes codes
