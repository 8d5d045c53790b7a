-- ===== src/Extractors/Cisco/Connections/Sound.antt =====
-- extractors/cisco/asa/conn_table.py: the connections that are reported.
use vantacore_engine.Prelude.{List, [], length, true, ℕ, ◌+◌, ◌∷◌, ◌≡◌, ◌≢◌, ◌≤◌}
use vantacore_engine.Bytes.{Bytes}
use vantacore_engine.Extractors.Keyed.{Distinct, bytes_key, number_key, pair_key, seen}
use vantacore_engine.Extractors.Text.Addresses.{IsAddress}
use vantacore_engine.Extractors.Cisco.Vpn.{broadcast_ip, zero_ip}
use vantacore_engine.Extractors.Patterns.Places.{StandsAt}
use vantacore_engine.Extractors.Cisco.Connections.{Connection, Key, Search, conn_patterns}

-- An address that is not written as one of the two reserved ones, and a port.
abbrev pub IsEnd : Bytes × ℕ → Type 0
IsEnd e = (IsAddress e.0 × ((e.0 ≢ zero_ip) × (e.0 ≢ broadcast_ip))) × ((1 ≤ e.1) × (e.1 ≤ 65535))

abbrev pub keys : List Connection → List Key
keys [] = []
keys (c ∷ cs) = (c.protocol, (c.src, c.dst)) ∷ keys cs

-- The numbers of the connections go up by one.
abbrev pub AreNumbered : ℕ → List Connection → Type 0
AreNumbered n [] = Unit {0}
AreNumbered n (c ∷ cs) = (c.conn_id ≡ n) × AreNumbered (n + 1) cs

module _ (dump : Bytes) where
  abbrev pub IsConnection : Connection → Type 0
  IsConnection c =
      ((pattern : Bytes) × ((seen pattern conn_patterns ≡ true)
          × StandsAt dump c.physical_offset pattern))
      × (IsEnd c.src × IsEnd c.dst)

  abbrev pub AllConnections : List Connection → Type 0
  AllConnections [] = Unit {0}
  AllConnections (c ∷ cs) = IsConnection c × AllConnections cs

  record IsFound (s : Search) : Type 0 where
    all_connections : AllConnections s.connections
    numbered : AreNumbered 1 s.connections
    next_id : s.conn_id_counter ≡ 1 + length s.connections
    same_keys : s.seen_tuples ≡ keys s.connections
    distinct : Distinct s.seen_tuples

  abbrev IsLabelled : ℕ → Type 0
  IsLabelled offset =
      (pattern : Bytes) × ((seen pattern conn_patterns ≡ true) × StandsAt dump offset pattern)

  abbrev AllPatterns : List Bytes → Type 0
  AllPatterns [] = Unit {0}
  AllPatterns (p ∷ ps) = (seen p conn_patterns ≡ true) × AllPatterns ps
