-- ===== src/Extractors/Network.antt =====
-- extractors/linux/network.py: `LinuxNetworkExtractor`. An IPv4 address is its four bytes; the
-- protocol and the state of a connection are always the same texts, and left out.
pub mod Sound
mod Tests
use vantacore_engine.Prelude.{
  Bool, List, [], false, if◌then◌else◌, leb, length, suc, true, zero, ℕ, ◌&&◌, ◌*◌, ◌++◌, ◌+◌, ◌-◌,
  ◌==◌, ◌||◌, ◌∷◌,
}
use vantacore_engine.Bytes.{Bytes, slice}
use vantacore_engine.Extractors.Chunked.{range_count, scan_chunks}

unfoldable pub is_valid_ipv4_bytes : Bytes → Bool
is_valid_ipv4_bytes (a ∷ b ∷ c ∷ d ∷ []) =
    if (a == 0) && ((b == 0) && ((c == 0) && (d == 0)))
    then false
    else if (a == 255) && ((b == 255) && ((c == 255) && (d == 255)))
    then false
    else if (a == 0) || (a == 255)
    then false
    else true
is_valid_ipv4_bytes _ = false

-- `struct.unpack_from(">H", ...)` of two bytes that are there.
unfoldable pub big_endian : Bytes → ℕ
big_endian (hi ∷ lo ∷ []) = 256 * hi + lo
big_endian _ = 0

pub record Connection : Type 0 where
  pub local_addr : Bytes
  pub local_port : ℕ
  pub remote_addr : Bytes
  pub remote_port : ℕ
  pub offset : ℕ

pub record Search : Type 0 where
  pub hops : ℕ
  pub connections : List Connection

abbrev pub chunk_size : ℕ
chunk_size = 65536

abbrev pub max_hops : ℕ
max_hops = 500000

abbrev pub is_port : ℕ → Bool
is_port port = leb 1 port && leb port 65535

unfoldable pub candidate : ℕ → Bytes → ℕ → Connection
unfolding big_endian
candidate offset chunk win_off = record {
  local_addr = slice chunk (win_off + 0x4b8) (win_off + 0x4b8 + 4);
  local_port = big_endian (slice chunk (win_off + 0x4c0) (win_off + 0x4c0 + 2));
  remote_addr = slice chunk (win_off + 0x4b4) (win_off + 0x4b4 + 4);
  remote_port = big_endian (slice chunk (win_off + 0x4c2) (win_off + 0x4c2 + 2));
  offset = offset + win_off;
}

unfoldable pub is_socket : Connection → Bool
unfolding is_valid_ipv4_bytes
is_socket c =
    (is_valid_ipv4_bytes c.local_addr && is_valid_ipv4_bytes c.remote_addr)
    && (is_port c.local_port && is_port c.remote_port)

unfoldable pub add_connection : Connection → Search → Search
unfolding is_socket
add_connection c s =
    if is_socket c then record { hops = s.hops + 1; connections = s.connections ++ (c ∷ []) } else s

abbrev pub is_capped : Search → Bool
is_capped s = leb max_hops s.hops

-- The places of a chunk from `win_off` on, `left` of them.
unfoldable pub scan_sockets : ℕ → Bytes → ℕ → ℕ → Search → Search
unfolding candidate add_connection
scan_sockets offset chunk zero win_off s = s
scan_sockets offset chunk (suc left) win_off s =
    let rest =
      scan_sockets offset chunk left (win_off + 4)
        (add_connection (candidate offset chunk win_off) s) in
    if is_capped s then s else rest

unfoldable pub visit_chunk : ℕ → Bytes → Search → Search
unfolding scan_sockets
visit_chunk offset chunk s = scan_sockets offset chunk (range_count (length chunk - 0x4d0) 4) 0 s

unfoldable pub run : Bytes → List Connection
unfolding scan_chunks visit_chunk
run dump =
    (scan_chunks dump chunk_size is_capped visit_chunk (length dump + 1) 0
      (record { hops = 0; connections = [] })).connections
