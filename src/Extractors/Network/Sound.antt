-- ===== src/Extractors/Network/Sound.antt =====
-- extractors/linux/network.py: what is reported is in the dump.
use vantacore_engine.Prelude.{
  Bool-cases, List, [], ap, arith, false, inl, inr, leb, length, length-append, refl, suc, true,
  zero, ℕ, ◌*◌, ◌++◌, ◌+◌, ◌-◌, ◌<◌, ◌==◌, ◌||◌, ◌∙◌, ◌∷◌, ◌≡◌, ◌≤◌,
}
use vantacore_engine.Bytes.{Bytes, slice}
use vantacore_engine.Paging.{read_at}
use vantacore_engine.Extractors.Chunked.{range_count, scan_chunks, slice-chunk, length-chunk}
use vantacore_engine.Extractors.Network.{
  Connection, Search, big_endian, chunk_size, max_hops, candidate, is_socket, add_connection,
  is_capped, scan_sockets, visit_chunk, run,
}

module _ (dump : Bytes) where
  -- The socket structure at an offset of the dump, whole.
  abbrev pub IsAt : Connection → Type 0
  IsAt c =
      (c.offset + 0x4d0 < length dump)
      × (c.local_addr ≡ read_at dump (c.offset + 0x4b8) 4)
      × (c.remote_addr ≡ read_at dump (c.offset + 0x4b4) 4)
      × (c.local_port ≡ big_endian (read_at dump (c.offset + 0x4c0) 2))
      × (c.remote_port ≡ big_endian (read_at dump (c.offset + 0x4c2) 2))
      × (is_socket c ≡ true)

  abbrev pub AllAt : List Connection → Type 0
  AllAt [] = Unit {0}
  AllAt (c ∷ cs) = IsAt c × AllAt cs

  AllAt-append : (cs ds : List Connection) → AllAt cs → AllAt ds → AllAt (cs ++ ds)
  AllAt-append [] ds h k = k
  AllAt-append (c ∷ cs) ds h k = (h.0, AllAt-append cs ds h.1 k)

  -- What the search keeps; each hop is a connection.
  record IsFound (s : Search) : Type 0 where
    all_at : AllAt s.connections
    counted : length s.connections ≡ s.hops
    capped : s.hops ≤ max_hops

  candidate-IsAt :
      (offset win_off : ℕ)
      → win_off + 0x4d0 < length (read_at dump offset chunk_size)
      → is_socket (candidate offset (read_at dump offset chunk_size) win_off) ≡ true
      → IsAt (candidate offset (read_at dump offset chunk_size) win_off)
  unfolding candidate
  candidate-IsAt offset win_off h e =
      let size = length-chunk dump chunk_size offset in
      let part : (start n : ℕ)
          → win_off + start + n ≤ chunk_size
          → slice (read_at dump offset chunk_size) (win_off + start) (win_off + start + n)
            ≡ read_at dump (offset + win_off + start) n =
        λ start n fits.
          slice-chunk dump offset chunk_size (win_off + start) n fits
          ∙ place offset win_off start n in
      (
        omega arith,
        part 0x4b8 4 (omega arith),
        part 0x4b4 4 (omega arith),
        ap big_endian (part 0x4c0 2 (omega arith)),
        ap big_endian (part 0x4c2 2 (omega arith)),
        e,
      )
    where
      place : (a b start n : ℕ) → read_at dump (a + (b + start)) n ≡ read_at dump (a + b + start) n
      place a b start n =
          let e : a + (b + start) ≡ a + b + start = omega arith in ap (λ p. read_at dump p n) e

  add_connection-IsFound :
      (c : Connection) (s : Search)
      → (is_socket c ≡ true → IsAt c)
      → is_capped s ≡ false
      → IsFound s
      → IsFound (add_connection c s)
  unfolding add_connection
  add_connection-IsFound c s at room v = elim (Bool-cases (is_socket c)) [
    | inl e ↦
        let one = length-append s.connections (c ∷ []) in
        rw e (record {
          all_at = AllAt-append s.connections (c ∷ []) v.all_at (at e, tt);
          counted = omega arith;
          capped = ground arith;
        })
    | inr e ↦ rw e v
  ]

  scan_sockets-IsFound :
      (offset left win_off : ℕ) (s : Search)
      → win_off + 4 * left < length (read_at dump offset chunk_size) - 0x4d0 + 4
      → IsFound s
      → IsFound (scan_sockets offset (read_at dump offset chunk_size) left win_off s)
  unfolding scan_sockets
  scan_sockets-IsFound offset zero win_off s h v = v
  scan_sockets-IsFound offset (suc left) win_off s h v = elim (Bool-cases (is_capped s)) [
    | inl full ↦ rw (scan_sockets, full) v
    | inr room ↦
        let c = candidate offset (read_at dump offset chunk_size) win_off in
        rw (scan_sockets, room)
          (scan_sockets-IsFound offset left (win_off + 4) (add_connection c s) (omega arith)
            (add_connection-IsFound c s (candidate-IsAt offset win_off (omega arith)) room v))
  ]

  scan_chunks-IsFound :
      (fuel offset : ℕ) (s : Search)
      → IsFound s
      → IsFound (scan_chunks dump chunk_size is_capped visit_chunk fuel offset s)
  unfolding scan_chunks visit_chunk
  scan_chunks-IsFound zero offset s v = v
  scan_chunks-IsFound (suc fuel) offset s v =
      let chunk = read_at dump offset chunk_size in
      elim (Bool-cases (leb (length dump) offset || is_capped s)) [
        | inl done ↦ rw (scan_chunks, done) v
        | inr more ↦ elim (Bool-cases (length chunk == 0)) [
          | inl empty ↦ rw (scan_chunks, more, empty) v
          | inr filled ↦
              rw (scan_chunks, more, filled)
                (scan_chunks-IsFound fuel (offset + length chunk) (visit_chunk offset chunk s) (
                  scan_sockets-IsFound offset (range_count (length chunk - 0x4d0) 4) 0 s
                    (omega arith) v))
        ]
      ]

-- Every connection that is reported is read off a structure that lies in the dump as a whole, at
-- the reported offset: its addresses and ports are those of the dump there, both addresses are
-- possible and both ports are not 0. No more than 500,000 are reported.
pub run-AllAt : (dump : Bytes) → AllAt dump (run dump) × (length (run dump) ≤ 500000)
unfolding run
run-AllAt dump =
    let v =
      scan_chunks-IsFound dump (length dump + 1) 0 (record { hops = 0; connections = [] })
        (record { all_at = tt; counted = refl; capped = omega arith }) in
    (v.all_at, omega (arith, v))
