-- ===== src/Extractors/Network/Tests.antt =====
-- extractors/linux/network.py on a dump of one structure.
use vantacore_engine.Prelude.{[], false, length, refl, replicate, true, ◌++◌, ◌∷◌, ◌≡◌, ◌≤◌}
use vantacore_engine.Bytes.{Bytes}
use vantacore_engine.Extractors.Network.{is_valid_ipv4_bytes, run}
use vantacore_engine.Extractors.Network.Sound.{AllAt, run-AllAt}

abbrev one_socket : Bytes
one_socket =
    replicate 0x4b4 0
    ++ (8 ∷ 8 ∷ 8 ∷ 8 ∷ 10 ∷ 0 ∷ 0 ∷ 1 ∷ 0 ∷ 0 ∷ 0 ∷ 0 ∷ 0 ∷ 80 ∷ 1 ∷ 187 ∷ replicate 16 0)

finds :
    run one_socket
    ≡ (record {
      local_addr = 10 ∷ 0 ∷ 0 ∷ 1 ∷ [];
      local_port = 80;
      remote_addr = 8 ∷ 8 ∷ 8 ∷ 8 ∷ [];
      remote_port = 443;
      offset = 0;
    })
      ∷ []
unfolding run
finds = refl

addresses :
    (is_valid_ipv4_bytes (0 ∷ 1 ∷ 2 ∷ 3 ∷ []) ≡ false)
    × (is_valid_ipv4_bytes (10 ∷ 0 ∷ 0 ∷ []) ≡ false)
    × (is_valid_ipv4_bytes (127 ∷ 0 ∷ 0 ∷ 1 ∷ []) ≡ true)
unfolding is_valid_ipv4_bytes
addresses = (refl, refl, refl)

run-AllAt_example : AllAt one_socket (run one_socket) × (length (run one_socket) ≤ 500000)
run-AllAt_example = run-AllAt one_socket
