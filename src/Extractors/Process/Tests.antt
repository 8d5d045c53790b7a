-- ===== src/Extractors/Process/Tests.antt =====
-- extractors/linux/process.py on small buffers.
use vantacore_engine.Prelude.{
  Result, [], arith, mem, none, page_fault_error, raise, refl, replicate, some, ℕ, ◌++◌, ◌+◌, ◌∷◌,
  ◌≡◌, ◌≤◌, ◌⊎◌,
}
use vantacore_engine.Bytes.{Bytes, little_endian}
use vantacore_engine.Extractors.Process.{clean_comm, max_hops, walk_list}
use vantacore_engine.Extractors.Process.Carving.{start_at, run}
use vantacore_engine.Extractors.Process.Walking.{pids, AreDistinct, carved_pids}
use vantacore_engine.Extractors.Process.Tally.{anomalous_pids}
use vantacore_engine.Extractors.Process.Dkom.{walk_ends, run-dkom}

comms :
    (clean_comm (b's' ∷ b'h' ∷ 0 ∷ 9 ∷ []) ≡ some (b's' ∷ b'h' ∷ []))
    × (clean_comm (0 ∷ b's' ∷ []) ≡ none)
    × (clean_comm (b's' ∷ 7 ∷ []) ≡ none)
unfolding clean_comm
comms = (refl, refl, refl)

-- No page is mapped.
abbrev unmapped : ℕ → ℕ → Result Bytes
unmapped va count = raise page_fault_error

-- A structure with the process id 42, the state 1 and the name "sh" in a dump that it ends.
abbrev hidden_sh : Bytes
hidden_sh =
    1 ∷ replicate 0x557 0
    ++ (42 ∷ 0 ∷ 0 ∷ 0 ∷ 42 ∷ 0 ∷ 0 ∷ 0 ∷ replicate 0x118 0 ++ (b's' ∷ b'h' ∷ replicate 0x8f 0))

finds : anomalous_pids (run unmapped 0xffff800000000000 hidden_sh).dkom_anomalies ≡ 42 ∷ []
unfolding run little_endian
finds = refl

walk_ends_example :
    let w = walk_list unmapped (max_hops + 1) (start_at (some 0xffff800000000000)) in
    (walk_list unmapped 600000 (start_at (some 0xffff800000000000)) ≡ w)
    × ((w.queue ≡ []) ⊎ (max_hops ≤ w.hops))
walk_ends_example = walk_ends unmapped (some 0xffff800000000000) 600000 (omega arith)

run-dkom_example :
    let r = run unmapped 0xffff800000000000 hidden_sh in
    AreDistinct (pids r.processes)
    × ((n : ℕ) → mem n (anomalous_pids r.dkom_anomalies) ≡ mem n (carved_pids r.processes))
run-dkom_example = run-dkom unmapped 0xffff800000000000 hidden_sh
