-- ===== src/Validation/Hashing.antt =====
-- utils/validation.py: hashing a file piece by piece.
use vantacore_engine.Prelude.{
  Bool-cases, [], ap, arith, drop, inl, inr, length, length-drop, length-take, suc, sym, take,
  take-append-drop, zero, ℕ, ◌++◌, ◌+◌, ◌<◌, ◌==◌, ◌∙◌, ◌≡◌,
}
use vantacore_engine.Bytes.{Bytes}
use vantacore_engine.Bytes.Laws.{length-zero}
use vantacore_engine.Validation.{hash_chunks, compute_sha256}

module _ {State : Type 0} (update : State → Bytes → State)
    (update-append : (s : State) (bs cs : Bytes) → update (update s bs) cs ≡ update s (bs ++ cs))
    (update-nil : (s : State) → update s [] ≡ s) where
  hash_chunks_lem :
      (fuel chunk_size : ℕ) (hasher : State) (rest : Bytes)
      → 0 < chunk_size
      → length rest < fuel
      → hash_chunks update fuel chunk_size hasher rest ≡ update hasher rest
  unfolding hash_chunks
  hash_chunks_lem zero chunk_size hasher rest some_bytes enough = absurd (omega arith)
  hash_chunks_lem (suc fuel) chunk_size hasher rest some_bytes enough =
      let size = length-take chunk_size rest in
      elim (Bool-cases (length (take chunk_size rest) == 0)) [
        | inl done ↦
            let nothing : rest ≡ [] = length-zero rest (ground arith) in
            rw done (sym (ap (update hasher) nothing ∙ update-nil hasher))
        | inr more ↦
            let left = length-drop chunk_size rest in
            rw more (
              hash_chunks_lem fuel chunk_size (update hasher (take chunk_size rest))
                (drop chunk_size rest) some_bytes (ground arith)
              ∙ update-append hasher (take chunk_size rest) (drop chunk_size rest)
              ∙ ap (update hasher) (take-append-drop chunk_size rest))
      ]

-- The file is read to its end, in chunks of any size but zero, and the digest is that of all its
-- bytes at once; of `update` it is used that two pieces count as one, and the empty one as none.
pub compute_sha256-eq_whole :
    {State Digest : Type 0} (update : State → Bytes → State) (sha256 : State)
    (hexdigest : State → Digest) (chunk_size : ℕ) (file : Bytes)
    → ((s : State) (bs cs : Bytes) → update (update s bs) cs ≡ update s (bs ++ cs))
    → ((s : State) → update s [] ≡ s)
    → 0 < chunk_size
    → compute_sha256 update sha256 hexdigest chunk_size file ≡ hexdigest (update sha256 file)
unfolding compute_sha256
compute_sha256-eq_whole update sha256 hexdigest chunk_size file pieces empty some_bytes =
    ap hexdigest (
      hash_chunks_lem update pieces empty (length file + 1) chunk_size sha256 file some_bytes
        (omega arith))
