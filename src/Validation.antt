-- ===== src/Validation.antt =====
-- utils/validation.py: `InputValidator`. The hash object of hashlib is a parameter: a state, what
-- `update` makes of it, and its digest.
pub mod Laws
pub mod Hashing
mod Tests
use vantacore_engine.Prelude.{
  Bool, Result, drop, if◌then◌else◌, length, ltb, not, ok, raise, suc, take, value_error, zero, ℕ,
  ◌+◌, ◌==◌,
}
use vantacore_engine.Bytes.{Bytes, slice, bytes_eq, unpack_from, elf_magic}

abbrev pub core_type : Result ℕ → Result (Unit {0})
core_type (raise e) = raise e
core_type (ok e_type) = if e_type == 4 then ok tt else raise value_error

unfoldable pub validate_elf_header : Bytes → Result (Unit {0})
unfolding bytes_eq unpack_from
validate_elf_header header =
    if ltb (length header) 20
    then raise value_error
    else if not (bytes_eq (slice header 0 4) elf_magic)
    then raise value_error
    else core_type (unpack_from 2 header 16)

unfoldable pub validate_phdr_bounds : ℕ → ℕ → ℕ → Result (Unit {0})
validate_phdr_bounds phdr_offset phdr_size file_size =
    if ltb file_size (phdr_offset + phdr_size) then raise value_error else ok tt

-- For an address that is not negative.
unfoldable pub validate_pointer : ℕ → ℕ → Bool
validate_pointer ptr_value file_size = ltb ptr_value file_size

module _ {State : Type 0} (update : State → Bytes → State) where
  -- The loop of `compute_sha256`, from a position of the file on.
  unfoldable pub hash_chunks : ℕ → ℕ → State → Bytes → State
  hash_chunks zero chunk_size hasher rest = hasher
  hash_chunks (suc fuel) chunk_size hasher rest =
      let chunk = take chunk_size rest in
      let further = hash_chunks fuel chunk_size (update hasher chunk) (drop chunk_size rest) in
      if length chunk == 0 then hasher else further

  -- A round reads a byte at least.
  unfoldable pub compute_sha256 : {Digest : Type 0} → State → (State → Digest) → ℕ → Bytes → Digest
  unfolding hash_chunks
  compute_sha256 sha256 hexdigest chunk_size file =
      hexdigest (hash_chunks (length file + 1) chunk_size sha256 file)
