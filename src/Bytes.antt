-- ===== src/Bytes.antt =====
-- Byte strings, and the operations of Python on them that the program uses: slices, `startswith`,
-- `find` and `struct.unpack_from`. A byte is a number below 256.
pub mod Laws
pub mod Fields
pub mod Find
use vantacore_engine.Prelude.{
  Bool, List, Option, Result, [], drop, false, if◌then◌else◌, length, ltb, none, ok, raise, some,
  struct_error, suc, take, true, ℕ, ◌&&◌, ◌*◌, ◌+◌, ◌-◌, ◌<◌, ◌==◌, ◌∷◌,
}

abbrev pub Bytes : Type 0
Bytes = List ℕ

abbrev pub IsBytes : Bytes → Type 0
IsBytes [] = Unit {0}
IsBytes (b ∷ bs) = (b < 256) × IsBytes bs

-- `bs[start:stop]`
abbrev pub slice : Bytes → ℕ → ℕ → Bytes
slice bs start stop = take (stop - start) (drop start bs)

-- `bs == cs`
unfoldable pub bytes_eq : Bytes → Bytes → Bool
bytes_eq [] [] = true
bytes_eq (b ∷ bs) (c ∷ cs) = (b == c) && bytes_eq bs cs
bytes_eq _ _ = false

-- `bs.startswith(prefix)`
unfoldable pub starts_with : Bytes → Bytes → Bool
starts_with bs [] = true
starts_with [] (c ∷ cs) = false
starts_with (b ∷ bs) (c ∷ cs) = (b == c) && starts_with bs cs

-- `bs.find(pattern)`; none is -1.
unfoldable pub find : Bytes → Bytes → Option ℕ
unfolding starts_with
find [] pattern = if starts_with [] pattern then some 0 else none
find (b ∷ bs) pattern =
    let rest = find bs pattern in
    if starts_with (b ∷ bs) pattern
    then some 0
    else elim rest [ none ↦ none | some i ↦ some (suc i) ]

-- `bs.find(pattern, start)` for a start inside the string.
unfoldable pub find_from : Bytes → Bytes → ℕ → Option ℕ
unfolding find
find_from bs pattern start = elim (find (drop start bs) pattern) [
  | none ↦ none
  | some i ↦ some (start + i)
]

-- The number that little-endian bytes stand for.
unfoldable pub little_endian : Bytes → ℕ
little_endian [] = 0
little_endian (b ∷ bs) = b + 256 * little_endian bs

-- `struct.unpack_from` of an unsigned number of `width` bytes: 2 for "<H", 4 for "<I", 8 for "<Q".
unfoldable pub unpack_from : ℕ → Bytes → ℕ → Result ℕ
unfolding little_endian
unpack_from width bs offset =
    if ltb (length bs) (offset + width)
    then raise struct_error
    else ok (little_endian (slice bs offset (offset + width)))

abbrev pub elf_magic : Bytes
elf_magic = 0x7f ∷ b'E' ∷ b'L' ∷ b'F' ∷ []
