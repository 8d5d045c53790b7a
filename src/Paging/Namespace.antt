-- ===== src/Paging/Namespace.antt =====
-- core/backends/x86_64.py: the page table base that `read_virtual` takes from a namespace
-- identifier, by `int(namespace_id, 16)`. Identifiers are ASCII.
use vantacore_engine.Bytes.{Bytes, starts_with}
use vantacore_engine.Prelude.{
  Bool, Option, [], drop, if◌then◌else◌, leb, none, some, true, ℕ, ◌&&◌, ◌*◌, ◌+◌, ◌-◌, ◌==◌, ◌||◌,
  ◌∷◌,
}

-- The value of a hexadecimal digit.
abbrev hex_digit : ℕ → Option ℕ
hex_digit c =
    if leb b'0' c && leb c b'9'
    then some (c - b'0')
    else if leb b'a' c && leb c b'f'
    then some (c - b'a' + 10)
    else if leb b'A' c && leb c b'F'
    then some (c - b'A' + 10)
    else none

abbrev is_space : ℕ → Bool
is_space c = leb 9 c && leb c 13 || (c == 32)

all_space : Bytes → Bool
all_space [] = true
all_space (c ∷ cs) = is_space c && all_space cs

-- The digits after a digit: an underscore may stand between two digits, and only white space
-- behind the last one.
more_digits : ℕ → Bytes → Option ℕ
unfolding all_space
more_digits n [] = some n
more_digits n (c ∷ []) = elim (hex_digit c) [
  | some d ↦ some (n * 16 + d)
  | none ↦ if is_space c then some n else none
]
more_digits n (c ∷ c' ∷ cs) = elim (hex_digit c) [
  | some d ↦ more_digits (n * 16 + d) (c' ∷ cs)
  | none ↦
      if c == b'_'
      then elim (hex_digit c') [ some d ↦ more_digits (n * 16 + d) cs | none ↦ none ]
      else if all_space (c ∷ c' ∷ cs)
      then some n
      else none
]

-- After the prefix `0x`, which may be followed by an underscore.
parse_hex : Bytes → Option ℕ
unfolding more_digits
parse_hex [] = none
parse_hex (c ∷ cs) = elim (hex_digit c) [
  | some d ↦ more_digits d cs
  | none ↦
      if c == b'_'
      then elim cs [
        | [] ↦ none
        | c' ∷ cs' ↦ elim (hex_digit c') [ some d ↦ more_digits d cs' | none ↦ none ]
      ]
      else none
]

-- 0 for `GLOBAL_KERNEL` and whatever else is no hexadecimal number.
unfoldable pub cr3_of : Bytes → ℕ
unfolding starts_with parse_hex
cr3_of namespace_id =
    if starts_with namespace_id (b'0' ∷ b'x' ∷ [])
    then elim (parse_hex (drop 2 namespace_id)) [ some cr3 ↦ cr3 | none ↦ 0 ]
    else 0
