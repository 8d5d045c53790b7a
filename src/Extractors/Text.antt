-- ===== src/Extractors/Text.antt =====
-- extractors/cisco/: what the scans of Python's `str` do with text that is decoded as latin-1, where
-- a character is its byte.
pub mod Laws
pub mod Addresses
use mathlib.Core.Option
use vantacore_engine.Prelude.{
  Bool, List, Option, [], drop, false, if◌then◌else◌, leb, length, map, none, some, take, true, ℕ,
  ◌&&◌, ◌*◌, ◌++◌, ◌+◌, ◌-◌, ◌==◌, ◌||◌, ◌∷◌,
}
use vantacore_engine.Bytes.{Bytes}

-- The characters below 256 that `str.isspace` holds of.
abbrev pub is_space : ℕ → Bool
is_space c = (leb 9 c && leb c 13) || ((leb 28 c && leb c 32) || ((c == 133) || (c == 160)))

-- `s.lstrip` and `s.rstrip` of the characters of a kind.
unfoldable pub lstrip : (ℕ → Bool) → Bytes → Bytes
lstrip kind [] = []
lstrip kind (c ∷ s) = let rest = lstrip kind s in if kind c then rest else c ∷ s

unfoldable pub rstrip : (ℕ → Bool) → Bytes → Bytes
rstrip kind [] = []
rstrip kind (c ∷ s) =
    let rest = rstrip kind s in if (length rest == 0) && kind c then [] else c ∷ rest

unfoldable pub strip : (ℕ → Bool) → Bytes → Bytes
unfolding lstrip rstrip
strip kind s = rstrip kind (lstrip kind s)

-- The bytes in front of the first that is not of a kind, as a loop `while ... end += 1` finds them.
unfoldable pub take_while : (ℕ → Bool) → Bytes → Bytes
take_while kind [] = []
take_while kind (b ∷ bs) = let rest = take_while kind bs in if kind b then b ∷ rest else []

-- `s.split(separator)[0]`
unfoldable pub until : ℕ → Bytes → Bytes
until separator [] = []
until separator (c ∷ s) = let rest = until separator s in if c == separator then [] else c ∷ rest

abbrev pub add_word : Bytes → List Bytes → List Bytes
add_word [] words = words
add_word (c ∷ s) words = (c ∷ s) ∷ words

-- `s.split()`, with the word that has begun.
unfoldable pub words_from : Bytes → Bytes → List Bytes
words_from word [] = add_word word []
words_from word (c ∷ s) =
    let rest = words_from (if is_space c then [] else word ++ (c ∷ [])) s in
    if is_space c then add_word word rest else rest

abbrev pub split_words : Bytes → List Bytes
split_words s = words_from [] s

-- `text.split("\x00")[0].split("\n")[0].strip()` of the bytes at an index.
unfoldable pub line_at : Bytes → ℕ → ℕ → Bytes
unfolding until strip
line_at chunk idx size = strip is_space (until 10 (until 0 (take size (drop idx chunk))))

abbrev pub extend_word : ℕ → List Bytes → List Bytes
extend_word c [] = (c ∷ []) ∷ []
extend_word c (word ∷ words) = (c ∷ word) ∷ words

-- `s.split(separator)`
unfoldable pub split_on : ℕ → Bytes → List Bytes
split_on separator [] = [] ∷ []
split_on separator (c ∷ s) =
    let rest = split_on separator s in if c == separator then [] ∷ rest else extend_word c rest

abbrev pub is_digit : ℕ → Bool
is_digit c = leb b'0' c && leb c b'9'

-- The digits of `int(s)`, with single underscores between them: the number so far, and whether the
-- character before was a digit.
unfoldable pub int_digits : ℕ → Bool → Bytes → Option ℕ
int_digits number after_digit [] = if after_digit then some number else none
int_digits number after_digit (c ∷ s) =
    let rest =
      int_digits (if is_digit c then 10 * number + (c - b'0') else number) (is_digit c) s in
    if is_digit c || ((c == b'_') && after_digit) then rest else none

-- The number of `int(s)` between the white space: whether there is a minus, and the number behind
-- it. None stands for ValueError.
unfoldable pub signed_digits : Bytes → Option (Bool × ℕ)
unfolding int_digits
signed_digits [] = none
signed_digits (c ∷ s) =
    let signed = int_digits 0 false s in
    let unsigned = int_digits 0 false (c ∷ s) in
    if c == b'-'
    then Option.map (λ n. (true, n)) signed
    else if c == b'+'
    then Option.map (λ n. (false, n)) signed
    else Option.map (λ n. (false, n)) unsigned

-- What `int` strips from an ASCII text: fewer characters than `str.strip`.
abbrev pub is_int_space : ℕ → Bool
is_int_space c = (leb 9 c && leb c 13) || (c == 32)

-- `int(s)` of an ASCII text.
unfoldable pub int : Bytes → Option (Bool × ℕ)
unfolding signed_digits strip
int s = signed_digits (strip is_int_space s)

-- `low <= int(s) <= high` where `int(s)` is not a ValueError, for a `low` that is not negative.
abbrev pub is_within : ℕ → ℕ → Option (Bool × ℕ) → Bool
is_within low high none = false
is_within low high (some (true, n)) = (low == 0) && (n == 0)
is_within low high (some (false, n)) = leb low n && leb n high

unfoldable pub all_octets : List Bytes → Bool
unfolding int
all_octets [] = true
all_octets (p ∷ ps) = is_within 0 255 (int p) && all_octets ps

-- Four parts between dots that are numbers below 256.
unfoldable pub is_dotted : Bytes → Bool
unfolding split_on all_octets
is_dotted s = let parts = split_on b'.' s in (length parts == 4) && all_octets parts

-- The first of the tokens that passes a test.
unfoldable pub first_token : (Bytes → Bool) → List Bytes → Option Bytes
first_token test [] = none
first_token test (token ∷ tokens) =
    let rest = first_token test tokens in if test token then some token else rest

-- `s if s else None`
abbrev pub if_any : Bytes → Option Bytes
if_any [] = none
if_any (b ∷ bs) = some (b ∷ bs)

-- The characters of ":,;()".
abbrev pub is_bracket : ℕ → Bool
is_bracket c = (c == b':') || ((c == b',') || ((c == b';') || ((c == b'(') || (c == b')'))))
