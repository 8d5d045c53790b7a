-- ===== src/Extractors/Modules/Fields.antt =====
-- extractors/linux/modules.py: the fields of a module, its name and the tests on them.
use vantacore_engine.Prelude.{
  Bool, List, Option, Result, [], false, if◌then◌else◌, leb, length, ltb, none, ok, raise, some,
  true, ℕ, ◌&&◌, ◌*◌, ◌+◌, ◌==◌, ◌||◌, ◌∷◌,
}
use vantacore_engine.Bytes.{Bytes, slice}
use vantacore_engine.Extractors.Keyed.{bytes_key, seen}
use vantacore_engine.Extractors.Text.{is_digit, until}
use vantacore_engine.Extractors.Process.{is_valid_kernel_va, unsigned}

abbrev pub is_letter : ℕ → Bool
is_letter c = (leb b'A' c && leb c b'Z') || ((leb b'a' c && leb c b'z') || (c == b'_'))

unfoldable pub all_word : Bytes → Bool
all_word [] = true
all_word (c ∷ s) = (is_letter c || is_digit c) && all_word s

-- `s.isidentifier()` of ASCII text, which is printable then.
unfoldable pub is_identifier : Bytes → Bool
unfolding all_word
is_identifier [] = false
is_identifier (c ∷ s) = is_letter c && all_word s

unfoldable pub clean_module_name : Bytes → Option Bytes
unfolding until is_identifier
clean_module_name name_bytes =
    let raw = until 0 name_bytes in
    if (length raw == 0) || ltb 55 (length raw)
    then none
    else if is_identifier raw
    then some raw
    else none

pub record Info : Type 0 where
  pub name : Bytes
  pub base : ℕ
  pub size : ℕ

pub data Source : Type 0 where
  list_walk carve : Source

pub record Module : Type 0 where
  pub info : Info
  pub source : Source

abbrev pub named_info : Bytes → Option Bytes → Option Info
named_info buf none = none
named_info buf (some name) =
    some (record { name = name; base = unsigned 8 buf 0x150; size = unsigned 4 buf 0x158 })

abbrev pub decode_module : Result Bytes → Option Info
decode_module (raise e) = none
decode_module (ok buf) =
    if ltb (length buf) (0x158 + 4)
    then none
    else named_info buf (clean_module_name (slice buf 0x18 (0x18 + 56)))

-- "ext4", "loop", "e1000", "e1000e", "overlay" and "fuse".
abbrev pub common_modules : List Bytes
common_modules =
    (b'e' ∷ b'x' ∷ b't' ∷ b'4' ∷ [])
    ∷ (b'l' ∷ b'o' ∷ b'o' ∷ b'p' ∷ [])
    ∷ (b'e' ∷ b'1' ∷ b'0' ∷ b'0' ∷ b'0' ∷ [])
    ∷ (b'e' ∷ b'1' ∷ b'0' ∷ b'0' ∷ b'0' ∷ b'e' ∷ [])
    ∷ (b'o' ∷ b'v' ∷ b'e' ∷ b'r' ∷ b'l' ∷ b'a' ∷ b'y' ∷ [])
    ∷ (b'f' ∷ b'u' ∷ b's' ∷ b'e' ∷ [])
    ∷ []

abbrev pub is_common : Option Info → Bool
is_common none = false
is_common (some i) = seen i.name common_modules

abbrev pub is_loaded : Info → Bool
is_loaded i = is_valid_kernel_va i.base && (leb 4096 i.size && leb i.size (256 * 1024 * 1024))
