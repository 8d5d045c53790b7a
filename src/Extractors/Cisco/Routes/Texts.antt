-- ===== src/Extractors/Cisco/Routes/Texts.antt =====
-- extractors/cisco/ios/routing_table.py: the addresses, prefixes and masks in a line, and the words
-- that it looks for.
use vantacore_engine.Prelude.{
  Bool, List, Option, [], false, if◌then◌else◌, none, some, ℕ, ◌%◌, ◌&&◌, ◌++◌, ◌+◌, ◌/◌, ◌==◌,
  ◌||◌, ◌∷◌,
}
use vantacore_engine.Bytes.{Bytes}
use vantacore_engine.Extractors.Text.{int, is_dotted, is_within, split_on, strip}

-- The characters of "[],;()".
abbrev pub is_mark : ℕ → Bool
is_mark c =
    (c == b'[') || ((c == b']') || ((c == b',') || ((c == b';') || ((c == b'(') || (c == b')')))))

unfoldable pub is_valid_ip : Bytes → Bool
unfolding strip is_dotted
is_valid_ip s = is_dotted (strip is_mark s)

abbrev pub extend_first : ℕ → Option (Bytes × Bytes) → Option (Bytes × Bytes)
extend_first c none = none
extend_first c (some (ip_part, mask_part)) = some (c ∷ ip_part, mask_part)

-- `s.split("/", 1)` where there is a slash.
unfoldable pub split_slash : Bytes → Option (Bytes × Bytes)
split_slash [] = none
split_slash (c ∷ s) =
    let rest = split_slash s in if c == b'/' then some ([], s) else extend_first c rest

abbrev pub is_prefix_parts : Option (Bytes × Bytes) → Bool
is_prefix_parts none = false
is_prefix_parts (some (ip_part, mask_part)) = is_valid_ip ip_part && is_within 0 32 (int mask_part)

unfoldable pub is_valid_ipv4_prefix : Bytes → Bool
unfolding strip split_slash is_valid_ip int
is_valid_ipv4_prefix s = is_prefix_parts (split_slash (strip is_mark s))

-- `f"{o:08b}"` for an octet.
abbrev pub binary : ℕ → List ℕ
binary o =
    o / 128 % 2
    ∷ o / 64 % 2
    ∷ o / 32 % 2
    ∷ o / 16 % 2
    ∷ o / 8 % 2
    ∷ o / 4 % 2
    ∷ o / 2 % 2
    ∷ o % 2
    ∷ []

abbrev pub prepend_octet : Option (Bool × ℕ) → Option (List ℕ) → Option (List ℕ)
prepend_octet none rest = none
prepend_octet (some (minus, o)) none = none
prepend_octet (some (minus, o)) (some bits) = some (binary o ++ bits)

-- The octets, which are below 256 where the mask is a valid address, as one text of bits.
unfoldable pub binary_str : List Bytes → Option (List ℕ)
unfolding int
binary_str [] = some []
binary_str (o ∷ octets) = prepend_octet (int o) (binary_str octets)

-- `"01" in binary_str`
unfoldable pub has_zero_one : List ℕ → Bool
has_zero_one [] = false
has_zero_one (b ∷ []) = false
has_zero_one (b ∷ c ∷ bits) = let rest = has_zero_one (c ∷ bits) in ((b == 0) && (c == 1)) || rest

-- `binary_str.count("1")`
unfoldable pub count_ones : List ℕ → ℕ
count_ones [] = 0
count_ones (b ∷ bits) = (if b == 1 then 1 else 0) + count_ones bits

abbrev pub prefix_len : Option (List ℕ) → Option ℕ
prefix_len none = none
prefix_len (some bits) = if has_zero_one bits then none else some (count_ones bits)

unfoldable pub mask_bits : Bytes → Option (List ℕ)
unfolding is_valid_ip split_on binary_str
mask_bits mask_str = if is_valid_ip mask_str then binary_str (split_on b'.' mask_str) else none

unfoldable pub mask_to_prefix_len : Bytes → Option ℕ
unfolding mask_bits has_zero_one count_ones
mask_to_prefix_len mask_str = prefix_len (mask_bits mask_str)
