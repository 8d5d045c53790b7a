-- ===== src/Extractors/Cisco/Routes/Mask.antt =====
-- extractors/cisco/ios/routing_table.py: the length of a prefix from a mask.
use vantacore_engine.Prelude.{
  Bool-cases, List, Option-cases, [], ap, ap₂, arith, false, inl, inr, length, refl, replicate,
  some, subst, suc, sym, true, zero, ℕ, ◌*◌, ◌++◌, ◌-◌, ◌<◌, ◌==◌, ◌↔◌, ◌∙◌, ◌∷◌, ◌≡◌, ◌≤◌,
}
use vantacore_engine.Bytes.{Bytes}
use vantacore_engine.Extractors.Text.{int, is_dotted, split_on}
use vantacore_engine.Extractors.Cisco.Routes.Dots.{split_on-strip}
use vantacore_engine.Extractors.Cisco.Routes.Texts.{
  binary, binary_str, count_ones, has_zero_one, is_mark, is_valid_ip, mask_bits, mask_to_prefix_len,
  prefix_len,
}

-- A bit is 0 or 1.
abbrev AreBits : List ℕ → Type 0
AreBits [] = Unit {0}
AreBits (b ∷ bits) = (b < 2) × AreBits bits

abbrev pub mask_of : ℕ → ℕ → List ℕ
mask_of ones zeros = replicate ones 1 ++ replicate zeros 0

has_zero_one-mask : (n m : ℕ) → has_zero_one (mask_of n m) ≡ false
unfolding has_zero_one
has_zero_one-mask zero zero = refl
has_zero_one-mask zero (suc zero) = refl
has_zero_one-mask zero (suc (suc m)) = has_zero_one-mask zero (suc m)
has_zero_one-mask (suc zero) zero = refl
has_zero_one-mask (suc zero) (suc m) = has_zero_one-mask zero (suc m)
has_zero_one-mask (suc (suc n)) m = has_zero_one-mask (suc n) m

count_ones-one : (bits : List ℕ) → count_ones (1 ∷ bits) ≡ suc (count_ones bits)
unfolding count_ones
count_ones-one bits = omega arith

count_ones-zero : (bits : List ℕ) → count_ones (0 ∷ bits) ≡ count_ones bits
unfolding count_ones
count_ones-zero bits = omega arith

count_ones-mask : (n m : ℕ) → count_ones (mask_of n m) ≡ n
count_ones-mask zero zero = unfold count_ones in refl
count_ones-mask zero (suc m) = count_ones-zero (replicate m 0) ∙ count_ones-mask zero m
count_ones-mask (suc n) m = count_ones-one (mask_of n m) ∙ ap suc (count_ones-mask n m)

-- Behind a 0 without "01" there are only zeros.
zeros_behind :
    (bits : List ℕ)
    → AreBits bits
    → has_zero_one (0 ∷ bits) ≡ false
    → (0 ∷ bits ≡ replicate (suc (length bits)) 0) × (count_ones bits ≡ 0)
unfolding has_zero_one count_ones
zeros_behind [] h e = (refl, refl)
zeros_behind (b ∷ bits) h e =
    let dark : b ≡ 0 = ground (arith, h.0, e) in
    let rest =
      zeros_behind bits h.1
        (subst (λ c. has_zero_one (c ∷ bits) ≡ false) dark (ground (arith, e))) in
    (ap (λ t. 0 ∷ t) (ap (λ c. c ∷ bits) dark ∙ rest.0), ground (arith, dark, rest.1))

has_zero_one-tail :
    (b : ℕ) (bits : List ℕ) → has_zero_one (b ∷ bits) ≡ false → has_zero_one bits ≡ false
unfolding has_zero_one
has_zero_one-tail b [] e = refl
has_zero_one-tail b (c ∷ bits) e = ground (arith, e)

abbrev IsMask : List ℕ → Type 0
IsMask bits =
    (bits ≡ mask_of (count_ones bits) (length bits - count_ones bits))
    × (count_ones bits ≤ length bits)

IsMask-one : (bits : List ℕ) → IsMask bits → IsMask (1 ∷ bits)
IsMask-one bits (shape, few) = rw (count_ones-one bits) (
  ap (λ t. 1 ∷ t) (shape ∙ ap (mask_of (count_ones bits)) (omega (arith, few))),
  omega (arith, few),
)

IsMask-zero : (bits : List ℕ) → AreBits bits → has_zero_one (0 ∷ bits) ≡ false → IsMask (0 ∷ bits)
IsMask-zero bits h e =
    let (zeros, no_one) = zeros_behind bits h e in
    rw (count_ones-zero bits, no_one)
      (zeros ∙ ap (λ n. replicate n 0) {x = suc (length bits)} (omega arith), omega arith)

has_zero_one-IsMask : (bits : List ℕ) → AreBits bits → has_zero_one bits ≡ false → IsMask bits
has_zero_one-IsMask [] h e = unfold count_ones in (refl, omega arith)
has_zero_one-IsMask (b ∷ bits) h e = elim (Bool-cases (b == 1)) [
  | inl one ↦
      let same : 1 ≡ b = ground (arith, one) in
      subst (λ c. IsMask (c ∷ bits)) same
        (IsMask-one bits (has_zero_one-IsMask bits h.1 (has_zero_one-tail b bits e)))
  | inr dark ↦
      let same : 0 ≡ b = ground (arith, dark, h.0) in
      subst (λ c. IsMask (c ∷ bits)) same
        (IsMask-zero bits h.1 (subst (λ c. has_zero_one (c ∷ bits) ≡ false) (sym same) e))
]

binary-AreBits : (o : ℕ) (bits : List ℕ) → AreBits bits → AreBits (binary o ++ bits)
binary-AreBits o bits h = (
  omega arith,
  (
    omega arith,
    (omega arith, (omega arith, (omega arith, (omega arith, (omega arith, (omega arith, h)))))),
  ),
)

binary_str-AreBits :
    (octets : List Bytes) (bits : List ℕ)
    → binary_str octets ≡ some bits
    → AreBits bits × (length bits ≡ 8 * length octets)
unfolding binary_str
binary_str-AreBits [] bits e =
    let same : [] ≡ bits = ground (arith, e) in
    subst (λ t. AreBits t × (length t ≡ 0)) same (tt, refl)
binary_str-AreBits (o ∷ octets) bits e = elim (Option-cases (int o)) [
  | inl bad ↦ let h = rw bad at e in ground (arith, h)
  | inr (n, good) ↦ elim (Option-cases (binary_str octets)) [
    | inl bad ↦ let h = rw (good, bad) at e in ground (arith, h)
    | inr (more, rest) ↦
        let (are, size) = binary_str-AreBits octets more rest in
        let same : binary (n.1) ++ more ≡ bits = ground (arith, rw (good, rest) at e) in
        subst (λ t. AreBits t × (length t ≡ 8 * length (o ∷ octets))) same
          (binary-AreBits (n.1) more are, omega (arith, size))
  ]
]

four_octets : (mask_str : Bytes) → is_valid_ip mask_str ≡ true → length (split_on b'.' mask_str) ≡ 4
unfolding is_valid_ip is_dotted
four_octets mask_str h = let same = split_on-strip is_mark refl mask_str in ground (arith, h, same)

mask_bits-AreBits :
    (mask_str : Bytes) (bits : List ℕ)
    → mask_bits mask_str ≡ some bits
    → AreBits bits × (length bits ≡ 32)
unfolding mask_bits
mask_bits-AreBits mask_str bits e = elim (Bool-cases (is_valid_ip mask_str)) [
  | inl valid ↦
      let (are, size) = binary_str-AreBits (split_on b'.' mask_str) bits (rw valid at e) in
      (are, omega (arith, size, four_octets mask_str valid))
  | inr bad ↦ let h = rw bad at e in ground (arith, h)
]

prefix_len_iff :
    (bits : List ℕ) (n : ℕ)
    → AreBits bits
    → length bits ≡ 32
    → (prefix_len (some bits) ≡ some n) ↔ (n ≤ 32) × (bits ≡ mask_of n (32 - n))
prefix_len_iff bits n are size = elim (Bool-cases (has_zero_one bits)) [
  | inl bad ↦ (
    λ h. let g = rw bad at h in ground (arith, g),
    λ h.
        let clash = ap has_zero_one h.1 ∙ has_zero_one-mask n (32 - n) in
        ground (arith, bad, clash),
  )
  | inr good ↦
      let (shape, few) = has_zero_one-IsMask bits are good in
      (
        λ h.
            let same : count_ones bits ≡ n = ground (arith, rw good at h) in
            (
              omega (arith, few, same, size),
              shape ∙ ap₂ (λ (a b : ℕ). mask_of a b) same (omega (arith, same, size)),
            ),
        λ h. rw good (ap some (ap count_ones h.1 ∙ count_ones-mask n (32 - n))),
      )
]

-- A mask has a prefix length exactly if its 32 bits are ones and then zeros, and it is the number of
-- the ones; a text that is no valid mask has none.
pub mask_to_prefix_len_iff :
    (mask_str : Bytes) (n : ℕ)
    → (mask_to_prefix_len mask_str ≡ some n)
      ↔ (n ≤ 32) × (mask_bits mask_str ≡ some (mask_of n (32 - n)))
unfolding mask_to_prefix_len
mask_to_prefix_len_iff mask_str n = elim (Option-cases (mask_bits mask_str)) [
  | inl bad ↦ rw bad (λ h. ground (arith, h), λ h. let g = h.1 in ground (arith, g))
  | inr (bits, good) ↦
      let (are, size) = mask_bits-AreBits mask_str bits good in
      let (to, from) = prefix_len_iff bits n are size in
      rw good (
        λ h. (let (few, same) = to h in (few, ap some same)),
        λ h. from (h.0, (let g = h.1 in ground (arith, g))),
      )
]
