-- ===== src/Prelude/Counts.antt =====
-- Lists of numbers by how often each number occurs.
use vantacore_engine.Prelude.Tests.{◌==◌, ==_iff, if◌then◌else◌, Bool-cases}
use vantacore_engine.Prelude.Lists.{length}
use Prim.Native.Nat.{ℕ, ◌+◌, ◌≤◌, ◌<◌}
use mathlib.Core.Path.{◌≡◌, ap}
use mathlib.Core.Logic.{inl, inr, ◌↔◌}
use mathlib.Core.Bool.{Bool, true, false, ◌||◌}
use mathlib.Core.List.{List, [], ◌∷◌, ◌++◌}
use native.Mathlib.Omega.{arith}
use native.Mathlib.Decide.{dec_lt}

-- `n in xs`
abbrev pub mem : ℕ → List ℕ → Bool
mem n [] = false
mem n (x ∷ xs) = (x == n) || mem n xs

abbrev pub occurrences : ℕ → List ℕ → ℕ
occurrences n [] = 0
occurrences n (x ∷ xs) = (if x == n then 1 else 0) + occurrences n xs

pub occurrences-append :
    (n : ℕ) (xs ys : List ℕ) → occurrences n (xs ++ ys) ≡ occurrences n xs + occurrences n ys
occurrences-append n [] ys = omega arith
occurrences-append n (x ∷ xs) ys = omega (arith, occurrences-append n xs ys)

pub mem_iff : (n : ℕ) (xs : List ℕ) → (mem n xs ≡ true) ↔ (0 < occurrences n xs)
mem_iff n [] = ground arith
mem_iff n (x ∷ xs) = ground (arith, mem_iff n xs)

pub mem-append_one : (xs : List ℕ) (y n : ℕ) → mem n (xs ++ (y ∷ [])) ≡ (mem n xs || (y == n))
mem-append_one [] y n = ground arith
mem-append_one (x ∷ xs) y n = ground (arith, mem-append_one xs y n)

-- A list without repetition stays so with an element that is not in it.
pub occurrences-append_new :
    (xs : List ℕ) (x n : ℕ)
    → mem x xs ≡ false
    → occurrences n xs ≤ 1
    → occurrences n (xs ++ (x ∷ [])) ≤ 1
occurrences-append_new xs x n h k = elim (Bool-cases (x == n)) [
  | inl e ↦
      let same = (==_iff x n).0 e in
      ground
        (arith, occurrences-append n xs (x ∷ []), mem_iff x xs, ap (λ m. occurrences m xs) same)
  | inr e ↦ ground (arith, occurrences-append n xs (x ∷ []))
]

pub occurrences-le-length : (n : ℕ) (xs : List ℕ) → occurrences n xs ≤ length xs
occurrences-le-length n [] = omega arith
occurrences-le-length n (x ∷ xs) = ground (arith, occurrences-le-length n xs)

-- The list without the first `n`.
abbrev erase : ℕ → List ℕ → List ℕ
erase n [] = []
erase n (x ∷ xs) = let rest = erase n xs in if x == n then xs else x ∷ rest

occurrences-erase :
    (m n : ℕ) (xs : List ℕ)
    → 0 < occurrences n xs
    → occurrences m (erase n xs) + (if n == m then 1 else 0) ≡ occurrences m xs
occurrences-erase m n [] h = absurd (omega arith)
occurrences-erase m n (x ∷ xs) h = elim (Bool-cases (x == n)) [
  | inl e ↦ ground arith
  | inr e ↦ ground (arith, occurrences-erase m n xs)
]

length-erase : (n : ℕ) (xs : List ℕ) → 0 < occurrences n xs → length (erase n xs) + 1 ≡ length xs
length-erase n [] h = absurd (omega arith)
length-erase n (x ∷ xs) h = elim (Bool-cases (x == n)) [
  | inl e ↦ ground arith
  | inr e ↦ ground (arith, length-erase n xs)
]

-- A list that has each number at most as often is no longer.
pub length_le_of_occurrences :
    (xs ys : List ℕ) → ((n : ℕ) → occurrences n xs ≤ occurrences n ys) → length xs ≤ length ys
length_le_of_occurrences [] ys h = omega arith
length_le_of_occurrences (x ∷ xs) ys h =
    let here : 0 < occurrences x ys = ground (arith, h x) in
    let rest =
      length_le_of_occurrences xs (erase x ys)
        (λ n. ground (arith, h n, occurrences-erase n x ys here)) in
    omega (arith, length-erase x ys here)

-- If it is as long, it has each number as often.
pub occurrences_eq_of_length :
    (xs ys : List ℕ)
    → ((n : ℕ) → occurrences n xs ≤ occurrences n ys)
    → length ys ≤ length xs
    → (n : ℕ) → occurrences n xs ≡ occurrences n ys
occurrences_eq_of_length xs ys h long n = elim (dec_lt (occurrences n xs) (occurrences n ys)) [
  | no same ↦ omega (arith, h n)
  | yes fewer ↦ absurd (omega (arith, length_le_of_occurrences (n ∷ xs) ys (one_more fewer)))
]
  where
    one_more :
        occurrences n xs < occurrences n ys → (m : ℕ) → occurrences m (n ∷ xs) ≤ occurrences m ys
    one_more fewer m = elim (Bool-cases (n == m)) [
      | inl e ↦
          let same = (==_iff n m).0 e in
          ground (arith, ap (λ k. occurrences k xs) same, ap (λ k. occurrences k ys) same, h m)
      | inr e ↦ ground (arith, h m)
    ]
