-- ===== src/Bytes/Laws.antt =====
-- Bounds on unpacked numbers, and slices byte by byte.
use native.Mathlib.Nat.{pow-suc}
use vantacore_engine.Prelude.{
  [], ap, arith, drop, drop_all, length, length-take, min, ok, refl, replicate, suc, sym, take,
  take_all, true, zero, ℕ, ◌++◌, ◌+◌, ◌-◌, ◌<◌, ◌^◌, ◌↔◌, ◌∙◌, ◌∷◌, ◌≡◌, ◌≤◌,
}
use vantacore_engine.Bytes.{Bytes, IsBytes, bytes_eq, little_endian, unpack_from, slice}

pub IsBytes-take : (n : ℕ) (bs : Bytes) → IsBytes bs → IsBytes (take n bs)
IsBytes-take zero bs h = tt
IsBytes-take (suc n) [] h = tt
IsBytes-take (suc n) (b ∷ bs) h = (h.0, IsBytes-take n bs h.1)

pub IsBytes-drop : (n : ℕ) (bs : Bytes) → IsBytes bs → IsBytes (drop n bs)
IsBytes-drop zero bs h = h
IsBytes-drop (suc n) [] h = tt
IsBytes-drop (suc n) (b ∷ bs) h = IsBytes-drop n bs h.1

pub IsBytes-append : (bs cs : Bytes) → IsBytes bs → IsBytes cs → IsBytes (bs ++ cs)
IsBytes-append [] cs h k = k
IsBytes-append (b ∷ bs) cs h k = (h.0, IsBytes-append bs cs h.1 k)

pub IsBytes-zeros : (n : ℕ) → IsBytes (replicate n 0)
IsBytes-zeros zero = tt
IsBytes-zeros (suc n) = (omega arith, IsBytes-zeros n)

pub little_endian-lt :
    (n : ℕ) (bs : Bytes) → IsBytes bs → length bs ≤ n → little_endian bs < 256 ^ n
unfolding little_endian
little_endian-lt zero [] h k = omega arith
little_endian-lt zero (b ∷ bs) h k = absurd (omega arith)
little_endian-lt (suc n) [] h k =
    let p = little_endian-lt n [] tt (omega arith) in rw pow-suc (omega arith)
little_endian-lt (suc n) (b ∷ bs) h k =
    let p = little_endian-lt n bs h.1 (omega arith) in rw pow-suc (omega (arith, h.0))

-- A 64-bit field of a dump is below 2 ^ 64.
pub unpack_from-lt :
    (bs : Bytes) (offset : ℕ) {n : ℕ} → IsBytes bs → unpack_from 8 bs offset ≡ ok n → n < 2 ^ 64
unfolding unpack_from
unpack_from-lt bs offset h e = ground (
  arith,
  little_endian-lt 8 (slice bs offset (offset + 8))
      (IsBytes-take (offset + 8 - offset) (drop offset bs) (IsBytes-drop offset bs h)),
  length-take (offset + 8 - offset) (drop offset bs),
)

pub bytes_eq_iff : (bs cs : Bytes) → (bytes_eq bs cs ≡ true) ↔ (bs ≡ cs)
unfolding bytes_eq
bytes_eq_iff [] [] = ground arith
bytes_eq_iff [] (c ∷ cs) = ground arith
bytes_eq_iff (b ∷ bs) [] = ground arith
bytes_eq_iff (b ∷ bs) (c ∷ cs) = ground (arith, bytes_eq_iff bs cs)

pub drop-take :
    (p max_bytes : ℕ) (dump : Bytes)
    → drop p (take max_bytes dump) ≡ take (max_bytes - p) (drop p dump)
drop-take zero max_bytes dump = ap (λ n. take n dump) (omega arith)
drop-take (suc p) zero dump = let e : zero - suc p ≡ zero = omega arith in rw e refl
drop-take (suc p) (suc m) [] = sym (take_all (suc m - suc p) [] (omega arith))
drop-take (suc p) (suc m) (b ∷ dump) =
    drop-take p m dump ∙ ap (λ n. take n (drop p dump)) (omega arith)

pub take-take : (n m : ℕ) (bs : Bytes) → take n (take m bs) ≡ take (min n m) bs
take-take zero m bs = let e : min zero m ≡ zero = omega arith in rw e refl
take-take (suc n) zero bs = let e : min (suc n) zero ≡ zero = omega arith in rw e refl
take-take (suc n) (suc m) [] = sym (take_all (min (suc n) (suc m)) [] (omega arith))
take-take (suc n) (suc m) (b ∷ bs) =
    let e : min (suc n) (suc m) ≡ suc (min n m) = omega arith in
    rw e (ap (λ t. b ∷ t) (take-take n m bs))

pub drop-drop : (k p : ℕ) (bs : Bytes) → drop k (drop p bs) ≡ drop (p + k) bs
drop-drop k zero bs = ap (λ n. drop n bs) (omega arith)
drop-drop k (suc p) [] =
    let e : suc p + k ≡ suc (p + k) = omega arith in rw e (drop_all k [] (omega arith))
drop-drop k (suc p) (b ∷ bs) =
    let e : suc p + k ≡ suc (p + k) = omega arith in rw e (drop-drop k p bs)

pub length-zero : (bs : Bytes) → length bs ≡ 0 → bs ≡ []
length-zero [] h = refl
length-zero (b ∷ bs) h = absurd (omega arith)
