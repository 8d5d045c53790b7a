-- ===== src/Bytes/Fields.antt =====
-- Fixed fields of a byte string, read through a prefix of it.
use vantacore_engine.Prelude.{
  [], ap, arith, false, get_or, length, ltb, ok, raise, refl, struct_error, suc, take,
  take-drop-suc, true, zero, ℕ, ◌&&◌, ◌*◌, ◌+◌, ◌-◌, ◌<◌, ◌==◌, ◌∷◌, ◌≡◌, ◌≤◌,
}
use vantacore_engine.Bytes.{Bytes, bytes_eq, starts_with, unpack_from}

pub get_or-take : (n : ℕ) (xs : Bytes) (i d : ℕ) → i < n → get_or (take n xs) i d ≡ get_or xs i d
get_or-take zero xs i d h = absurd (omega arith)
get_or-take (suc n) [] i d h = refl
get_or-take (suc n) (x ∷ xs) zero d h = refl
get_or-take (suc n) (x ∷ xs) (suc i) d h = get_or-take n xs i d (omega arith)

pub starts_with-take :
    (n : ℕ) (bs prefix : Bytes)
    → length prefix ≤ n
    → starts_with (take n bs) prefix ≡ starts_with bs prefix
unfolding starts_with
starts_with-take n bs [] h = refl
starts_with-take zero bs (c ∷ cs) h = absurd (omega arith)
starts_with-take (suc n) [] (c ∷ cs) h = refl
starts_with-take (suc n) (b ∷ bs) (c ∷ cs) h =
    ap (λ t. (b == c) && t) (starts_with-take n bs cs (omega arith))

pub bytes_eq-take :
    (bs prefix : Bytes) → bytes_eq (take (length prefix) bs) prefix ≡ starts_with bs prefix
unfolding starts_with bytes_eq
bytes_eq-take bs [] = refl
bytes_eq-take [] (c ∷ cs) = refl
bytes_eq-take (b ∷ bs) (c ∷ cs) = ap (λ t. (b == c) && t) (bytes_eq-take bs cs)

-- A 16-bit field is its low byte and 256 times its high byte.
pub unpack_u16 :
    (bs : Bytes) (i : ℕ)
    → i + 2 ≤ length bs
    → unpack_from 2 bs i ≡ ok (get_or bs i 0 + 256 * get_or bs (suc i) 0)
unfolding unpack_from
unpack_u16 bs i h =
    let inside : ltb (length bs) (i + 2) ≡ false = ground arith in
    let width : i + 2 - i ≡ 2 = omega arith in
    rw inside (
      rw width (
        rw (take-drop-suc bs i 1 0 (omega arith))
          (rw (take-drop-suc bs (suc i) 0 0 (omega arith)) (ap ok (omega arith)))))

-- A field beyond the end is an error.
pub unpack_from_short :
    (width : ℕ) (bs : Bytes) (i : ℕ)
    → length bs < i + width
    → unpack_from width bs i ≡ raise struct_error
unfolding unpack_from
unpack_from_short width bs i h =
    let e : ltb (length bs) (i + width) ≡ true = ground arith in rw e refl
