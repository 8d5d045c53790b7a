-- ===== src/Bytes/Find.antt =====
-- Occurrences of a pattern in a byte string.
use vantacore_engine.Prelude.{
  Bool, Option, [], ap, arith, drop, false, length, none, refl, some, suc, true, zero, ℕ, ◌&&◌,
  ◌++◌, ◌+◌, ◌<◌, ◌==◌, ◌||◌, ◌∷◌, ◌≡◌, ◌≤◌,
}
use vantacore_engine.Bytes.{Bytes, starts_with, find}

-- The pattern occurs somewhere: the reference for every search of the program.
unfoldable pub contains : Bytes → Bytes → Bool
contains [] pattern = starts_with [] pattern
contains (b ∷ bs) pattern = starts_with (b ∷ bs) pattern || contains bs pattern

abbrev pub is_found : Option ℕ → Bool
is_found none = false
is_found (some i) = true

pub is_found-find : (bs pattern : Bytes) → is_found (find bs pattern) ≡ contains bs pattern
unfolding find contains
is_found-find [] pattern = ground arith
is_found-find (b ∷ bs) pattern = ground (arith, is_found-find bs pattern)

starts_with-append :
    (ys zs pattern : Bytes)
    → length pattern ≤ length ys
    → starts_with (ys ++ zs) pattern ≡ starts_with ys pattern
unfolding starts_with
starts_with-append [] [] [] h = refl
starts_with-append [] (z ∷ zs) [] h = refl
starts_with-append (y ∷ ys) zs [] h = refl
starts_with-append [] zs (c ∷ cs) h = absurd (omega arith)
starts_with-append (y ∷ ys) zs (c ∷ cs) h =
    ap (λ t. (y == c) && t) (starts_with-append ys zs cs (omega arith))

starts_with-extend :
    (ys zs pattern : Bytes) → starts_with ys pattern ≡ true → starts_with (ys ++ zs) pattern ≡ true
unfolding starts_with
starts_with-extend [] [] pattern h = h
starts_with-extend [] (z ∷ zs) [] h = refl
starts_with-extend [] (z ∷ zs) (c ∷ cs) h = cc
starts_with-extend (y ∷ ys) zs [] h = refl
starts_with-extend (y ∷ ys) zs (c ∷ cs) h = ground (arith, starts_with-extend ys zs cs)

starts_with-contains :
    (bs pattern : Bytes) → starts_with bs pattern ≡ true → contains bs pattern ≡ true
unfolding contains
starts_with-contains [] pattern h = h
starts_with-contains (b ∷ bs) pattern h = rw h refl

pub contains-extend :
    (ys zs pattern : Bytes) → contains ys pattern ≡ true → contains (ys ++ zs) pattern ≡ true
unfolding contains
contains-extend [] zs pattern h =
    starts_with-contains zs pattern (starts_with-extend [] zs pattern h)
contains-extend (y ∷ ys) zs pattern h =
    ground (arith, contains-extend ys zs pattern, starts_with-extend (y ∷ ys) zs pattern)

-- Behind a part without the pattern only an occurrence across its end, or past it, is left: the
-- search may go on `length pattern - 1` bytes before the end of that part.
pub contains-skip :
    (k : ℕ) (ys zs pattern : Bytes)
    → contains ys pattern ≡ false
    → k + length pattern ≤ length ys + 1
    → 0 < length pattern
    → contains (ys ++ zs) pattern ≡ contains (drop k (ys ++ zs)) pattern
unfolding contains
contains-skip zero ys zs pattern h fits some_bytes = refl
contains-skip (suc k) [] zs pattern h fits some_bytes = absurd (omega arith)
contains-skip (suc k) (y ∷ ys) zs pattern h fits some_bytes =
    ground (arith, contains-skip k ys zs pattern, starts_with-append (y ∷ ys) zs pattern)
