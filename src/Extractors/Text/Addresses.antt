-- ===== src/Extractors/Text/Addresses.antt =====
-- extractors/cisco/: what a dotted address is, said without the code that tests for it.
use vantacore_engine.Prelude.{
  ==_iff, Bool, Bool-cases, List, Option, [], ap, arith, false, inl, inr, length, none, refl, some,
  sym, true, ℕ, ◌&&◌, ◌++◌, ◌<◌, ◌==◌, ◌∙◌, ◌∷◌, ◌≡◌, ◌≤◌, ◌⊎◌,
}
use vantacore_engine.Bytes.{Bytes}
use vantacore_engine.Extractors.Text.{all_octets, extend_word, int, is_dotted, is_within, split_on}

-- The text of a number up to a limit; a minus may stand before 0 only.
abbrev pub IsUpTo : ℕ → Bytes → Type 0
IsUpTo limit text =
    ((n : ℕ) × ((n ≤ limit) × (int text ≡ some (false, n)))) ⊎ (int text ≡ some (true, 0))

-- Four numbers up to 255 with dots between them.
abbrev pub IsAddress : Bytes → Type 0
IsAddress s =
    (a : Bytes) × (b : Bytes) × (c : Bytes) × (d : Bytes) × (s
      ≡ a ++ (b'.' ∷ (b ++ (b'.' ∷ (c ++ (b'.' ∷ d))))))
    × IsUpTo 255 a
    × IsUpTo 255 b
    × IsUpTo 255 c
    × IsUpTo 255 d

within-some :
    (limit : ℕ) (found : Option (Bool × ℕ))
    → is_within 0 limit found ≡ true
    → ((n : ℕ) × ((n ≤ limit) × (found ≡ some (false, n)))) ⊎ (found ≡ some (true, 0))
within-some limit none h = ground (arith, h)
within-some limit (some (false, n)) h = inl (n, (ground (arith, h), refl))
within-some limit (some (true, n)) h =
    let zero_only : n ≡ 0 = ground (arith, h) in inr (ap (λ k. some (true, k)) zero_only)

pub is_within-IsUpTo :
    (limit : ℕ) (text : Bytes) → is_within 0 limit (int text) ≡ true → IsUpTo limit text
is_within-IsUpTo limit text h = within-some limit (int text) h

join_dots : List Bytes → Bytes
join_dots [] = []
join_dots (w ∷ []) = w
join_dots (w ∷ v ∷ ws) = w ++ (b'.' ∷ join_dots (v ∷ ws))

join_dots-extend_word :
    (c : ℕ) (words : List Bytes)
    → 0 < length words
    → join_dots (extend_word c words) ≡ c ∷ join_dots words
unfolding join_dots
join_dots-extend_word c [] h = absurd (omega arith)
join_dots-extend_word c (w ∷ []) h = refl
join_dots-extend_word c (w ∷ v ∷ ws) h = refl

join_dots-nil :
    (words : List Bytes) → 0 < length words → join_dots ([] ∷ words) ≡ b'.' ∷ join_dots words
unfolding join_dots
join_dots-nil [] h = absurd (omega arith)
join_dots-nil (w ∷ ws) h = refl

pub split_on-some : (separator : ℕ) (s : Bytes) → 0 < length (split_on separator s)
unfolding split_on
split_on-some separator [] = omega arith
split_on-some separator (c ∷ s) = elim (Bool-cases (c == separator)) [
  | inl e ↦ rw e (omega arith)
  | inr e ↦ rw e (extended (split_on separator s))
]
  where
    extended : (words : List Bytes) → 0 < length (extend_word c words)
    extended [] = omega arith
    extended (w ∷ words) = omega arith

join_dots-split_on : (s : Bytes) → join_dots (split_on b'.' s) ≡ s
unfolding split_on
join_dots-split_on [] = unfold join_dots in refl
join_dots-split_on (c ∷ s) = elim (Bool-cases (c == b'.')) [
  | inl e ↦
      let same : b'.' ≡ c = ground (arith, e) in
      rw e (
        join_dots-nil (split_on b'.' s) (split_on-some b'.' s)
        ∙ ap (λ t. b'.' ∷ t) (join_dots-split_on s)
        ∙ ap (λ x. x ∷ s) same)
  | inr e ↦ rw e (
      join_dots-extend_word c (split_on b'.' s) (split_on-some b'.' s)
      ∙ ap (λ t. c ∷ t) (join_dots-split_on s))
]

pub both : (x y : Bool) → (x && y) ≡ true → (x ≡ true) × (y ≡ true)
both true y h = (refl, h)
both false y h = cc

too_many : (parts : List Bytes) → 4 < length parts → ¬ ((length parts == 4) ≡ true)
too_many parts more h =
    let four : length parts ≡ 4 = (==_iff (length parts) 4).0 h in absurd (omega (arith, four))

octets-cons :
    (p : Bytes) (ps : List Bytes)
    → all_octets (p ∷ ps) ≡ true
    → IsUpTo 255 p × (all_octets ps ≡ true)
unfolding all_octets
octets-cons p ps h =
    let (first, rest) = both (is_within 0 255 (int p)) (all_octets ps) h in
    (is_within-IsUpTo 255 p first, rest)

parts-IsAddress :
    (s : Bytes) (parts : List Bytes)
    → join_dots parts ≡ s
    → (length parts == 4) ≡ true
    → all_octets parts ≡ true
    → IsAddress s
unfolding join_dots
parts-IsAddress s [] e n h = cc
parts-IsAddress s (a ∷ []) e n h = cc
parts-IsAddress s (a ∷ b ∷ []) e n h = cc
parts-IsAddress s (a ∷ b ∷ c ∷ []) e n h = cc
parts-IsAddress s (a ∷ b ∷ c ∷ d ∷ []) e n h =
    let (of_a, rest) = octets-cons a (b ∷ c ∷ d ∷ []) h in
    let (of_b, rest') = octets-cons b (c ∷ d ∷ []) rest in
    let (of_c, rest'') = octets-cons c (d ∷ []) rest' in
    (a, b, c, d, sym e, of_a, of_b, of_c, (octets-cons d [] rest'').0)
parts-IsAddress s (a ∷ b ∷ c ∷ d ∷ f ∷ more) e n h =
    absurd (too_many (a ∷ b ∷ c ∷ d ∷ f ∷ more) (omega arith) n)

pub is_dotted-IsAddress : (s : Bytes) → is_dotted s ≡ true → IsAddress s
unfolding is_dotted
is_dotted-IsAddress s h =
    let parts = split_on b'.' s in
    let (four, octets) = both (length parts == 4) (all_octets parts) h in
    parts-IsAddress s parts (join_dots-split_on s) four octets
