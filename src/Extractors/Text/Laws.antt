-- ===== src/Extractors/Text/Laws.antt =====
-- extractors/cisco/: what is left of a text that is stripped.
use vantacore_engine.Prelude.{
  Bool, Bool-cases, List, [], ap, arith, drop, false, inl, inr, length, not, refl, some, subst, suc,
  sym, take, true, zero, ℕ, ◌&&◌, ◌<◌, ◌==◌, ◌||◌, ◌∙◌, ◌∷◌, ◌≡◌,
}
use vantacore_engine.Bytes.{Bytes, starts_with}
use vantacore_engine.Bytes.Laws.{bytes_eq_iff}
use vantacore_engine.Extractors.Keyed.{bytes_key, seen}
use vantacore_engine.Extractors.Text.{
  line_at, until, first_token, is_space, lstrip, rstrip, strip, take_while, if_any,
}
use vantacore_engine.Extractors.Patterns.Places.{StandsAt, take-within}

rstrip-take : (kind : ℕ → Bool) (s : Bytes) → take (length (rstrip kind s)) s ≡ rstrip kind s
unfolding rstrip
rstrip-take kind [] = refl
rstrip-take kind (c ∷ s) = elim (Bool-cases ((length (rstrip kind s) == 0) && kind c)) [
  | inl e ↦ rw e refl
  | inr e ↦ rw e (ap (λ t. c ∷ t) (rstrip-take kind s))
]

pub if_any-some : (bs text : Bytes) → if_any bs ≡ some text → (bs ≡ text) × (0 < length text)
if_any-some [] text h = ground (arith, h)
if_any-some (b ∷ bs) text h =
    let same : b ∷ bs ≡ text = ground (arith, h) in (same, omega (arith, ap length same))

take_while-take :
    (kind : ℕ → Bool) (bs : Bytes) → take (length (take_while kind bs)) bs ≡ take_while kind bs
unfolding take_while
take_while-take kind [] = refl
take_while-take kind (b ∷ bs) = elim (Bool-cases (kind b)) [
  | inl e ↦ rw e (ap (λ t. b ∷ t) (take_while-take kind bs))
  | inr e ↦ rw e refl
]

-- A text begins with something else than white space.
abbrev pub begins : Bytes → Bool
begins [] = false
begins (c ∷ cs) = not (is_space c)

pub lstrip-begins :
    (kind : ℕ → Bool) (bs pattern : Bytes) (k : ℕ)
    → starts_with bs pattern ≡ true
    → begins pattern ≡ true
    → lstrip is_space (take_while kind (take k bs)) ≡ take_while kind (take k bs)
unfolding starts_with take_while lstrip
lstrip-begins kind bs [] k h b = ground (arith, b)
lstrip-begins kind [] (c ∷ cs) k h b = ground (arith, h)
lstrip-begins kind (x ∷ bs) (c ∷ cs) zero h b = refl
lstrip-begins kind (x ∷ bs) (c ∷ cs) (suc k) h b =
    let same : x ≡ c = ground (arith, h) in
    let dark : is_space x ≡ false =
      subst (λ y. is_space y ≡ false) (sym same) (ground (arith, b)) in
    elim (Bool-cases (kind x)) [ inl e ↦ rw (e, dark) refl | inr e ↦ rw e refl ]

-- A text of no white space is not stripped.
pub lstrip-dark :
    (kind : ℕ → Bool) (dark : (c : ℕ) → kind c ≡ true → is_space c ≡ false) (bs : Bytes)
    → lstrip is_space (take_while kind bs) ≡ take_while kind bs
unfolding take_while lstrip
lstrip-dark kind dark [] = refl
lstrip-dark kind dark (b ∷ bs) = elim (Bool-cases (kind b)) [
  | inl e ↦ rw (e, dark b e) refl
  | inr e ↦ rw e refl
]

-- What is stripped of the run at an index stands there, if a text that begins so stands there or
-- nothing of it is white space.
pub strip-StandsAt :
    (kind : ℕ → Bool) (chunk : Bytes) (idx size : ℕ) (text : Bytes)
    → lstrip is_space (take_while kind (take size (drop idx chunk)))
      ≡ take_while kind (take size (drop idx chunk))
    → strip is_space (take_while kind (take size (drop idx chunk))) ≡ text
    → StandsAt chunk idx text
unfolding strip
strip-StandsAt kind chunk idx size text same stripped =
    let all = take_while kind (take size (drop idx chunk)) in
    let kept : rstrip is_space all ≡ text = ap (rstrip is_space) (sym same) ∙ stripped in
    let in_all : take (length text) all ≡ text =
      subst (λ t. take (length t) all ≡ t) kept (rstrip-take is_space all) in
    take-within text (drop idx chunk) size (
      take-within text (take size (drop idx chunk)) (length all)
        (ap (take (length text)) (take_while-take kind (take size (drop idx chunk))) ∙ in_all))

pub first_token-passes :
    (test : Bytes → Bool) (tokens : List Bytes) (token : Bytes)
    → first_token test tokens ≡ some token
    → test token ≡ true
unfolding first_token
first_token-passes test [] token h = ground (arith, h)
first_token-passes test (t ∷ ts) token h = elim (Bool-cases (test t)) [
  | inl e ↦ let same : t ≡ token = ground (arith, h, e) in subst (λ x. test x ≡ true) same e
  | inr e ↦ first_token-passes test ts token (ground (arith, h, e))
]

pub first_token-seen :
    (test : Bytes → Bool) (tokens : List Bytes) (token : Bytes)
    → first_token test tokens ≡ some token
    → seen token tokens ≡ true
unfolding first_token
first_token-seen test [] token h = ground (arith, h)
first_token-seen test (t ∷ ts) token h = elim (Bool-cases (test t)) [
  | inl e ↦
      let same : t ≡ token = ground (arith, h, e) in ground (arith, (bytes_eq_iff t token).1 same)
  | inr e ↦ ground (arith, first_token-seen test ts token (ground (arith, h, e)))
]

abbrev in_line : ℕ → Bool
in_line b = not ((b == 0) || (b == 10))

until-take_while : (bs : Bytes) → until 10 (until 0 bs) ≡ take_while in_line bs
unfolding until take_while
until-take_while [] = refl
until-take_while (b ∷ bs) = ground (arith, until-take_while bs)

-- The line at a place where a text stands that does not begin with white space.
pub line_at-StandsAt :
    (chunk pattern : Bytes) (idx size : ℕ)
    → starts_with (drop idx chunk) pattern ≡ true
    → begins pattern ≡ true
    → StandsAt chunk idx (line_at chunk idx size)
unfolding line_at
line_at-StandsAt chunk pattern idx size m b =
    strip-StandsAt in_line chunk idx size _
      (lstrip-begins in_line (drop idx chunk) pattern size m b)
      (ap (strip is_space) (sym (until-take_while (take size (drop idx chunk)))))
