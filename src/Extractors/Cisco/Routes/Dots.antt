-- ===== src/Extractors/Cisco/Routes/Dots.antt =====
-- extractors/cisco/ios/routing_table.py: an address that is stripped has as many parts.
use vantacore_engine.Prelude.{
  Bool, Bool-cases, List, [], ap, arith, false, if◌then◌else◌, inl, inr, length, refl, subst, suc,
  sym, true, ℕ, ◌&&◌, ◌<◌, ◌==◌, ◌∙◌, ◌∷◌, ◌≡◌,
}
use vantacore_engine.Bytes.{Bytes}
use vantacore_engine.Bytes.Laws.{length-zero}
use vantacore_engine.Extractors.Text.{extend_word, lstrip, rstrip, split_on, strip}

-- The parts between dots are as many where characters other than dots are stripped.
split_on-some : (separator : ℕ) (s : Bytes) → 0 < length (split_on separator s)
unfolding split_on
split_on-some separator [] = omega arith
split_on-some separator (c ∷ s) = elim (Bool-cases (c == separator)) [
  | inl e ↦ rw e (omega arith)
  | inr e ↦ rw e (extended (split_on separator s))
]
  where
    extended : (words : List Bytes) → 0 < length (extend_word c words)
    extended [] = omega arith
    extended (w ∷ words) = omega arith

length-extend_word :
    (c : ℕ) (words : List Bytes) → 0 < length words → length (extend_word c words) ≡ length words
length-extend_word c [] h = absurd (omega arith)
length-extend_word c (w ∷ words) h = refl

split_on-step :
    (separator c : ℕ) (s : Bytes)
    → length (split_on separator (c ∷ s)) ≡ (
        if c == separator
        then suc (length (split_on separator s))
        else length (split_on separator s))
split_on-step separator c s = elim (Bool-cases (c == separator)) [
  | inl e ↦ unfold split_on in rw e refl
  | inr e ↦
      unfold split_on in
      rw e (length-extend_word c (split_on separator s) (split_on-some separator s))
]

module _ (kind : ℕ → Bool) (other : kind b'.' ≡ false) where
  kind_dot : (c : ℕ) → kind c ≡ true → (c == b'.') ≡ false
  kind_dot c h = elim (Bool-cases (c == b'.')) [
    | inl e ↦
        let same : c ≡ b'.' = ground (arith, e) in
        let both = subst (λ x. kind x ≡ true) same h in ground (arith, both, other)
    | inr e ↦ e
  ]

  split_on-lstrip : (s : Bytes) → length (split_on b'.' (lstrip kind s)) ≡ length (split_on b'.' s)
  unfolding lstrip
  split_on-lstrip [] = refl
  split_on-lstrip (c ∷ s) = elim (Bool-cases (kind c)) [
    | inl e ↦ rw (e, split_on-step b'.' c s, kind_dot c e) (split_on-lstrip s)
    | inr e ↦ rw e refl
  ]

  split_on-rstrip : (s : Bytes) → length (split_on b'.' (rstrip kind s)) ≡ length (split_on b'.' s)
  unfolding rstrip
  split_on-rstrip [] = refl
  split_on-rstrip (c ∷ s) = elim (Bool-cases ((length (rstrip kind s) == 0) && kind c)) [
    | inl e ↦
        let gone : rstrip kind s ≡ [] = length-zero (rstrip kind s) (ground (arith, e)) in
        let dark : kind c ≡ true = ground (arith, e) in
        rw (e, split_on-step b'.' c s, kind_dot c dark)
          (ap (λ t. length (split_on b'.' t)) (sym gone) ∙ split_on-rstrip s)
    | inr e ↦
        rw (e, split_on-step b'.' c s, split_on-step b'.' c (rstrip kind s), split_on-rstrip s) refl
  ]

  pub split_on-strip :
      (s : Bytes) → length (split_on b'.' (strip kind s)) ≡ length (split_on b'.' s)
  unfolding strip
  split_on-strip s = split_on-rstrip (lstrip kind s) ∙ split_on-lstrip s
