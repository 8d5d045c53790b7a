-- ===== src/Extractors/Keyed.antt =====
-- extractors/: the sets of keys that were seen, as lists, and what it means for reports.
use vantacore_engine.Prelude.{
  ==_iff, Bool, Bool-cases, List, [], ap, arith, false, if◌then◌else◌, inl, inr, length, refl, suc,
  true, ℕ, ◌&&◌, ◌++◌, ◌==◌, ◌||◌, ◌↔◌, ◌∷◌, ◌≡◌, ◌≤◌,
}
use vantacore_engine.Prelude.Equality.{Eq}
use vantacore_engine.Bytes.{Bytes, bytes_eq}
use vantacore_engine.Bytes.Laws.{bytes_eq_iff}

instance abbrev pub bytes_key : Eq Bytes
bytes_key = record { beq = bytes_eq; beq_iff = bytes_eq_iff }

pub pair_iff :
    {A B : Type 0} ⦃E : Eq A⦄ ⦃F : Eq B⦄ (p q : A × B)
    → ((E.beq p.0 q.0 && F.beq p.1 q.1) ≡ true) ↔ (p ≡ q)
pair_iff ⦃E⦄ ⦃F⦄ (a, b) (c, d) = ground (arith, E.beq_iff a c, F.beq_iff b d)

instance abbrev pub pair_key : {A B : Type 0} ⦃E : Eq A⦄ ⦃F : Eq B⦄ → Eq (A × B)
pair_key ⦃E⦄ ⦃F⦄ = record { beq = λ p q. E.beq p.0 q.0 && F.beq p.1 q.1; beq_iff = pair_iff }

instance abbrev pub number_key : Eq ℕ
number_key = record { beq = λ m n. m == n; beq_iff = ==_iff }

module _ {K : Type 0} ⦃E : Eq K⦄ where
  -- `key in seen`
  abbrev pub seen : K → List K → Bool
  seen k [] = false
  seen k (x ∷ xs) = E.beq x k || seen k xs

  -- No key comes twice.
  abbrev pub Distinct : List K → Type 0
  Distinct [] = Unit {0}
  Distinct (x ∷ xs) = (seen x xs ≡ false) × Distinct xs

  beq-sym : (a b : K) → E.beq a b ≡ E.beq b a
  beq-sym a b = ground (arith, E.beq_iff a b, E.beq_iff b a)

  pub seen-append : (k x : K) (xs : List K) → seen k (xs ++ (x ∷ [])) ≡ (seen k xs || E.beq x k)
  seen-append k x [] = ground arith
  seen-append k x (y ∷ ys) = ground (arith, seen-append k x ys)

  pub Distinct-append_new :
      (xs : List K) (x : K) → seen x xs ≡ false → Distinct xs → Distinct (xs ++ (x ∷ []))
  Distinct-append_new [] x h d = (refl, tt)
  Distinct-append_new (y ∷ ys) x h d = (
    ground (arith, seen-append y x ys, beq-sym y x, h, d.0),
    Distinct-append_new ys x (ground (arith, h)) d.1,
  )

  -- All keys are among others.
  abbrev pub AllIn : List K → List K → Type 0
  AllIn [] ys = Unit {0}
  AllIn (x ∷ xs) ys = (seen x ys ≡ true) × AllIn xs ys

  pub AllIn-append :
      (xs ys : List K) (x : K) → AllIn xs ys → seen x ys ≡ true → AllIn (xs ++ (x ∷ [])) ys
  AllIn-append [] ys x h k = (k, tt)
  AllIn-append (y ∷ xs) ys x h k = (h.0, AllIn-append xs ys x h.1 k)

  remove : K → List K → List K
  remove k [] = []
  remove k (x ∷ xs) = let rest = remove k xs in if E.beq x k then xs else x ∷ rest

  length-remove : (k : K) (xs : List K) → seen k xs ≡ true → suc (length (remove k xs)) ≡ length xs
  unfolding remove
  length-remove k [] h = ground (arith, h)
  length-remove k (x ∷ xs) h = elim (Bool-cases (E.beq x k)) [
    | inl e ↦ rw e refl
    | inr e ↦ rw e (ap suc (length-remove k xs (rw e at h)))
  ]

  seen-remove :
      (k n : K) (xs : List K) → seen n xs ≡ true → E.beq k n ≡ false → seen n (remove k xs) ≡ true
  unfolding remove
  seen-remove k n [] h ne = h
  seen-remove k n (x ∷ xs) h ne = elim (Bool-cases (E.beq x k)) [
    | inl e ↦ ground (arith, h, ne, e, E.beq_iff x k, E.beq_iff x n, E.beq_iff k n)
    | inr e ↦ rw e (ground (arith, h, seen-remove k n xs, ne))
  ]

  AllIn-remove : (k : K) (xs ys : List K) → seen k xs ≡ false → AllIn xs ys → AllIn xs (remove k ys)
  AllIn-remove k [] ys h a = tt
  AllIn-remove k (x ∷ xs) ys h a = (
    seen-remove k x ys a.0 (ground (arith, h, beq-sym x k)),
    AllIn-remove k xs ys (ground (arith, h)) a.1,
  )

  -- Distinct keys among others are no more than these.
  pub length-Distinct : (xs ys : List K) → Distinct xs → AllIn xs ys → length xs ≤ length ys
  length-Distinct [] ys d a = omega arith
  length-Distinct (x ∷ xs) ys d a = omega (
    arith,
    length-remove x ys a.0,
    length-Distinct xs (remove x ys) d.1 (AllIn-remove x xs ys d.0 a.1),
  )
