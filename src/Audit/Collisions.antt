-- ===== src/Audit/Collisions.antt =====
-- core/audit.py: two logs that hold as chains and end in one signature.
use vantacore_engine.Prelude.{
  Bool-cases, List, [], ap, ap₂, arith, false, inl, inr, length, length-append, refl, sym, true, ℕ,
  ◌++◌, ◌↔◌, ◌∙◌, ◌∷◌, ◌≡◌, ◌≢◌, ◌⊎◌,
}
use vantacore_engine.Bytes.{Bytes, bytes_eq}
use vantacore_engine.Prelude.Equality.{string_eq}

-- A line as it is checked: the text of what was signed, and the signature.
pub record Entry : Type 0 where
  pub payload_json : Bytes
  pub mac : Bytes

-- The signature that the next one covers.
abbrev pub latest : List Entry → Bytes
latest [] = []
latest (e ∷ es) = e.mac

bytes_eq_iff : (bs cs : Bytes) → (bytes_eq bs cs ≡ true) ↔ (bs ≡ cs)
unfolding bytes_eq
bytes_eq_iff [] [] = (λ h. refl, λ h. refl)
bytes_eq_iff [] (c ∷ cs) = (λ h. cc, λ h. cc)
bytes_eq_iff (b ∷ bs) [] = (λ h. cc, λ h. cc)
bytes_eq_iff (b ∷ bs) (c ∷ cs) = ground (arith, bytes_eq_iff bs cs)

differ : (bs cs : Bytes) → bytes_eq bs cs ≡ false → bs ≢ cs
differ bs cs other same = cc (other, (bytes_eq_iff bs cs).1 same)

append-cancel_front :
    (xs xs' ys ys' : Bytes)
    → length xs ≡ length xs'
    → xs ++ ys ≡ xs' ++ ys'
    → (xs ≡ xs') × (ys ≡ ys')
append-cancel_front [] [] ys ys' n e = (refl, e)
append-cancel_front [] (x' ∷ xs') ys ys' n e = absurd (omega arith)
append-cancel_front (x ∷ xs) [] ys ys' n e = absurd (omega arith)
append-cancel_front (x ∷ xs) (x' ∷ xs') ys ys' n e =
    let heads : x ≡ x' = cc in
    let tails : xs ++ ys ≡ xs' ++ ys' = cc in
    let (front, back) = append-cancel_front xs xs' ys ys' (omega arith) tails in
    (ap₂ (λ (b : ℕ) (bs : Bytes). b ∷ bs) heads front, back)

append-cancel :
    (xs xs' ys ys' : Bytes)
    → xs ++ ys ≡ xs' ++ ys'
    → length ys ≡ length ys'
    → (xs ≡ xs') × (ys ≡ ys')
append-cancel xs xs' ys ys' e n =
    append-cancel_front xs xs' ys ys'
      (omega (arith, ap length e, length-append xs ys, length-append xs' ys')) e

module _ (hmac : Bytes → Bytes → Bytes) (key : Bytes) where
  -- A log that somebody with the key accepts, the latest entry first.
  abbrev pub IsChain : List Entry → Type 0
  IsChain [] = Unit {0}
  IsChain (e ∷ es) = (e.mac ≡ hmac key (e.payload_json ++ latest es)) × IsChain es

  abbrev pub payloads : List Entry → List Bytes
  payloads [] = []
  payloads (e ∷ es) = e.payload_json ∷ payloads es

  -- At one place of two logs the signed messages are different and the signatures are the same.
  abbrev pub Collide : List Entry → List Entry → Type 0
  Collide [] fs = ⊥
  Collide (e ∷ es) [] = ⊥
  Collide (e ∷ es) (f ∷ fs) =
      ((e.payload_json ++ latest es ≢ f.payload_json ++ latest fs) × (e.mac ≡ f.mac))
      ⊎ Collide es fs

  module _ (digest_length : ℕ) (fixed : (m : Bytes) → length (hmac key m) ≡ digest_length) where
    length-latest :
        (es fs : List Entry)
        → IsChain es
        → IsChain fs
        → length es ≡ length fs
        → length (latest es) ≡ length (latest fs)
    length-latest [] [] c d n = refl
    length-latest [] (f ∷ fs) c d n = absurd (omega arith)
    length-latest (e ∷ es) [] c d n = absurd (omega arith)
    length-latest (e ∷ es) (f ∷ fs) c d n =
        ap length c.0
        ∙ fixed (e.payload_json ++ latest es)
        ∙ sym (ap length d.0 ∙ fixed (f.payload_json ++ latest fs))

    same_or_collision :
        (es fs : List Entry)
        → IsChain es
        → IsChain fs
        → length es ≡ length fs
        → latest es ≡ latest fs
        → (payloads es ≡ payloads fs) ⊎ Collide es fs
    same_or_collision [] [] c d n l = inl refl
    same_or_collision [] (f ∷ fs) c d n l = absurd (omega arith)
    same_or_collision (e ∷ es) [] c d n l = absurd (omega arith)
    same_or_collision (e ∷ es) (f ∷ fs) c d n l =
        let m = e.payload_json ++ latest es in
        let m' = f.payload_json ++ latest fs in
        elim (Bool-cases (bytes_eq m m')) [
          | inr other ↦ inr (inl ((λ same. differ m m' other same), l))
          | inl equal ↦
              let tails = length-latest es fs c.1 d.1 (omega arith) in
              let parts =
                append-cancel e.payload_json f.payload_json (latest es) (latest fs)
                  ((bytes_eq_iff m m').0 equal) tails in
              elim (same_or_collision es fs c.1 d.1 (omega arith) parts.1) [
                | inl rest ↦ inl (ap₂ (λ (p : Bytes) (ps : List Bytes). p ∷ ps) parts.0 rest)
                | inr deeper ↦ inr (inr deeper)
              ]
        ]

pub latest-determines_payloads :
    (hmac : Bytes → Bytes → Bytes) (key : Bytes) (digest_length : ℕ) (es fs : List Entry)
    → ((m : Bytes) → length (hmac key m) ≡ digest_length)
    → IsChain hmac key es
    → IsChain hmac key fs
    → length es ≡ length fs
    → latest es ≡ latest fs
    → (payloads hmac key es ≡ payloads hmac key fs) ⊎ Collide hmac key es fs
latest-determines_payloads hmac key digest_length es fs fixed c d n l =
    same_or_collision hmac key digest_length fixed es fs c d n l
