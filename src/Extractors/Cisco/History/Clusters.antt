-- ===== src/Extractors/Cisco/History/Clusters.antt =====
-- extractors/cisco/common/cli_history.py: the clusters of an ordered list of matches.
use mathlib.Core.List.{map-append, append_assoc}
use vantacore_engine.Prelude.{
  Bool-cases, List, [], ap, arith, false, inl, inr, leb, length, length-append, ltb, map, refl,
  subst, suc, sym, true, ℕ, ◌&&◌, ◌++◌, ◌-◌, ◌<◌, ◌∙◌, ◌∷◌, ◌≡◌, ◌≤◌, ◌⊎◌,
}
use vantacore_engine.Bytes.{Bytes}
use vantacore_engine.Extractors.Cisco.History.{Match, cluster, cluster_from}

abbrev pub concat {ℓ} : {A : Type ℓ} → List (List A) → List A
concat [] = []
concat (xs ∷ xss) = xs ++ concat xss

abbrev pub commands : List Match → List Bytes
commands ms = map (λ m. m.1) ms

-- The matches follow each other within 512 bytes, and the last one is at the offset.
abbrev pub IsClose : List Match → ℕ → Type 0
IsClose [] last = ⊥
IsClose (m ∷ []) last = m.0 ≡ last
IsClose (m ∷ n ∷ ms) last = (n.0 - m.0 ≤ 512) × IsClose (n ∷ ms) last

IsClose-append :
    (g : List Match) (last : ℕ) (m : Match)
    → IsClose g last
    → m.0 - last ≤ 512
    → IsClose (g ++ (m ∷ [])) m.0
IsClose-append [] last m h k = absurd h
IsClose-append (n ∷ []) last m h k = (rw h k, refl)
IsClose-append (n ∷ o ∷ g) last m h k = (h.0, IsClose-append (o ∷ g) last m h.1 k)

-- The groups are close and have 256 matches at most, and the next one begins where the gap is
-- greater or the group is full.
abbrev pub IsNext : List Match → ℕ → List (List Match) → Type 0
IsNext g last [] = Unit {0}
IsNext g last ([] ∷ gs) = ⊥
IsNext g last ((m ∷ ms) ∷ gs) = (512 < m.0 - last) ⊎ (length g ≡ 256)

abbrev pub AreGroups : List (List Match) → Type 0
AreGroups [] = Unit {0}
AreGroups (g ∷ gs) =
    ((last : ℕ) × (IsClose g last × ((length g ≤ 256) × IsNext g last gs))) × AreGroups gs

-- The clusters are the commands of groups that together are the matches in their order.
abbrev pub IsClustered : List Match → List (List Bytes) → Type 0
IsClustered ms clusters =
    (gs : List (List Match)) × ((clusters ≡ map commands gs) × ((concat gs ≡ ms) × AreGroups gs))

-- What the loop answers with an open group that begins with `first`.
Continued : Match → List Match → ℕ → List Match → Type 0
Continued first g last ms =
    (more : List Match) × (gs : List (List Match)) × (cluster_from (commands (first ∷ g)) last ms
      ≡ map commands ((first ∷ more) ∷ gs))
    × (concat ((first ∷ more) ∷ gs) ≡ (first ∷ g) ++ ms)
    × AreGroups ((first ∷ more) ∷ gs)

next_group :
    (size last : ℕ) (m : Match)
    → size ≤ 256
    → (leb (m.0 - last) 512 && ltb size 256) ≡ false
    → (512 < m.0 - last) ⊎ (size ≡ 256)
next_group size last m k e = elim (Bool-cases (leb (m.0 - last) 512)) [
  | inl near ↦ inr (ground (arith, e, near, k))
  | inr far ↦ inl (ground (arith, far))
]

length-commands : (ms : List Match) → length (commands ms) ≡ length ms
length-commands [] = refl
length-commands (m ∷ ms) = ap suc (length-commands ms)

module _ (current : List Bytes) (prev_offset : ℕ) (m : Match) (ms : List Match) where
  cluster_from-joined :
      (leb (m.0 - prev_offset) 512 && ltb (length current) 256) ≡ true
      → cluster_from current prev_offset (m ∷ ms) ≡ cluster_from (current ++ (m.1 ∷ [])) m.0 ms
  unfolding cluster_from
  cluster_from-joined e = rw e refl

  cluster_from-split :
      (leb (m.0 - prev_offset) 512 && ltb (length current) 256) ≡ false
      → cluster_from current prev_offset (m ∷ ms) ≡ current ∷ cluster_from (m.1 ∷ []) m.0 ms
  unfolding cluster_from
  cluster_from-split e = rw e refl

cluster_from-IsClustered :
    (first : Match) (g : List Match) (last : ℕ) (ms : List Match)
    → IsClose (first ∷ g) last
    → length (first ∷ g) ≤ 256
    → Continued first g last ms
unfolding Continued
cluster_from-IsClustered first g last [] h k =
    (g, [], unfold cluster_from in refl, refl, ((last, (h, (k, tt))), tt))
cluster_from-IsClustered first g last (m ∷ ms) h k =
    elim (Bool-cases (leb (m.0 - last) 512 && ltb (length (commands (first ∷ g))) 256)) [
      | inl e ↦
          let size = length-commands g in
          let (more, gs, same, all, groups) =
            cluster_from-IsClustered first (g ++ (m ∷ [])) m.0 ms
              (IsClose-append (first ∷ g) last m h (ground (arith, e)))
              (ground (arith, e, size, length-append g (m ∷ []))) in
          (
            more,
            gs,
            cluster_from-joined (commands (first ∷ g)) last m ms e
                ∙ ap (λ c. cluster_from c m.0 ms)
                    (sym (map-append (λ (n : Match). n.1) (first ∷ g) (m ∷ [])))
                ∙ same,
            all ∙ ap (λ t. first ∷ t) (append_assoc g (m ∷ []) ms),
            groups,
          )
      | inr e ↦
          let (more, gs, same, all, groups) =
            cluster_from-IsClustered m [] m.0 ms refl (omega arith) in
          (
            g,
            (m ∷ more) ∷ gs,
            cluster_from-split (commands (first ∷ g)) last m ms e
                ∙ ap (λ t. commands (first ∷ g) ∷ t) same,
            ap (λ t. (first ∷ g) ++ t) all,
            (
              (
                last,
                (
                  h,
                  (
                    k,
                    next_group (length (first ∷ g)) last m k (
                        subst (λ n. (leb (m.0 - last) 512 && ltb (suc n) 256) ≡ false)
                          (length-commands g) e),
                  ),
                ),
              ),
              groups,
            ),
          )
    ]

-- Every ordered list of matches is clustered: no command is lost, and none moves.
pub cluster-IsClustered : (ms : List Match) → IsClustered ms (cluster ms)
unfolding cluster Continued
cluster-IsClustered [] = ([], (refl, (refl, tt)))
cluster-IsClustered (m ∷ ms) =
    let (more, gs, same, all, groups) = cluster_from-IsClustered m [] m.0 ms refl (omega arith) in
    ((m ∷ more) ∷ gs, (same, (all, groups)))
