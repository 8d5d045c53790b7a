-- ===== src/Extractors/Cisco/History/Sorting.antt =====
-- extractors/cisco/common/cli_history.py: the matches in order of their offsets.
use mathlib.Core.List.{Perm}
use mathlib.Core.List.Perm
use vantacore_engine.Prelude.{Bool-cases, List, [], arith, inl, inr, leb, ◌∷◌, ◌≤◌}
use vantacore_engine.Extractors.Cisco.History.{Match, insert_match, sort}

abbrev pub IsOrdered : List Match → Type 0
IsOrdered [] = Unit {0}
IsOrdered (m ∷ []) = Unit {0}
IsOrdered (m ∷ n ∷ ms) = (m.0 ≤ n.0) × IsOrdered (n ∷ ms)

insert_match-perm : (m : Match) (ms : List Match) → Perm (insert_match m ms) (m ∷ ms)
unfolding insert_match
insert_match-perm m [] = Perm.refl (m ∷ [])
insert_match-perm m (n ∷ ns) = elim (Bool-cases (leb m.0 n.0)) [
  | inl e ↦ rw e (Perm.refl (m ∷ n ∷ ns))
  | inr e ↦ rw e (Perm.trans (Perm.cons n (insert_match-perm m ns)) (Perm.swap m n ns))
]

pub sort-perm : (ms : List Match) → Perm (sort ms) ms
unfolding sort
sort-perm [] = Perm.refl []
sort-perm (m ∷ ms) = Perm.trans (insert_match-perm m (sort ms)) (Perm.cons m (sort-perm ms))

insert_match-IsOrdered :
    (m : Match) (ms : List Match) → IsOrdered ms → IsOrdered (insert_match m ms)
unfolding insert_match
insert_match-IsOrdered m [] h = tt
insert_match-IsOrdered m (n ∷ []) h = ground arith
insert_match-IsOrdered m (n ∷ k ∷ ns) h = elim (Bool-cases (leb m.0 n.0)) [
  | inl e ↦ rw e (ground arith, h)
  | inr e ↦ elim (Bool-cases (leb m.0 k.0)) [
    | inl e2 ↦ rw (e, e2) (ground arith, (ground arith, h.1))
    | inr e2 ↦ rw (e, e2) (h.0, rw e2 at (insert_match-IsOrdered m (k ∷ ns) h.1))
  ]
]

pub sort-IsOrdered : (ms : List Match) → IsOrdered (sort ms)
unfolding sort
sort-IsOrdered [] = tt
sort-IsOrdered (m ∷ ms) = insert_match-IsOrdered m (sort ms) (sort-IsOrdered ms)
