-- ===== src/Table/Laws.antt =====
-- The rows of a table after an insertion, and its primary key.
use vantacore_engine.Prelude.{List, [], arith, if◌then◌else◌, none, refl, some, ◌∷◌, ◌≡◌}
use vantacore_engine.Prelude.Equality.{Eq}
use vantacore_engine.Table.{select, insert_or_replace, insert_or_ignore}

module _ {K V : Type 0} ⦃e : Eq K⦄ where
  pub select-insert_or_replace :
      (k j : K) (v : V) (rows : List (K × V))
      → select j (insert_or_replace k v rows) ≡ (if e.beq k j then some v else select j rows)
  unfolding select insert_or_replace
  select-insert_or_replace k j v [] = refl
  select-insert_or_replace k j v ((i, w) ∷ rows) =
      ground
        (arith, e.beq_iff k j, e.beq_iff i k, e.beq_iff i j, select-insert_or_replace k j v rows)

  pub select-insert_or_ignore :
      (k j : K) (v : V) (rows : List (K × V))
      → select j (insert_or_ignore k v rows)
        ≡ (elim (select j rows) [ none ↦ if e.beq k j then some v else none | some w ↦ some w ])
  unfolding select insert_or_ignore
  select-insert_or_ignore k j v [] = refl
  select-insert_or_ignore k j v ((i, w) ∷ rows) =
      ground
        (arith, e.beq_iff k j, e.beq_iff i k, e.beq_iff i j, select-insert_or_ignore k j v rows)
