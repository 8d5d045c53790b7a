-- ===== src/Table.antt =====
-- A table of a database: rows by a primary key, with the two conflict clauses of SQLite's INSERT
-- that the program uses.
pub mod Laws
use vantacore_engine.Prelude.{List, Option, [], if◌then◌else◌, none, some, ◌∷◌}
use vantacore_engine.Prelude.Equality.{Eq}

module _ {K V : Type 0} ⦃e : Eq K⦄ where
  -- SELECT ... WHERE key = ?
  unfoldable pub select : K → List (K × V) → Option V
  select k [] = none
  select k ((j, v) ∷ rows) = if e.beq j k then some v else select k rows

  -- INSERT OR REPLACE
  unfoldable pub insert_or_replace : K → V → List (K × V) → List (K × V)
  insert_or_replace k v [] = (k, v) ∷ []
  insert_or_replace k v ((j, w) ∷ rows) =
      let rest = insert_or_replace k v rows in if e.beq j k then (k, v) ∷ rows else (j, w) ∷ rest

  -- INSERT OR IGNORE
  unfoldable pub insert_or_ignore : K → V → List (K × V) → List (K × V)
  insert_or_ignore k v [] = (k, v) ∷ []
  insert_or_ignore k v ((j, w) ∷ rows) =
      let rest = insert_or_ignore k v rows in if e.beq j k then (j, w) ∷ rows else (j, w) ∷ rest
