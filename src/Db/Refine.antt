-- ===== src/Db/Refine.antt =====
-- core/db.py against four maps.
use Prim.Native.String.{String}
use mathlib.Core.Path.{fun_ext}
use vantacore_engine.Prelude.{
  Bool, Bool-cases, List, Option, Result, ap, arith, if◌then◌else◌, inl, inr, not, ok,
  overflow_error, raise, refl, runtime_error, some, true, ℕ, ◌&&◌, ◌≡◌,
}
use vantacore_engine.Prelude.Equality.{Eq, string_eq}
use vantacore_engine.Table.{select, insert_or_ignore}
use vantacore_engine.Table.Laws.{select-insert_or_replace, select-insert_or_ignore}
use vantacore_engine.Db.{
  Address, address_eq, Node, Edge, edge_eq, Manager, Tables, fits_integer, fits_nullable, is_row,
  write, mark_visited, set_metadata, insert_node, insert_edge,
}

-- What a client may know of a database: four maps, without an order of rows.
pub record View : Type 0 where
  pub visited : Address → Bool
  pub metadata : String → Option String
  pub nodes : Address → Option Node
  pub edges : Edge → Option (Option ℕ)

abbrev pub view : Tables → View
view t = record {
  visited = λ a. is_row (select a t.visited_pointers);
  metadata = λ key. select key t.scan_metadata;
  nodes = λ a. select a t.extracted_nodes;
  edges = λ e. select e t.extracted_edges;
}

-- The writing methods as values.
pub data Change : Type 0 where
  marking : Address → Change
  setting : String → String → Change
  adding_node : Address → Node → Change
  adding_edge : Edge → Option ℕ → Change

abbrev pub perform : Change → Manager → Result (Unit {0}) × Manager
perform (marking a) m = mark_visited m a
perform (setting key value) m = set_metadata m key value
perform (adding_node a node) m = insert_node m a node
perform (adding_edge e offset) m = insert_edge m e offset

abbrev pub is_bindable : Change → Bool
is_bindable (marking a) = fits_integer a.virtual_address
is_bindable (setting key value) = true
is_bindable (adding_node a node) = fits_integer a.virtual_address
is_bindable (adding_edge e offset) =
    fits_integer e.source.virtual_address
    && (fits_integer e.target.virtual_address && fits_nullable offset)

abbrev pub updated : {K V : Type 0} ⦃q : Eq K⦄ → (K → V) → K → V → K → V
updated ⦃q⦄ f k v j = if q.beq k j then v else f j

abbrev pub apply : Change → View → View
apply (marking a) w = record w { visited = updated w.visited a true }
apply (setting key value) w = record w { metadata = updated w.metadata key (some value) }
apply (adding_node a node) w = record w { nodes = updated w.nodes a (some node) }
apply (adding_edge e offset) w = record w { edges = updated w.edges e (some offset) }

abbrev pub reply : Bool → Bool → Result (Unit {0})
reply connected bindable =
    if not connected
    then raise runtime_error
    else if not bindable
    then raise overflow_error
    else ok tt

write_lem :
    (m : Manager) (bindable : Bool) (t : Tables) (w : View)
    → view t ≡ w
    → let (r, m') = write m bindable t in
      (r ≡ reply m.connected bindable)
      × (m'.connected ≡ m.connected)
      × (view m'.tables ≡ (if m.connected && bindable then w else view m.tables))
unfolding write
write_lem m bindable t w e = elim (Bool-cases m.connected) [
  | inr off ↦ simp off (refl, refl, refl)
  | inl on ↦ elim (Bool-cases bindable) [
    | inl fits ↦ simp (on, fits) (refl, refl, e)
    | inr wide ↦ simp (on, wide) (refl, refl, refl)
  ]
]

is_row_marked :
    (rows : List (Address × Unit {0})) (a j : Address)
    → is_row (select j (insert_or_ignore a tt rows))
      ≡ updated (λ i. is_row (select i rows)) a true j
is_row_marked rows a j = ground (arith, select-insert_or_ignore a j tt rows)

view-marked :
    (t : Tables) (a : Address)
    → view (record t { visited_pointers = insert_or_ignore a tt t.visited_pointers })
      ≡ apply (marking a) (view t)
view-marked t a =
    ap (λ f. record (view t) { visited = f }) (fun_ext (λ j. is_row_marked t.visited_pointers a j))

-- Each writing method does to the four maps of the database what it should: it raises RuntimeError
-- on a closed manager and OverflowError, otherwise, for an address or an offset beyond 63 bits, and
-- changes nothing then; in all other cases it changes the one map at the one key.
pub perform_refines :
    (ch : Change) (m : Manager)
    → let (r, m') = perform ch m in
      (r ≡ reply m.connected (is_bindable ch))
      × (m'.connected ≡ m.connected)
      × (view m'.tables
          ≡ (if m.connected && is_bindable ch then apply ch (view m.tables) else view m.tables))
unfolding mark_visited set_metadata insert_node insert_edge
perform_refines (marking a) m =
    write_lem m (fits_integer a.virtual_address) _ (apply (marking a) (view m.tables))
      (view-marked m.tables a)
perform_refines (setting key value) m =
    write_lem m true _ (apply (setting key value) (view m.tables)) (
      ap (λ f. record (view m.tables) { metadata = f })
        (fun_ext (λ j. select-insert_or_replace key j value m.tables.scan_metadata)))
perform_refines (adding_node a node) m =
    write_lem m (fits_integer a.virtual_address) _ (apply (adding_node a node) (view m.tables)) (
      ap (λ f. record (view m.tables) { nodes = f })
        (fun_ext (λ j. select-insert_or_replace a j node m.tables.extracted_nodes)))
perform_refines (adding_edge e offset) m =
    write_lem m
      (fits_integer e.source.virtual_address
        && (fits_integer e.target.virtual_address && fits_nullable offset))
      _ (apply (adding_edge e offset) (view m.tables))
      (ap (λ f. record (view m.tables) { edges = f })
        (fun_ext (λ j. select-insert_or_replace e j offset m.tables.extracted_edges)))
