-- ===== src/Db/Session.antt =====
-- core/db.py: what one scan session writes is there in the next.
use Prim.Native.String.{String}
use vantacore_engine.Prelude.{
  Bool, Bool-cases, List, Option, Result, [], ap, if◌then◌else◌, inl, inr, ok, raise, refl, true,
  ◌&&◌, ◌∙◌, ◌∷◌, ◌≡◌,
}
use vantacore_engine.Prelude.Equality.{string_eq}
use vantacore_engine.Table.{insert_or_ignore, insert_or_replace}
use vantacore_engine.Db.{
  address_eq, edge_eq, Tables, insert_edge, insert_node, mark_visited, set_metadata, write, Address,
  Manager, connect, close, is_visited, get_metadata, fits_integer,
}
use vantacore_engine.Db.Refine.{
  View, view, Change, adding_edge, adding_node, marking, perform, setting, is_bindable, apply,
  perform_refines,
}

-- Whatever is raised, the caller goes on.
unfoldable pub perform_all : List Change → Manager → Manager
perform_all [] m = m
perform_all (ch ∷ chs) m = perform_all chs (perform ch m).1

-- A change that cannot be bound is left out.
abbrev pub apply_all : List Change → View → View
apply_all [] w = w
apply_all (ch ∷ chs) w = apply_all chs (if is_bindable ch then apply ch w else w)

perform_all_lem :
    (chs : List Change) (m : Manager)
    → m.connected ≡ true
    → view (perform_all chs m).tables ≡ apply_all chs (view m.tables)
unfolding perform_all
perform_all_lem [] m on = refl
perform_all_lem (ch ∷ chs) m on =
    let (_, still, changed) = perform_refines ch m in
    let one : view (perform ch m).1.tables
        ≡ (if is_bindable ch then apply ch (view m.tables) else view m.tables) =
      changed
      ∙ ap (λ b. if b && is_bindable ch then apply ch (view m.tables) else view m.tables) on in
    perform_all_lem chs (perform ch m).1 (still ∙ on) ∙ ap (apply_all chs) one

-- Nothing is left to commit.
write-commits :
    (m : Manager) (bindable : Bool) (t : Tables)
    → m.committed ≡ m.tables
    → let m' = (write m bindable t).1 in m'.committed ≡ m'.tables
unfolding write
write-commits m bindable t e = elim (Bool-cases m.connected) [
  | inr off ↦ simp off e
  | inl on ↦ elim (Bool-cases bindable) [
    | inl fits ↦ simp (on, fits) refl
    | inr wide ↦ simp (on, wide) e
  ]
]

perform-commits :
    (ch : Change) (m : Manager)
    → m.committed ≡ m.tables
    → let m' = (perform ch m).1 in m'.committed ≡ m'.tables
unfolding mark_visited set_metadata insert_node insert_edge
perform-commits (marking a) m e =
    write-commits m (fits_integer a.virtual_address)
      (record m.tables { visited_pointers = insert_or_ignore a tt m.tables.visited_pointers }) e
perform-commits (setting key value) m e =
    write-commits m true
      (record m.tables { scan_metadata = insert_or_replace key value m.tables.scan_metadata }) e
perform-commits (adding_node a node) m e =
    write-commits m (fits_integer a.virtual_address)
      (record m.tables { extracted_nodes = insert_or_replace a node m.tables.extracted_nodes }) e
perform-commits (adding_edge edge offset) m e =
    write-commits m (is_bindable (adding_edge edge offset))
      (record m.tables { extracted_edges = insert_or_replace edge offset m.tables.extracted_edges })
      e

perform_all-commits :
    (chs : List Change) (m : Manager)
    → m.committed ≡ m.tables
    → (perform_all chs m).committed ≡ (perform_all chs m).tables
unfolding perform_all
perform_all-commits [] m e = e
perform_all-commits (ch ∷ chs) m e =
    perform_all-commits chs (perform ch m).1 (perform-commits ch m e)

abbrev pub visited_in : Result Manager → Address → Result Bool
visited_in (raise e) a = raise e
visited_in (ok m) a = is_visited m a

abbrev pub metadata_in : Result Manager → String → Result (Option String)
metadata_in (raise e) key = raise e
metadata_in (ok m) key = get_metadata m key

-- A session that begins with all committed makes any changes and closes the database; a manager that
-- is opened on what the file holds after it reads, at each address that can be bound and at each key, what these changes in their order
-- make of the maps that the session began with.
pub reopened :
    (chs : List Change) (m : Manager) (a : Address) (key : String)
    → m.connected ≡ true
    → m.committed ≡ m.tables
    → fits_integer a.virtual_address ≡ true
    → let next = connect true (close (perform_all chs m)).committed in
      let expected = apply_all chs (view m.tables) in
      (visited_in next a ≡ ok (expected.visited a))
      × (metadata_in next key ≡ ok (expected.metadata key))
unfolding connect close is_visited get_metadata
reopened chs m a key on all fits =
    let same = ap view (perform_all-commits chs m all) ∙ perform_all_lem chs m on in
    (rw fits (ap (λ w. ok (w.visited a)) same), ap (λ w. ok (w.metadata key)) same)
