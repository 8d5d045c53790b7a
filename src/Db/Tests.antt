-- ===== src/Db/Tests.antt =====
-- core/db.py on a few rows.
use vantacore_engine.Prelude.{
  List, [], false, if◌then◌else◌, ok, overflow_error, raise, refl, runtime_error, some, true, ◌&&◌,
  ◌∷◌, ◌≡◌,
}
use vantacore_engine.Db.{
  Address, Manager, no_rows, connect, close, mark_visited, is_visited, set_metadata, get_metadata,
}
use vantacore_engine.Db.Refine.{
  view, Change, marking, setting, perform, reply, is_bindable, apply, perform_refines,
}
use vantacore_engine.Db.Session.{perform_all, apply_all, visited_in, metadata_in, reopened}

abbrev new_manager : Manager
new_manager = record { connected = true; tables = no_rows; committed = no_rows }

abbrev user_address : Address
user_address = record { namespace = "GLOBAL_KERNEL"; virtual_address = 0x1000 }

abbrev kernel_address : Address
kernel_address = record { namespace = "GLOBAL_KERNEL"; virtual_address = 0xffff800000000000 }

visits :
    (is_visited (mark_visited new_manager user_address).1 user_address ≡ ok true)
    × (is_visited new_manager user_address ≡ ok false)
    × (is_visited (close new_manager) user_address ≡ raise runtime_error)
unfolding mark_visited is_visited close
visits = (refl, refl, refl)

-- An address of the kernel cannot be marked at all.
kernel_overflow :
    ((mark_visited new_manager kernel_address).0 ≡ raise overflow_error)
    × (is_visited new_manager kernel_address ≡ raise overflow_error)
unfolding mark_visited is_visited
kernel_overflow = (refl, refl)

replaces :
    get_metadata (set_metadata (set_metadata new_manager "k" "1").1 "k" "2").1 "k" ≡ ok (some "2")
unfolding set_metadata get_metadata
replaces = refl

not_wal : connect false no_rows ≡ raise runtime_error
unfolding connect
not_wal = refl

perform_refines_example :
    let (r, m') = perform (marking user_address) new_manager in
    (r ≡ reply new_manager.connected (is_bindable (marking user_address)))
    × (m'.connected ≡ new_manager.connected)
    × (view m'.tables ≡ (
        if new_manager.connected && is_bindable (marking user_address)
        then apply (marking user_address) (view new_manager.tables)
        else view new_manager.tables))
perform_refines_example = perform_refines (marking user_address) new_manager

abbrev changes : List Change
changes = marking user_address ∷ setting "platform" "cisco_asa" ∷ marking kernel_address ∷ []

reopened_example :
    let next = connect true (close (perform_all changes new_manager)).committed in
    let expected = apply_all changes (view new_manager.tables) in
    (visited_in next user_address ≡ ok (expected.visited user_address))
    × (metadata_in next "platform" ≡ ok (expected.metadata "platform"))
reopened_example = reopened changes new_manager user_address "platform" refl refl refl
