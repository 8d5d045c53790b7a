-- ===== src/Db.antt =====
-- core/db.py: `SQLiteWALStateManager`. SQLite keeps the tables: the connection sees what it has
-- written, and what is committed outlives it. Its INTEGER has 64 bits with a sign, so that binding
-- an address from 2 ^ 63 on raises OverflowError.
pub mod Refine
pub mod Session
mod Tests
use Prim.Native.String.{String}
use text.Mathlib.Text.{◌==◌ as str_eq}
use text.Mathlib.TextEquality.{eq_iff}
use vantacore_engine.Prelude.{
  Bool, List, Option, Result, [], arith, false, if◌then◌else◌, ltb, none, not, ok, overflow_error,
  raise, runtime_error, some, true, ℕ, ◌&&◌, ◌==◌, ◌^◌, ◌↔◌, ◌≡◌,
}
use vantacore_engine.Prelude.Equality.{Eq, string_eq}
use vantacore_engine.Bytes.{Bytes}
use vantacore_engine.Table.{select, insert_or_replace, insert_or_ignore}

-- The primary key of visited_pointers and extracted_nodes: a namespace and a virtual address.
pub record Address : Type 0 where
  pub namespace : String
  pub virtual_address : ℕ

abbrev pub address_beq : Address → Address → Bool
address_beq a b = str_eq a.namespace b.namespace && (a.virtual_address == b.virtual_address)

pub address_beq_iff : (a b : Address) → (address_beq a b ≡ true) ↔ (a ≡ b)
address_beq_iff a b = ground (arith, eq_iff a.namespace b.namespace)

instance abbrev pub address_eq : Eq Address
address_eq = record { beq = address_beq; beq_iff = address_beq_iff }

pub record Node : Type 0 where
  pub node_type : String
  pub label : Option String
  pub raw_bytes : Option Bytes

-- The primary key of extracted_edges.
pub record Edge : Type 0 where
  pub source : Address
  pub target : Address
  pub edge_type : String

abbrev pub edge_beq : Edge → Edge → Bool
edge_beq a b =
    address_beq a.source b.source
    && (address_beq a.target b.target && str_eq a.edge_type b.edge_type)

pub edge_beq_iff : (a b : Edge) → (edge_beq a b ≡ true) ↔ (a ≡ b)
edge_beq_iff a b = ground (
  arith,
  eq_iff a.source.namespace b.source.namespace,
  eq_iff a.target.namespace b.target.namespace,
  eq_iff a.edge_type b.edge_type,
)

instance abbrev pub edge_eq : Eq Edge
edge_eq = record { beq = edge_beq; beq_iff = edge_beq_iff }

pub record Tables : Type 0 where
  pub visited_pointers : List (Address × Unit {0})
  pub scan_metadata : List (String × String)
  pub extracted_nodes : List (Address × Node)
  pub extracted_edges : List (Edge × Option ℕ)

-- A file without tables: CREATE TABLE IF NOT EXISTS makes them.
abbrev pub no_rows : Tables
no_rows = record {
  visited_pointers = [];
  scan_metadata = [];
  extracted_nodes = [];
  extracted_edges = [];
}

-- `connected` is whether `_conn` is there; `tables` is what the connection sees, and `committed`
-- what the file holds.
pub record Manager : Type 0 where
  pub connected : Bool
  pub tables : Tables
  pub committed : Tables

-- `_conn.commit()`
unfoldable pub commit : Manager → Manager
commit m = record m { committed = m.tables }

-- `_conn.execute` of a statement that writes: a transaction begins, or goes on.
unfoldable pub execute : Manager → Tables → Manager
execute m tables = record m { tables = tables }

-- `__init__`, on a file with these tables; `is_wal` is what SQLite answers to the PRAGMA.
unfoldable pub connect : Bool → Tables → Result Manager
unfolding commit
connect is_wal tables =
    if not is_wal
    then raise runtime_error
    else ok (commit (record { connected = true; tables = tables; committed = tables }))

abbrev pub fits_integer : ℕ → Bool
fits_integer n = ltb n (2 ^ 63)

abbrev pub fits_nullable : Option ℕ → Bool
fits_nullable none = true
fits_nullable (some n) = fits_integer n

-- A statement that writes, and its commit.
unfoldable pub write : Manager → Bool → Tables → Result (Unit {0}) × Manager
unfolding commit execute
write m bindable tables =
    if not m.connected
    then (raise runtime_error, m)
    else if not bindable
    then (raise overflow_error, m)
    else (ok tt, commit (execute m tables))

unfoldable pub read : {A : Type 0} → Manager → Bool → A → Result A
read m bindable answer =
    if not m.connected
    then raise runtime_error
    else if not bindable
    then raise overflow_error
    else ok answer

unfoldable pub mark_visited : Manager → Address → Result (Unit {0}) × Manager
unfolding write insert_or_ignore
mark_visited m a =
    write m (fits_integer a.virtual_address)
      (record m.tables { visited_pointers = insert_or_ignore a tt m.tables.visited_pointers })

abbrev pub is_row : {A : Type 0} → Option A → Bool
is_row none = false
is_row (some row) = true

unfoldable pub is_visited : Manager → Address → Result Bool
unfolding read select
is_visited m a =
    read m (fits_integer a.virtual_address) (is_row (select a m.tables.visited_pointers))

unfoldable pub set_metadata : Manager → String → String → Result (Unit {0}) × Manager
unfolding write insert_or_replace
set_metadata m key value =
    write m true
      (record m.tables { scan_metadata = insert_or_replace key value m.tables.scan_metadata })

unfoldable pub get_metadata : Manager → String → Result (Option String)
unfolding read select
get_metadata m key = read m true (select key m.tables.scan_metadata)

unfoldable pub insert_node : Manager → Address → Node → Result (Unit {0}) × Manager
unfolding write insert_or_replace
insert_node m a node =
    write m (fits_integer a.virtual_address)
      (record m.tables { extracted_nodes = insert_or_replace a node m.tables.extracted_nodes })

unfoldable pub insert_edge : Manager → Edge → Option ℕ → Result (Unit {0}) × Manager
unfolding write insert_or_replace
insert_edge m e offset_in_struct =
    write m
      (fits_integer e.source.virtual_address
        && (fits_integer e.target.virtual_address && fits_nullable offset_in_struct))
      (record m.tables {
        extracted_edges = insert_or_replace e offset_in_struct m.tables.extracted_edges;
      })

-- What was not committed is lost.
unfoldable pub close : Manager → Manager
close m = record m { connected = false; tables = m.committed }
