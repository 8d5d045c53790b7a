-- ===== src/Audit.antt =====
-- core/audit.py: `ForensicAuditTrail`. SHA-256, HMAC, `json.dumps` and the time are parameters: the
-- text of a digest and of a payload is its bytes.
pub mod Collisions
pub mod Chain
mod Tests
use Prim.Native.String.{String}
use vantacore_engine.Prelude.{
  Bool, List, Result, [], false, if◌then◌else◌, ok, raise, true, value_error, ◌++◌, ◌∷◌,
}
use vantacore_engine.Prelude.Equality.{Eq, string_eq}
use vantacore_engine.Bytes.{Bytes}
use vantacore_engine.Table.{insert_or_replace}

-- The records of the lines that this object has written to the file, the latest first; a line is
-- `json.dumps` of its record.
pub record Trail (Value : Type 0) : Type 0 where
  pub dump_hash : Bytes
  pub hmac_key : Bytes
  pub prev_hmac : Bytes
  pub closed : Bool
  pub log : List (List (String × Value))

-- `{**payload, **fields}`: a field of the same name wins.
unfoldable pub merge :
    {Value : Type 0} → List (String × Value) → List (String × Value) → List (String × Value)
unfolding insert_or_replace
merge payload [] = payload
merge payload ((key, value) ∷ fields) = merge (insert_or_replace key value payload) fields

-- `__init__`: the file is opened for appending.
unfoldable pub open_trail : {Value : Type 0} → (Bytes → Bytes) → Bytes → Trail Value
open_trail sha256 dump_integrity_hash = record {
  dump_hash = dump_integrity_hash;
  hmac_key = sha256 dump_integrity_hash;
  prev_hmac = [];
  closed = false;
  log = [];
}

module _ {Value : Type 0} (text : Bytes → Value) (dumps : List (String × Value) → Bytes)
    (hmac : Bytes → Bytes → Bytes) where
  abbrev pub payload_of :
      Trail Value → Bytes → Bytes → List (String × Value) → List (String × Value)
  payload_of t now event_name fields =
      merge (("ts", text now) ∷ ("event", text event_name) ∷ ("dump_hash", text t.dump_hash) ∷ [])
        fields

  -- Writing to a closed file raises, after the chain has moved on. A field named "hmac" is signed,
  -- but the signature stands in its place in the line.
  unfoldable pub add_record :
      Trail Value → Bytes → Bytes → List (String × Value) → Result (Unit {0}) × Trail Value
  unfolding merge
  add_record t now event_name fields =
      let payload = payload_of t now event_name fields in
      let payload_json = dumps payload in
      let mac = hmac t.hmac_key (payload_json ++ t.prev_hmac) in
      let final_record = merge payload (("hmac", text mac) ∷ []) in
      let signed = record t { prev_hmac = mac } in
      if t.closed
      then (raise value_error, signed)
      else (ok tt, record signed { log = final_record ∷ t.log })

unfoldable pub close : {Value : Type 0} → Trail Value → Trail Value
close t = record t { closed = true }
