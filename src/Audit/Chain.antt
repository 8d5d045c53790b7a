-- ===== src/Audit/Chain.antt =====
-- core/audit.py: the chain of signatures.
use Prim.Native.String.{String}
use vantacore_engine.Prelude.{
  Bool-cases, List, Option, [], ap, ap₂, false, if◌then◌else◌, inl, inr, length, none, refl, some,
  ℕ, ◌++◌, ◌∙◌, ◌∷◌, ◌≡◌, ◌⊎◌,
}
use vantacore_engine.Bytes.{Bytes}
use vantacore_engine.Prelude.Equality.{string_eq}
use vantacore_engine.Table.{insert_or_replace, select}
use vantacore_engine.Table.Laws.{select-insert_or_replace}
use vantacore_engine.Audit.{Trail, merge, open_trail, payload_of, add_record}
use vantacore_engine.Audit.Collisions.{
  Entry, latest, IsChain, payloads, Collide, latest-determines_payloads,
}

-- `{k: v for k, v in record.items() if k != key}`
unfoldable pub without : {Value : Type 0} → String → List (String × Value) → List (String × Value)
without key [] = []
without key ((k, v) ∷ rows) =
    let rest = without key rows in if string_eq.beq k key then rest else (k, v) ∷ rest

module _ {Value : Type 0} where
  without-absent :
      (key : String) (rows : List (String × Value))
      → select key rows ≡ none
      → without key rows ≡ rows
  unfolding without select
  without-absent key [] h = refl
  without-absent key ((k, v) ∷ rows) h = elim (Bool-cases (string_eq.beq k key)) [
    | inl e ↦ let g = rw e at h in cc
    | inr e ↦ rw e (ap (λ t. (k, v) ∷ t) (without-absent key rows (rw e at h)))
  ]

  without-insert :
      (key : String) (v : Value) (rows : List (String × Value))
      → select key rows ≡ none
      → without key (insert_or_replace key v rows) ≡ rows
  unfolding without select insert_or_replace
  without-insert key v [] h = rw ((string_eq.beq_iff key key).1 refl) refl
  without-insert key v ((k, w) ∷ rows) h = elim (Bool-cases (string_eq.beq k key)) [
    | inl e ↦ let g = rw e at h in cc
    | inr e ↦ rw (e, e) (ap (λ t. (k, w) ∷ t) (without-insert key v rows (rw e at h)))
  ]

  select-merge :
      (key : String) (payload fields : List (String × Value))
      → select key payload ≡ none
      → select key fields ≡ none
      → select key (merge payload fields) ≡ none
  unfolding merge select
  select-merge key payload [] h k = h
  select-merge key payload ((j, v) ∷ fields) h k = elim (Bool-cases (string_eq.beq j key)) [
    | inl e ↦ let g = rw e at k in cc
    | inr e ↦
        select-merge key (insert_or_replace j v payload) fields
          (select-insert_or_replace j key v payload ∙ rw e h) (rw e at k)
  ]

-- One call of `record`.
pub record Call (Value : Type 0) : Type 0 where
  pub now : Bytes
  pub event_name : Bytes
  pub fields : List (String × Value)

-- No field is named like the signature.
abbrev pub ArePlain : {Value : Type 0} → List (Call Value) → Type 0
ArePlain [] = Unit {0}
ArePlain (c ∷ cs) = (select "hmac" c.fields ≡ none) × ArePlain cs

module _ {Value : Type 0} (text : Bytes → Value) (untext : Value → Bytes)
    (dumps : List (String × Value) → Bytes) (hmac : Bytes → Bytes → Bytes) where
  abbrev pub add_all : List (Call Value) → Trail Value → Trail Value
  add_all [] t = t
  add_all (c ∷ cs) t = add_all cs (add_record text dumps hmac t c.now c.event_name c.fields).1

  abbrev mac_of : Option Value → Bytes
  mac_of none = []
  mac_of (some v) = untext v

  payload-plain :
      (c : Call Value) (t : Trail Value)
      → select "hmac" c.fields ≡ none
      → select "hmac" (payload_of text dumps hmac t c.now c.event_name c.fields) ≡ none
  unfolding select
  payload-plain c t plain = select-merge "hmac" _ c.fields refl plain

  -- How a line is checked: the signature is taken out of its record, and the rest is written again.
  unfoldable pub entry_of : List (String × Value) → Entry
  unfolding without select
  entry_of line = record {
    payload_json = dumps (without "hmac" line);
    mac = mac_of (select "hmac" line);
  }

  abbrev pub entries : List (List (String × Value)) → List Entry
  entries [] = []
  entries (line ∷ lines) = entry_of line ∷ entries lines

  module _ (reads : (b : Bytes) → untext (text b) ≡ b) where
    entry_of-signed :
        (payload : List (String × Value)) (mac : Bytes)
        → select "hmac" payload ≡ none
        → entry_of (merge payload (("hmac", text mac) ∷ []))
          ≡ record { payload_json = dumps payload; mac = mac }
    unfolding entry_of merge
    entry_of-signed payload mac h =
        let found : select "hmac" (insert_or_replace "hmac" (text mac) payload) ≡ some (text mac) =
          select-insert_or_replace "hmac" "hmac" (text mac) payload in
        rw (without-insert "hmac" (text mac) payload h, found, reads mac) refl

    -- What the trail keeps while it is open.
    record IsLinked (key : Bytes) (t : Trail Value) : Type 0 where
      same_key : t.hmac_key ≡ key
      opened : t.closed ≡ false
      linked : t.prev_hmac ≡ latest (entries t.log)
      chain : IsChain hmac key (entries t.log)

    add_record-IsLinked :
        {key : Bytes} (c : Call Value) (t : Trail Value)
        → select "hmac" c.fields ≡ none
        → IsLinked key t
        → IsLinked key (add_record text dumps hmac t c.now c.event_name c.fields).1
    unfolding add_record
    add_record-IsLinked {key} c t plain v =
        let payload = payload_of text dumps hmac t c.now c.event_name c.fields in
        let json = dumps payload in
        let mac = hmac t.hmac_key (json ++ t.prev_hmac) in
        let line = entry_of-signed payload mac (payload-plain c t plain) in
        simp v.opened (record {
          same_key = v.same_key;
          opened = refl;
          linked = rw line refl;
          chain =
              rw line
                (ap₂ (λ (k : Bytes) (p : Bytes). hmac k (json ++ p)) v.same_key v.linked, v.chain);
        })

    add_all-IsLinked :
        {key : Bytes} (cs : List (Call Value)) (t : Trail Value)
        → ArePlain cs
        → IsLinked key t
        → IsLinked key (add_all cs t)
    add_all-IsLinked [] t p v = v
    add_all-IsLinked (c ∷ cs) t p v = add_all-IsLinked cs _ p.1 (add_record-IsLinked c t p.0 v)

-- Whatever is recorded on a new trail with no field named "hmac", each line of its log checks: when
-- the signature is taken out of its record, what is left is what was signed together with the
-- signature of the line before, under the key that the hash of the dump gives; and the next
-- signature will cover the latest.
pub add_all-IsChain :
    {Value : Type 0} (text : Bytes → Value) (untext : Value → Bytes)
    (dumps : List (String × Value) → Bytes) (hmac : Bytes → Bytes → Bytes) (sha256 : Bytes → Bytes)
    (dump_hash : Bytes) (cs : List (Call Value))
    → ((b : Bytes) → untext (text b) ≡ b)
    → ArePlain cs
    → let t = add_all text untext dumps hmac cs (open_trail sha256 dump_hash) in
      let log = entries text untext dumps hmac t.log in
      IsChain hmac (sha256 dump_hash) log × (t.prev_hmac ≡ latest log)
unfolding open_trail
add_all-IsChain text untext dumps hmac sha256 dump_hash cs reads plain =
    let v =
      add_all-IsLinked text untext dumps hmac reads cs (open_trail sha256 dump_hash) plain
        (record { same_key = refl; opened = refl; linked = refl; chain = tt }) in
    (v.chain, v.linked)

-- What was recorded on a new trail, with no field named "hmac", is held against a log of as many
-- lines that holds as a chain under the same key and ends in the signature that the trail kept: the
-- payloads are those of the trail, from the first to the last, or at one place of the two logs
-- different messages are signed with the same signature. So whoever keeps the last signature sees a
-- change of any earlier line, if nobody finds two such messages.
pub tampered_log :
    {Value : Type 0} (text : Bytes → Value) (untext : Value → Bytes)
    (dumps : List (String × Value) → Bytes) (hmac : Bytes → Bytes → Bytes) (sha256 : Bytes → Bytes)
    (dump_hash : Bytes) (cs : List (Call Value)) (digest_length : ℕ) (found : List Entry)
    → ((b : Bytes) → untext (text b) ≡ b)
    → ArePlain cs
    → let t = add_all text untext dumps hmac cs (open_trail sha256 dump_hash) in
      let log = entries text untext dumps hmac t.log in
      ((m : Bytes) → length (hmac (sha256 dump_hash) m) ≡ digest_length)
      → IsChain hmac (sha256 dump_hash) found
      → length found ≡ length log
      → latest found ≡ t.prev_hmac
      → (payloads hmac (sha256 dump_hash) found ≡ payloads hmac (sha256 dump_hash) log)
        ⊎ Collide hmac (sha256 dump_hash) found log
tampered_log text untext dumps hmac sha256 dump_hash cs digest_length found reads plain fixed
      accepted size kept =
    let t = add_all text untext dumps hmac cs (open_trail sha256 dump_hash) in
    let (chain, linked) = add_all-IsChain text untext dumps hmac sha256 dump_hash cs reads plain in
    latest-determines_payloads hmac (sha256 dump_hash) digest_length found
      (entries text untext dumps hmac t.log) fixed accepted chain size (kept ∙ linked)
