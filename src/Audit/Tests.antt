-- ===== src/Audit/Tests.antt =====
-- core/audit.py with digests of one byte.
use Prim.Native.String.{String}
use vantacore_engine.Prelude.{List, [], raise, refl, value_error, ℕ, ◌++◌, ◌+◌, ◌∷◌, ◌≡◌, ◌⊎◌}
use vantacore_engine.Prelude.Equality.{string_eq}
use vantacore_engine.Bytes.{Bytes}
use vantacore_engine.Audit.{merge, open_trail, add_record, close}
use vantacore_engine.Table.{select}
use vantacore_engine.Audit.Collisions.{Collide, Entry, latest, IsChain, payloads}
use vantacore_engine.Audit.Chain.{
  Call, add_all, entries, entry_of, tampered_log, add_all-IsChain, without,
}

abbrev sum : Bytes → ℕ
sum [] = 0
sum (b ∷ bs) = b + sum bs

-- A digest of one number.
abbrev short_hmac : Bytes → Bytes → Bytes
short_hmac key message = (sum key + sum message) ∷ []

abbrev digest : Bytes → Bytes
digest bs = sum bs ∷ []

abbrev as_text : Bytes → Bytes
as_text bs = bs

abbrev joined_values : List (String × Bytes) → Bytes
joined_values [] = []
joined_values ((key, value) ∷ rest) = value ++ joined_values rest

abbrev two_calls : List (Call Bytes)
two_calls =
    record { now = 1 ∷ []; event_name = 2 ∷ []; fields = [] }
    ∷ record { now = 3 ∷ []; event_name = 4 ∷ []; fields = ("size", 9 ∷ []) ∷ [] }
    ∷ []

-- A field named like one of the payload's own replaces it.
merges :
    merge {Value = ℕ} (("ts", 1) ∷ ("event", 2) ∷ []) (("event", 5) ∷ [])
    ≡ ("ts", 1) ∷ ("event", 5) ∷ []
unfolding merge
merges = refl

after_close :
    (add_record {Value = Bytes} as_text joined_values short_hmac
      (close (open_trail digest (7 ∷ [])))
      []
      []
      []).0
    ≡ raise value_error
unfolding add_record close open_trail
after_close = refl

add_all-IsChain_example :
    let t =
      add_all as_text as_text joined_values short_hmac two_calls (open_trail digest (7 ∷ [])) in
    let log = entries as_text as_text joined_values short_hmac t.log in
    IsChain short_hmac (digest (7 ∷ [])) log × (t.prev_hmac ≡ latest log)
unfolding select
add_all-IsChain_example =
    add_all-IsChain as_text as_text joined_values short_hmac digest (7 ∷ []) two_calls (λ b. refl)
      (refl, (refl, tt))

-- The payloads of `two_calls` and their signatures are 1 2 7 with 17 and 3 4 7 9 with 47; here the
-- first payload is another one with the same sum.
abbrev forged : List Entry
forged =
    record { payload_json = 3 ∷ 4 ∷ 7 ∷ 9 ∷ []; mac = 47 ∷ [] }
    ∷ record { payload_json = 2 ∷ 1 ∷ 7 ∷ []; mac = 17 ∷ [] }
    ∷ []

tampered_log_example :
    let t =
      add_all as_text as_text joined_values short_hmac two_calls (open_trail digest (7 ∷ [])) in
    let log = entries as_text as_text joined_values short_hmac t.log in
    (payloads short_hmac (7 ∷ []) forged ≡ payloads short_hmac (7 ∷ []) log)
    ⊎ Collide short_hmac (7 ∷ []) forged log
unfolding open_trail add_record merge entry_of without select
tampered_log_example =
    tampered_log as_text as_text joined_values short_hmac digest (7 ∷ []) two_calls 1 forged
      (λ b. refl) (refl, (refl, tt)) (λ m. refl) (refl, (refl, tt)) refl refl
