-- ===== src/Extractors/Cisco/Vpn/Sessions.antt =====
-- extractors/cisco/asa/vpn_sessions.py: the sessions that are reported.
use vantacore_engine.Prelude.{
  Bool-cases, List, Option-cases, [], ap, arith, drop, false, inl, inr, length, occurrences, refl,
  subst, sym, take, true, ℕ, ◌++◌, ◌+◌, ◌==◌, ◌∙◌, ◌∷◌, ◌≡◌, ◌≤◌, ◌⊎◌,
}
use vantacore_engine.Bytes.{Bytes, bytes_eq}
use vantacore_engine.Paging.{read_at}
use vantacore_engine.Extractors.Keyed.{bytes_key, pair_key, seen, Distinct, Distinct-append_new}
use vantacore_engine.Extractors.Text.{is_bracket, first_token, is_dotted, split_words, strip}
use vantacore_engine.Extractors.Text.Laws.{first_token-passes}
use vantacore_engine.Extractors.Patterns.{never, scan_all}
use vantacore_engine.Extractors.Patterns.Keeps.{scan_pattern-keeps, scan_chunks-keeps}
use vantacore_engine.Extractors.Patterns.Places.{StandsAt, IsMatch-StandsAt, StandsAt-chunk}
use vantacore_engine.Extractors.Cisco.Secrets.{Findings, visit_prefix}
use vantacore_engine.Extractors.Cisco.Secrets.Sound.{
  AllSecretsOf, IsSound, buckets, visit_prefix-IsSound,
}
use vantacore_engine.Extractors.Cisco.Vpn.Laws.{redact_report, run-redacted}
use vantacore_engine.Extractors.Cisco.Vpn.{
  Search, Session, add_session, is_capped, is_valid_ip, nothing, peer_of, psk_prefix, run,
  scan_sessions, session_patterns, visit_chunk, visit_session,
}

-- The address is empty or has four numbers below 256.
abbrev pub IsPeer : Bytes → Type 0
IsPeer peer = (peer ≡ []) ⊎ (is_dotted peer ≡ true)

is_valid_ip-dotted : (s : Bytes) → is_valid_ip s ≡ true → is_dotted (strip is_bracket s) ≡ true
unfolding is_valid_ip
is_valid_ip-dotted s h = ground (arith, h)

peer_of-IsPeer : (tokens : List Bytes) → IsPeer (peer_of (first_token is_valid_ip tokens))
peer_of-IsPeer tokens = elim (Option-cases (first_token is_valid_ip tokens)) [
  | inl e ↦ rw e (inl refl)
  | inr (t, e) ↦ rw e (inr (is_valid_ip-dotted t (first_token-passes is_valid_ip tokens t e)))
]

module _ (dump : Bytes) where
  -- One of the patterns stands at the offset, and its name without the colon is the type.
  abbrev pub IsSession : Session → Type 0
  IsSession x =
      ((pattern : Bytes) × ((seen pattern session_patterns ≡ true)
          × ((strip (λ c. c == b':') pattern ≡ x.session_type)
              × StandsAt dump x.physical_offset pattern)))
      × IsPeer x.peer_ip

  abbrev pub AllSessions : List Session → Type 0
  AllSessions [] = Unit {0}
  AllSessions (x ∷ xs) = IsSession x × AllSessions xs

  AllSessions-append :
      (xs : List Session) (x : Session)
      → AllSessions xs
      → IsSession x
      → AllSessions (xs ++ (x ∷ []))
  AllSessions-append [] x h k = (k, tt)
  AllSessions-append (y ∷ xs) x h k = (h.0, AllSessions-append xs x h.1 k)

  abbrev pub keys : List Session → List (Bytes × Bytes)
  keys [] = []
  keys (x ∷ xs) = (x.session_type, x.peer_ip) ∷ keys xs

  keys-append :
      (xs : List Session) (x : Session)
      → keys (xs ++ (x ∷ [])) ≡ keys xs ++ ((x.session_type, x.peer_ip) ∷ [])
  keys-append [] x = refl
  keys-append (y ∷ xs) x = ap (λ t. (y.session_type, y.peer_ip) ∷ t) (keys-append xs x)

  record IsFound (s : Search) : Type 0 where
    psks : IsSound dump s.psks
    all_sessions : AllSessions s.sessions
    same_keys : s.seen_session_keys ≡ keys s.sessions
    distinct : Distinct s.seen_session_keys

  add_session-IsFound :
      (x : Session) (s : Search) → IsSession x → IsFound s → IsFound (add_session x s)
  unfolding add_session
  add_session-IsFound x s h i =
      elim (Bool-cases (seen (x.session_type, x.peer_ip) s.seen_session_keys)) [
        | inl e ↦ simp e i
        | inr e ↦ simp e (record {
          psks = i.psks;
          all_sessions = AllSessions-append s.sessions x i.all_sessions h;
          same_keys =
              ap (λ t. t ++ ((x.session_type, x.peer_ip) ∷ [])) i.same_keys
              ∙ sym (keys-append s.sessions x);
          distinct =
              Distinct-append_new s.seen_session_keys (x.session_type, x.peer_ip) e i.distinct;
        })
      ]

  abbrev AllPatterns : List Bytes → Type 0
  AllPatterns [] = Unit {0}
  AllPatterns (p ∷ ps) = (seen p session_patterns ≡ true) × AllPatterns ps

  scan_sessions-IsFound :
      (offset : ℕ) (patterns : List Bytes) (s : Search)
      → AllPatterns patterns
      → IsFound s
      → IsFound (scan_sessions offset (read_at dump offset 65536) patterns s)
  unfolding scan_sessions visit_session
  scan_sessions-IsFound offset [] s h i = i
  scan_sessions-IsFound offset (pattern ∷ patterns) s h i =
      let chunk = read_at dump offset 65536 in
      scan_sessions-IsFound offset patterns _ h.1 (
        scan_pattern-keeps IsFound pattern never (visit_session offset chunk pattern) chunk
          (λ idx t m _ k.
            add_session-IsFound _ t
              (
                (
                  pattern,
                  (
                    h.0,
                    (
                      refl,
                      StandsAt-chunk dump pattern offset 65536 idx
                          (IsMatch-StandsAt pattern chunk idx m),
                    ),
                  ),
                ),
                peer_of-IsPeer (split_words (take 128 (drop idx chunk))),
              )
              k)
          (length chunk + 1) 0 s i)

  session_patterns-AllPatterns : AllPatterns session_patterns
  unfolding bytes_eq
  session_patterns-AllPatterns = (refl, (refl, (refl, (refl, tt))))

  psks-IsSound :
      (offset : ℕ) (s : Findings)
      → IsSound dump s
      → IsSound dump (
          scan_all psk_prefix never
            (visit_prefix true psk_prefix offset (read_at dump offset 65536))
            (read_at dump offset 65536)
            s)
  psks-IsSound offset s i =
      let chunk = read_at dump offset 65536 in
      scan_pattern-keeps (IsSound dump) psk_prefix never (visit_prefix true psk_prefix offset chunk)
        chunk (λ idx t _ _ k. visit_prefix-IsSound dump psk_prefix offset 65536 idx t k)
        (length chunk + 1) 0 s i

  visit_chunk-IsFound :
      (offset : ℕ) (s : Search)
      → IsFound s
      → IsFound (visit_chunk true offset (read_at dump offset 65536) s)
  unfolding visit_chunk
  visit_chunk-IsFound offset s i =
      scan_sessions-IsFound offset session_patterns _ session_patterns-AllPatterns (record {
        psks = psks-IsSound offset s.psks i.psks;
        all_sessions = i.all_sessions;
        same_keys = i.same_keys;
        distinct = i.distinct;
      })

  run-AllSessions :
      (AllSecretsOf dump (run true dump).vpn_psks
        × ((n : ℕ) → occurrences n (buckets (run true dump).vpn_psks) ≤ 1))
      × (AllSessions (run true dump).vpn_sessions × Distinct (keys (run true dump).vpn_sessions))
  unfolding run
  run-AllSessions =
      let i =
        scan_chunks-keeps IsFound dump 65536 is_capped (visit_chunk true)
          (λ offset s _ k. visit_chunk-IsFound offset s k) (length dump + 1) 0 nothing
          (record {
            psks = record { all_secrets = tt; same_buckets = refl; distinct = λ n. omega arith };
            all_sessions = tt;
            same_keys = refl;
            distinct = tt;
          }) in
      (
        (
          i.psks.all_secrets,
          λ n. subst (λ bs. occurrences n bs ≤ 1) i.psks.same_buckets (i.psks.distinct n),
        ),
        (i.all_sessions, subst Distinct i.same_keys i.distinct),
      )

  -- Without `include_secrets` the report is that of a run with it, with the value of each key taken
  -- out and the sessions unchanged. With it each key has a value that is not empty and stands in
  -- the dump at its offset, no two of them in the same 64 bytes. Each session is at the offset of
  -- one of the four patterns, has the pattern for its type and a dotted address or none, and no two
  -- sessions have both in common.
  pub sessions_gated :
      (run false dump ≡ redact_report (run true dump))
      × ((AllSecretsOf dump (run true dump).vpn_psks
            × ((n : ℕ) → occurrences n (buckets (run true dump).vpn_psks) ≤ 1))
          × (AllSessions (run true dump).vpn_sessions
              × Distinct (keys (run true dump).vpn_sessions)))
  sessions_gated = (run-redacted dump, run-AllSessions)
