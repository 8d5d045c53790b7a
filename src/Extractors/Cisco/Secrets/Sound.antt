-- ===== src/Extractors/Cisco/Secrets/Sound.antt =====
-- extractors/cisco/: each secret that is written down stands in the dump.
use vantacore_engine.Prelude.{
  Bool-cases, List, Option-cases, [], ap, arith, drop, false, inl, inr, length, mem, min,
  occurrences, occurrences-append_new, refl, some, sym, take, true, ℕ, ◌++◌, ◌+◌, ◌-◌, ◌/◌, ◌<◌,
  ◌∙◌, ◌∷◌, ◌≡◌, ◌≤◌,
}
use vantacore_engine.Bytes.{Bytes}
use vantacore_engine.Paging.{read_at}
use vantacore_engine.Extractors.Text.{is_space, strip, take_while}
use vantacore_engine.Extractors.Text.Laws.{if_any-some, lstrip-dark, strip-StandsAt}
use vantacore_engine.Extractors.Patterns.Places.{StandsAt, StandsAt-chunk}
use vantacore_engine.Extractors.Cisco.Secrets.{
  Findings, Secret, add_secret, add_token, extract_token, visit_prefix, in_token,
}

in_token-dark : (c : ℕ) → in_token c ≡ true → is_space c ≡ false
in_token-dark c h = ground (arith, h)

-- A token stands where it was looked for, and is not empty.
pub extract_token-StandsAt :
    (chunk : Bytes) (offset max_len : ℕ) (token : Bytes)
    → extract_token chunk offset max_len ≡ some token
    → StandsAt chunk offset token × (0 < length token)
unfolding extract_token
extract_token-StandsAt chunk offset max_len token h =
    let size = min (length chunk) (offset + max_len) - offset in
    let (same, some_bytes) =
      if_any-some (strip is_space (take_while in_token (take size (drop offset chunk)))) token h in
    (
      strip-StandsAt in_token chunk offset size token
          (lstrip-dark in_token in_token-dark (take size (drop offset chunk))) same,
      some_bytes,
    )

-- A finding with its value: the value is not empty and stands in the dump at the offset.
abbrev pub IsSecretOf : Bytes → Secret → Type 0
IsSecretOf dump f =
    (token : Bytes) × ((f.value ≡ some token)
      × ((f.redacted ≡ false) × ((0 < length token) × StandsAt dump f.physical_offset token)))

abbrev pub AllSecretsOf : Bytes → List Secret → Type 0
AllSecretsOf dump [] = Unit {0}
AllSecretsOf dump (f ∷ fs) = IsSecretOf dump f × AllSecretsOf dump fs

AllSecretsOf-append :
    (dump : Bytes) (fs : List Secret) (f : Secret)
    → AllSecretsOf dump fs
    → IsSecretOf dump f
    → AllSecretsOf dump (fs ++ (f ∷ []))
AllSecretsOf-append dump [] f h k = (k, tt)
AllSecretsOf-append dump (g ∷ fs) f h k = (h.0, AllSecretsOf-append dump fs f h.1 k)

-- The windows of 64 bytes that the findings begin in.
abbrev pub buckets : List Secret → List ℕ
buckets [] = []
buckets (f ∷ fs) = f.physical_offset / 64 ∷ buckets fs

buckets-append :
    (fs : List Secret) (f : Secret)
    → buckets (fs ++ (f ∷ [])) ≡ buckets fs ++ (f.physical_offset / 64 ∷ [])
buckets-append [] f = refl
buckets-append (g ∷ fs) f = ap (λ t. g.physical_offset / 64 ∷ t) (buckets-append fs f)

pub record IsSound (dump : Bytes) (s : Findings) : Type 0 where
  pub all_secrets : AllSecretsOf dump s.findings
  pub same_buckets : s.seen_buckets ≡ buckets s.findings
  pub distinct : (n : ℕ) → occurrences n s.seen_buckets ≤ 1

pub add_secret-IsSound :
    (dump : Bytes) (phys_off : ℕ) (token : Bytes) (s : Findings)
    → StandsAt dump phys_off token
    → 0 < length token
    → IsSound dump s
    → IsSound dump (add_secret true phys_off token s)
unfolding add_secret
add_secret-IsSound dump phys_off token s h k i =
    elim (Bool-cases (mem (phys_off / 64) s.seen_buckets)) [
      | inl e ↦ simp e i
      | inr e ↦ simp e (record {
        all_secrets =
            AllSecretsOf-append dump s.findings _ i.all_secrets (token, (refl, (refl, (k, h))));
        same_buckets =
            ap (λ t. t ++ (phys_off / 64 ∷ [])) i.same_buckets ∙ sym (buckets-append s.findings _);
        distinct = λ n. occurrences-append_new s.seen_buckets (phys_off / 64) n e (i.distinct n);
      })
    ]

pub visit_prefix-IsSound :
    (dump prefix : Bytes) (offset size idx : ℕ) (s : Findings)
    → IsSound dump s
    → IsSound dump (visit_prefix true prefix offset (read_at dump offset size) idx s)
unfolding visit_prefix add_token
visit_prefix-IsSound dump prefix offset size idx s i =
    let val_start = idx + length prefix in
    let chunk = read_at dump offset size in
    elim (Option-cases (extract_token chunk val_start 64)) [
      | inl e ↦ rw e i
      | inr (token, e) ↦
          let (place, some_bytes) = extract_token-StandsAt chunk val_start 64 token e in
          rw e (
            add_secret-IsSound dump (offset + val_start) token s
              (StandsAt-chunk dump token offset size val_start place) some_bytes i)
    ]
