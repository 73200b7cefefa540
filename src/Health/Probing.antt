-- ===== src/Health/Probing.antt =====
-- src/proxylib/_net.py: `first_working_proxy` against the first entry that is fit, by the breaker before the call.
use proxylib.Prelude.{
  ℕ, ◌+◌, ◌≡◌, refl, Bool, true, false, not, ◌&&◌, inl, inr, Option, none, some, List, [], ◌∷◌,
  arith, ltb, if◌then◌else◌, Bool-cases, Option-cases,
}
use proxylib.Python.Exec.{Result, ok, raise, no_reachable_proxy_error}
use proxylib.Python.Text.{Text, ==_iff}
use proxylib.Python.Dict.{get-set}
use proxylib.Net.{Netimps}
use proxylib.Proxy.{Proxy}
use proxylib.Health.{
  Breaker, same_endpoint, is_skipped, probe_port, note_failure, first_working_proxy,
}
use proxylib.Health.Ordering.{same_endpoint-Lawful}

module _ ⦃net : Netimps⦄ (probe : Text → ℕ → Bool) (now ttl : ℕ) (start : Breaker) where
  -- DIRECT, or a proxy with a port that was not skipped when the call began and accepts a connection
  abbrev pub is_reachable : Option Proxy → Bool
  is_reachable none = true
  is_reachable (some p) = elim (probe_port p) [
    | none ↦ false
    | some n ↦ not (ltb 0 ttl && is_skipped now start (p.host, n)) && probe p.host n
  ]

  abbrev pub first_reachable : List (Option Proxy) → Result (Option Proxy)
  first_reachable [] = raise no_reachable_proxy_error
  first_reachable (e ∷ es) = let rest = first_reachable es in if is_reachable e then ok e else rest

  -- what the breaker has gained since the call began
  record Since (breaker : Breaker) : Type 0 where
    kept : (k : Text × ℕ) → is_skipped now start k ≡ true → is_skipped now breaker k ≡ true
    gained :
        (k : Text × ℕ)
        → is_skipped now breaker k ≡ true
        → is_skipped now start k ≡ false
        → probe k.0 k.1 ≡ false

  note_failure-skipped :
      (breaker : Breaker) (k j : Text × ℕ)
      → is_skipped now (note_failure now ttl k breaker) j
        ≡ (if ltb 0 ttl && same_endpoint k j then true else is_skipped now breaker j)
  unfolding note_failure is_skipped
  note_failure-skipped breaker k j =
      ground (arith, get-set same_endpoint same_endpoint-Lawful breaker k j (now + ttl))

  endpoint_eq : (k j : Text × ℕ) → same_endpoint k j ≡ true → (k.0 ≡ j.0) × (k.1 ≡ j.1)
  endpoint_eq (h, p) (g, q) e = (ground (arith, ==_iff h g), ground arith)

  Since-note_failure :
      (breaker : Breaker) (k : Text × ℕ)
      → Since breaker
      → probe k.0 k.1 ≡ false
      → Since (note_failure now ttl k breaker)
  Since-note_failure breaker k since failed = record {
    kept = λ j h. ground (arith, note_failure-skipped breaker k j, since.kept j h);
    gained = λ j h n.
        ground (arith, note_failure-skipped breaker k j, since.gained j, endpoint_eq k j, failed);
  }

  first_working_from :
      (es : List (Option Proxy)) (breaker : Breaker)
      → Since breaker
      → (first_working_proxy probe now ttl es breaker).0 ≡ first_reachable es
  unfolding first_working_proxy
  first_working_from [] breaker since = refl
  first_working_from (none ∷ es) breaker since = refl
  first_working_from (some p ∷ es) breaker since = elim (Option-cases (probe_port p)) [
    | inl e ↦ ground (arith, e, first_working_from es breaker since)
    | inr (n, e) ↦ elim (Bool-cases (probe p.host n)) [
      | inl up ↦ ground (
        arith,
        e,
        up,
        since.kept (p.host, n),
        since.gained (p.host, n),
        first_working_from es breaker since,
      )
      | inr down ↦ ground (
        arith,
        e,
        down,
        since.kept (p.host, n),
        first_working_from es breaker since,
        first_working_from es (note_failure now ttl (p.host, n) breaker)
            (Since-note_failure breaker (p.host, n) since down),
      )
    ]
  ]

  -- The call answers the first entry, in order, that is DIRECT, or a proxy with a port that the circuit
  -- breaker did not skip when the call began and that accepts a connection; it raises
  -- `NoReachableProxyError` exactly when there is no such entry. What it notes about failures on the way
  -- does not change the answer.
  pub first_working_proxy_lem :
      (es : List (Option Proxy))
      → (first_working_proxy probe now ttl es start).0 ≡ first_reachable es
  first_working_proxy_lem es =
      first_working_from es start (record { kept = λ k h. h; gained = λ k h n. cc })
