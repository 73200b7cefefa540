-- ===== src/SystemConfig/Keeping.antt =====
-- src/proxylib/system/_config.py: a lookup of the map of manual settings changes nothing.
use proxylib.Prelude.{◌≡◌, refl, [], ◌∷◌, Bool-cases, inl, inr}
use proxylib.Python.Exec.{is_a, key_error, Exec, Result-cases}
use proxylib.Python.Text.{Text}
use proxylib.Net.{Netimps}
use proxylib.Lookup.{Proxies, lookup, own_map, answer_for, ask_again}
use proxylib.SystemConfig.{manual_map}
use proxylib.Python.Dict.{Dict}
use proxylib.Proxy.{Proxy}
use proxylib.BypassRules.{BypassRules, matches}
use proxylib.Wrappers.{bypass, bypass_lookup}

module _ {S : Type 0} ⦃net : Netimps⦄ where
  lookup-own_map-rest :
      (f : Text → Exec S Proxies) (url : Text) (s : S)
      → ((s : S) → (f url s).1 ≡ s)
      → (lookup (own_map f) url s).1 ≡ s
  unfolding lookup own_map answer_for ask_again
  lookup-own_map-rest f url s h = elim (Result-cases (f url s).0) [
    | inl (ps, e) ↦ rw e (h s)
    | inr (x, e) ↦
        rw e (elim (Bool-cases (is_a x key_error)) [ inl k ↦ rw k (h s) | inr k ↦ rw k (h s) ])
  ]

  pub manual_map-rest :
      (proxies : Dict Text Proxy) (rules : BypassRules) (url : Text) (s : S)
      → (lookup (manual_map proxies rules) url s).1 ≡ s
  unfolding manual_map bypass bypass_lookup
  manual_map-rest [] rules url s = lookup-own_map-rest _ url s (λ s. refl)
  manual_map-rest (p ∷ ps) rules url s = lookup-own_map-rest _ url s (λ s.
      elim (Bool-cases (matches rules url)) [
        | inl m ↦ rw m refl
        | inr m ↦ rw m (lookup-own_map-rest _ url s (λ s'. refl))
      ])
