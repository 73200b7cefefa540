-- ===== src/SystemConfig/Deferring.antt =====
-- src/proxylib/system/_config.py: `_Deferred`, and lookups through `to_proxymap`.
use proxylib.Prelude.{
  subst, ℕ, ◌-◌, ◌≡◌, ◌≢◌, refl, ◌∙◌, Bool, true, false, ◌&&◌, ◌||◌, Option, none, some, List, [],
  ◌∷◌, ◌++◌, append_assoc, arith, leb, if◌then◌else◌, Bool-cases, Option-cases, inl, inr,
}
use proxylib.Python.Exec.{
  Error, Result, ok, raise, key_error, pac_error, value_error, is_a, Exec, Result-cases,
}
use proxylib.Python.Text.{Text}
use proxylib.Python.Dict.{Dict}
use proxylib.Python.Url.{urlsplit}
use proxylib.Net.{Netimps}
use proxylib.Proxy.{Proxy}
use proxylib.Lookup.{Proxies, ProxyMap, lookup, own_map, chain_lookup, or_next}
use proxylib.Lookup.Chains.{
  NeverEmpty, lookup-ne-nil, lookup-own_map, lookup-chain_map, chain_lookup-append,
}
use proxylib.BypassRules.{BypassRules}
use proxylib.Wrappers.{bypass, bypass_lookup}
use proxylib.Proxy.Reading.{urlsplit_error}
use proxylib.SystemConfig.{
  ProxyConfig, manual_answer, direct_map, manual_map, Deferred, retry_after, may_load,
  is_load_error, after_load, deferred_get, hide_pac_error, deferred_answer, deferred_lookup,
  source_maps, to_proxymap, is_direct, is_unset, set_map, only_or_chain,
}

module _ {S : Type 0} where
  -- A source that failed to load at the time `t` is loaded again 30 seconds later and not before.
  pub may_load-after_failure :
      (t now : ℕ) (e : Error) (d d' : Deferred S)
      → d.loaded ≡ none
      → may_load t d ≡ true
      → is_load_error e ≡ true
      → deferred_get t (raise e) d ≡ ok d'
      → may_load now d' ≡ leb retry_after (now - t)
  unfolding may_load deferred_get after_load
  may_load-after_failure t now e d d' fresh may caught made =
      ground (arith, fresh, may, caught, made)

  -- A source that is loaded is not loaded again, whatever the time.
  pub deferred_get_loaded :
      (now : ℕ) (load : Result (Option (ProxyMap S))) (d : Deferred S) (m : ProxyMap S)
      → d.loaded ≡ some m
      → deferred_get now load d ≡ ok d
  unfolding deferred_get may_load
  deferred_get_loaded now load d m h = rw (h, may_load) refl

key_error-not-pac_error : is_a key_error pac_error ≡ false
unfolding is_a
key_error-not-pac_error = refl

value_error-not-key_error : is_a value_error key_error ≡ false
unfolding is_a
value_error-not-key_error = refl

hide_pac_error_lem :
    (r : Result Proxies) (e : Error) → hide_pac_error r ≡ raise e → is_a e pac_error ≡ false
hide_pac_error_lem (ok ps) e h = cc
hide_pac_error_lem (raise x) e h = elim (Bool-cases (is_a x pac_error)) [
  | inl c ↦ ground (arith, c, key_error-not-pac_error)
  | inr c ↦ ground (arith, c)
]

manual_answer-decides :
    (proxies : Dict Text Proxy) (url : Text) (e : Error)
    → manual_answer proxies url ≡ raise e
    → is_a e key_error ≡ false
unfolding manual_answer
manual_answer-decides proxies url e h = elim (Result-cases (urlsplit url)) [
  | inl (parts, u) ↦ ground (arith, u)
  | inr (x, u) ↦ ground (arith, u, urlsplit_error url x u, value_error-not-key_error)
]

manual_answer-ne-nil :
    (proxies : Dict Text Proxy) (url : Text) (ps : Proxies)
    → manual_answer proxies url ≡ ok ps
    → ps ≢ []
unfolding manual_answer
manual_answer-ne-nil proxies url ps h = λ z. ground arith

module _ {S : Type 0} where
  -- a map that never says "no opinion"
  abbrev pub AlwaysDecides : (Text → Exec S Proxies) → Type 0
  AlwaysDecides f =
      (url : Text) (s : S) (e : Error) → (f url s).0 ≡ raise e → is_a e key_error ≡ false

module _ {S : Type 0} ⦃net : Netimps⦄ where
  deferred_answer-no_pac_error :
      (d : Deferred S) (url : Text) (s : S) (e : Error)
      → (deferred_answer d url s).0 ≡ raise e
      → is_a e pac_error ≡ false
  unfolding deferred_answer
  deferred_answer-no_pac_error d url s e h = elim (Option-cases d.loaded) [
    | inl n ↦ ground (arith, n, key_error-not-pac_error)
    | inr (m, n) ↦ hide_pac_error_lem (lookup m url s).0 e (ground (arith, n))
  ]

  deferred_get_error :
      (now : ℕ) (load : Result (Option (ProxyMap S))) (d : Deferred S) (e : Error)
      → deferred_get now load d ≡ raise e
      → is_a e pac_error ≡ false
  unfolding deferred_get after_load
  deferred_get_error now load d e h = ground (arith, h)

  -- A PAC that fails, on loading or on answering, never fails the lookup: whatever a deferred source
  -- raises is no `PACError`.
  pub deferred_lookup-no_pac_error :
      (now : ℕ) (load : Result (Option (ProxyMap S))) (d : Deferred S) (url : Text) (s : S)
      (e : Error)
      → (deferred_lookup now load d url s).0 ≡ raise e
      → is_a e pac_error ≡ false
  unfolding deferred_lookup
  deferred_lookup-no_pac_error now load d url s e h =
      elim (Result-cases (deferred_get now load d)) [
        | inr (x, g) ↦
            ground (arith, deferred_get_error now load d x g, (rw (g, deferred_lookup) at h))
        | inl (d', g) ↦ deferred_answer-no_pac_error d' url s e (rw (g, deferred_lookup) at h)
      ]

  own_map-decides :
      (f : Text → Exec S Proxies)
      → NeverEmpty f
      → AlwaysDecides f
      → AlwaysDecides (lookup (own_map f))
  own_map-decides f ne dec url s e h = dec url s e (rw (lookup-own_map f url s (ne url s)) at h)

  pub direct_map-decides : AlwaysDecides (lookup (direct_map {S = S}))
  direct_map-decides = own_map-decides _ (λ url s ps h z. ground arith) (λ url s e h. cc)

  pub bypass-decides :
      (rules : BypassRules) (inner : ProxyMap S)
      → AlwaysDecides (lookup inner)
      → AlwaysDecides (lookup (bypass rules inner))
  unfolding bypass bypass_lookup
  bypass-decides rules inner dec =
      own_map-decides _ (λ url s ps h z. ground (arith, lookup-ne-nil inner url s ps))
        (λ url s e h. ground (arith, dec url s e))

  pub manual_map-decides :
      (proxies : Dict Text Proxy) (rules : BypassRules)
      → AlwaysDecides (lookup (manual_map {S = S} proxies rules))
  unfolding manual_map
  manual_map-decides [] rules = direct_map-decides
  manual_map-decides (p ∷ ps) rules = bypass-decides rules _ (
      own_map-decides _ (λ url s qs h. manual_answer-ne-nil (p ∷ ps) url qs h)
        (λ url s e h. manual_answer-decides (p ∷ ps) url e h))

  or_next-decides :
      (r : Result Proxies) (next : Exec S Proxies) (s : S) (e : Error)
      → ((s' : S) → (next s').0 ≡ raise e → is_a e key_error ≡ false)
      → (or_next r next s).0 ≡ raise e
      → is_a e key_error ≡ false
  unfolding or_next
  or_next-decides (ok ps) next s e k h = cc
  or_next-decides (raise x) next s e k h = elim (Bool-cases (is_a x key_error)) [
    | inl c ↦ k s (ground (arith, c))
    | inr c ↦ ground (arith, c)
  ]

  last_alone :
      (r : Result Proxies) (s : S) (url : Text) (e : Error)
      → ((x : Error) → r ≡ raise x → is_a x key_error ≡ false)
      → (or_next r (chain_lookup {S = S} [] url) s).0 ≡ raise e
      → is_a e key_error ≡ false
  unfolding or_next
  last_alone (ok ps) s url e k h = cc
  last_alone (raise x) s url e k h = ground (arith, k x refl)

  -- A chain whose last map always decides always decides.
  pub chain_lookup-decides :
      (ms : List (ProxyMap S)) (m : ProxyMap S)
      → AlwaysDecides (lookup m)
      → AlwaysDecides (chain_lookup (ms ++ m ∷ []))
  chain_lookup-decides ms m dec url s e h =
      or_next-decides (chain_lookup ms url s).0 (chain_lookup (m ∷ []) url)
        (chain_lookup ms url s).1 e
        (λ s' k.
          last_alone (lookup m url s').0 (lookup m url s').1 url e (dec url s')
            (unfold chain_lookup in k))
        (rw (chain_lookup-append ms (m ∷ []) url s) at h)

  chained-decides :
      (ms : List (ProxyMap S)) (m : ProxyMap S)
      → AlwaysDecides (lookup m)
      → AlwaysDecides (lookup (only_or_chain (ms ++ m ∷ [])))
  chained-decides [] m dec url s e h = dec url s e h
  chained-decides (x ∷ []) m dec url s e h =
      chain_lookup-decides (x ∷ []) m dec url s e (rw (lookup-chain_map (x ∷ m ∷ []) url s) at h)
  chained-decides (x ∷ y ∷ ms) m dec url s e h =
      chain_lookup-decides (x ∷ y ∷ ms) m dec url s e
        (rw (lookup-chain_map (x ∷ y ∷ ms ++ m ∷ []) url s) at h)

  sets-decide :
      (xs ys zs : List (ProxyMap S)) (m : ProxyMap S)
      → AlwaysDecides (lookup m)
      → AlwaysDecides (lookup (only_or_chain (xs ++ (ys ++ (zs ++ m ∷ [])))))
  sets-decide xs ys zs m dec =
      subst (λ ms. AlwaysDecides (lookup (only_or_chain ms)))
        (append_assoc (xs ++ ys) zs (m ∷ []) ∙ append_assoc xs ys (zs ++ m ∷ []))
        (chained-decides ((xs ++ ys) ++ zs) m dec)

  sources-decide :
      (wpad_map : ProxyMap S) (url_map script_map : Text → ProxyMap S) (wpad : Bool)
      (c : ProxyConfig)
      → AlwaysDecides (lookup (only_or_chain (source_maps wpad_map url_map script_map wpad c)))
  unfolding source_maps
  sources-decide wpad_map url_map script_map wpad c =
      sets-decide (if c.auto_detect || (wpad && is_unset c.state) then wpad_map ∷ [] else [])
        (set_map c.pac_url url_map) (set_map c.pac_script script_map)
        (manual_map c.proxies c.bypass) (manual_map-decides c.proxies c.bypass)

  -- A lookup of the map of any settings never has no opinion: whatever its deferred sources do and
  -- raise, an exception that leaves it is not a `KeyError`.
  pub to_proxymap-decides :
      (wpad_map : ProxyMap S) (url_map script_map : Text → ProxyMap S) (wpad : Bool)
      (c : ProxyConfig) (url : Text) (s : S) (e : Error)
      → (lookup (to_proxymap wpad_map url_map script_map wpad c) url s).0 ≡ raise e
      → is_a e key_error ≡ false
  unfolding to_proxymap
  to_proxymap-decides wpad_map url_map script_map wpad c url s e h =
      elim (Bool-cases (is_direct c.state)) [
        | inl d ↦ direct_map-decides url s e (rw d at h)
        | inr d ↦ sources-decide wpad_map url_map script_map wpad c url s e (rw d at h)
      ]
