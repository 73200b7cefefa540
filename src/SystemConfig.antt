-- ===== src/SystemConfig.antt =====
-- src/proxylib/system/_config.py: an OS's settings as data, and the map that carries them out. What
-- WPAD and the loader of a PAC find is an argument of the operations that call them.
pub mod Deferring
pub mod Keeping
pub mod Settings
pub mod Usable
use proxylib.Prelude.{
  ℕ, zero, suc, ◌-◌, ◌≤◌, Bool, true, false, not, ◌&&◌, ◌||◌, Option, none, some, List, [], ◌∷◌,
  ◌++◌, map, leb, eqb, if◌then◌else◌, is_nil,
}
use proxylib.Python.Exec.{
  Error, Result, ok, raise, key_error, os_error, value_error, pac_error, proxy_parse_error, is_a,
  ◌>>=◌, Exec, continue,
}
use proxylib.Python.Text.{
  Text, text, lower, strip, lstrip, rstrip, is_empty, is_number, int, nonempty, cut, rcut, words,
  ◌==◌,
}
use proxylib.Python.Dict
use proxylib.Python.Dict.{Dict}
use proxylib.Python.Url.{SplitResult, urlsplit}
use proxylib.Net.{Netimps, join_host}
use proxylib.Proxy.{Proxy}
use proxylib.Proxy.Parse.{parse}
use proxylib.Lookup.{Proxies, ProxyMap, lookup, own_map, chain_map}
use proxylib.BypassRules.{BypassRules, no_rules}
use proxylib.Wrappers.{bypass}
use proxylib.Env.{fallback_scheme}

pub data State : Type 0 where
  direct configured unset : State

pub record ProxyConfig : Type 0 where
  pub source : Text
  pub state : State
  pub auto_detect : Bool
  pub pac_url : Option Text
  pub pac_script : Option Text
  pub proxies : Dict Text Proxy
  pub bypass : BypassRules

-- `ProxyConfig()`
abbrev pub empty_config : ProxyConfig
empty_config = record {
  source = text "none";
  state = unset;
  auto_detect = false;
  pac_url = none;
  pac_script = none;
  proxies = [];
  bypass = no_rules;
}

-- `_ManualMap.__getitem__`: the loop over the scheme, its fallback and "socks"
unfoldable pub proxy_for : Dict Text Proxy → List Text → Option Proxy
proxy_for proxies [] = none
proxy_for proxies (k ∷ ks) =
    let other = proxy_for proxies ks in
    if is_empty k then other else elim (Dict.get ◌==◌ proxies k) [ some p ↦ some p | none ↦ other ]

abbrev pub manual_keys : Text → List Text
manual_keys scheme = elim (fallback_scheme scheme) [
  | none ↦ scheme ∷ text "socks" ∷ []
  | some other ↦ scheme ∷ other ∷ text "socks" ∷ []
]

unfoldable pub manual_answer : Dict Text Proxy → Text → Result Proxies
manual_answer proxies url = do
  parts ← urlsplit url
  ok (proxy_for proxies (manual_keys (lower parts.scheme)) ∷ [])

module _ {S : Type 0} ⦃net : Netimps⦄ where
  -- the map that always answers DIRECT, `SimpleProxyMap()`
  abbrev pub direct_map : ProxyMap S
  direct_map = own_map (λ url s. (ok (none ∷ []), s))

  unfoldable pub manual_map : Dict Text Proxy → BypassRules → ProxyMap S
  manual_map proxies rules =
      if is_nil proxies
      then direct_map
      else bypass rules (own_map (λ url s. (manual_answer proxies url, s)))

abbrev pub is_unset : State → Bool
is_unset unset = true
is_unset _ = false

abbrev pub is_direct : State → Bool
is_direct direct = true
is_direct _ = false

-- `_Deferred`: the map once it is loaded, and when loading last failed
pub record Deferred (S : Type 0) : Type 0 where
  pub loaded : Option (ProxyMap S)
  pub failed_at : Option ℕ

abbrev pub retry_after : ℕ
retry_after = 30

-- whether `_get` calls `load` at the time `now`
unfoldable pub may_load : {S : Type 0} → ℕ → Deferred S → Bool
may_load now d = elim d.loaded [
  | some _ ↦ false
  | none ↦ elim d.failed_at [ none ↦ true | some t ↦ leb retry_after (now - t) ]
]

-- the exceptions that `_get` catches
abbrev pub is_load_error : Error → Bool
is_load_error e = is_a e os_error || is_a e value_error || is_a e pac_error

-- the body of the `if` in `_get`, from what `load()` gave; any other exception goes on to the caller
unfoldable pub after_load :
    {S : Type 0} → ℕ → Result (Option (ProxyMap S)) → Deferred S → Result (Deferred S)
after_load now (ok (some m)) d = ok (record d { loaded = some m })
after_load now (ok none) d = ok (record d { failed_at = some now })
after_load now (raise e) d =
    if is_load_error e then ok (record d { failed_at = some now }) else raise e

unfoldable pub deferred_get :
    {S : Type 0} → ℕ → Result (Option (ProxyMap S)) → Deferred S → Result (Deferred S)
deferred_get now load d = if may_load now d then after_load now load d else ok d

abbrev pub hide_pac_error : Result Proxies → Result Proxies
hide_pac_error (ok ps) = ok ps
hide_pac_error (raise e) = if is_a e pac_error then raise key_error else raise e

module _ {S : Type 0} ⦃net : Netimps⦄ where
  -- `_Deferred.__getitem__` after `_get`
  unfoldable pub deferred_answer : Deferred S → Text → Exec S Proxies
  deferred_answer d url s = elim d.loaded [
    | none ↦ (raise key_error, s)
    | some m ↦ (hide_pac_error (lookup m url s).0, (lookup m url s).1)
  ]

  -- `_Deferred.__getitem__`, where `load` is what a call of `load()` comes to at the time `now`
  unfoldable pub deferred_lookup :
      ℕ → Result (Option (ProxyMap S)) → Deferred S → Text → S → Result Proxies × Deferred S × S
  deferred_lookup now load d url s = elim (deferred_get now load d) [
    | raise e ↦ (raise e, d, s)
    | ok d' ↦ ((deferred_answer d' url s).0, d', (deferred_answer d' url s).1)
  ]

  -- `maps[0] if len(maps) == 1 else ChainProxyMap(*maps)`
  abbrev pub only_or_chain : List (ProxyMap S) → ProxyMap S
  only_or_chain (m ∷ []) = m
  only_or_chain ms = chain_map ms

  abbrev pub set_map : Option Text → (Text → ProxyMap S) → List (ProxyMap S)
  set_map none f = []
  set_map (some s) f = if is_empty s then [] else f s ∷ []

  -- the maps of `to_proxymap`; the arguments are the deferred maps of WPAD, of a PAC's URL and of a
  -- script
  module _ (wpad_map : ProxyMap S) (url_map script_map : Text → ProxyMap S) where
    -- in the order they are asked
    unfoldable pub source_maps : Bool → ProxyConfig → List (ProxyMap S)
    source_maps wpad c =
        (if c.auto_detect || (wpad && is_unset c.state) then wpad_map ∷ [] else [])
        ++ (set_map c.pac_url url_map
            ++ (set_map c.pac_script script_map ++ manual_map c.proxies c.bypass ∷ []))

    unfoldable pub to_proxymap : Bool → ProxyConfig → ProxyMap S
    to_proxymap wpad c =
        if is_direct c.state then direct_map else only_or_chain (source_maps wpad c)
