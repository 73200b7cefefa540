-- ===== src/Wrappers.antt =====
-- src/proxylib/wrappers.py: the maps that wrap another map. The state of the wrapper objects that
-- `configure` makes, the circuit breaker and the clock stand in one record beside the state of the
-- rest of the program; a lookup reads one clock.
pub mod Trim
pub mod Caching
pub mod Rotation
pub mod Freshness
pub mod Bounds
use proxylib.Prelude.{
  ℕ, zero, suc, ◌+◌, ◌-◌, ◌%◌, Bool, true, false, not, ◌&&◌, ◌||◌, Option, none, some, List, [],
  ◌∷◌, ◌++◌, ltb, leb, eqb, if◌then◌else◌, length, take, drop,
}
use proxylib.Python.Exec.{
  Error, Result, ok, raise, value_error, ◌>>=◌, ◌>>◌, refuse_if, Exec, continue, bind, lift,
}
use proxylib.Python.Text.{Text, text, ◌==◌}
use proxylib.Python.Dict
use proxylib.Python.Dict.{Dict}
use proxylib.Net.{Netimps}
use proxylib.Proxy.{Proxy}
use proxylib.Proxy.Key.{same_proxy}
use proxylib.Lookup.{Proxies, ProxyMap, lookup, own_map}
use proxylib.Health.{Breaker, first_working_proxy}
use proxylib.BypassRules.{BypassRules, matches}

-- `Cached._entries`: when each answer was stored, the least recently used first
abbrev pub Entries : Type 0
Entries = Dict Text (ℕ × Proxies)

-- `RoundRobin._positions`
abbrev pub Positions : Type 0
Positions = Dict Proxies ℕ

pub record World (S : Type 0) : Type 0 where
  pub now : ℕ
  pub entries : Entries
  pub positions : Positions
  pub breaker : Breaker
  pub rest : S

-- `while len(d) > n: d.popitem(last=False)`
unfoldable pub trim {ℓ} : {A : Type ℓ} → ℕ → List A → List A
trim n [] = []
trim n (x ∷ d) = let rest = trim n d in if ltb n (length (x ∷ d)) then rest else x ∷ d

-- the arguments that `Cached` accepts
unfoldable pub cached_init : ℕ → ℕ → Result (Unit {0})
cached_init ttl maxsize = refuse_if (leb ttl 0 || ltb maxsize 1) value_error

abbrev pub is_fresh : ℕ → ℕ → ℕ × Proxies → Bool
is_fresh now ttl entry = ltb (now - entry.0) ttl

-- the first `with self._lock` block of `Cached.__getitem__`: the answer if it is fresh
unfoldable pub cached_read : ℕ → ℕ → Text → Entries → Option Proxies × Entries
cached_read now ttl url entries = elim (Dict.get ◌==◌ entries url) [
  | none ↦ (none, entries)
  | some entry ↦
      if is_fresh now ttl entry
      then (some entry.1, Dict.move_to_end ◌==◌ entries url)
      else (none, entries)
]

-- the second block: store the answer, and drop what is over the limit
unfoldable pub cached_store : ℕ → ℕ → Text → Proxies → Entries → Entries
cached_store now maxsize url answer entries =
    trim maxsize (Dict.move_to_end ◌==◌ (Dict.set ◌==◌ entries url (now, answer)) url)

-- equality of two answers: `Proxy.__eq__` entry by entry
unfoldable pub same_answer : Proxies → Proxies → Bool
same_answer [] [] = true
same_answer (none ∷ ps) (none ∷ qs) = same_answer ps qs
same_answer (some p ∷ ps) (some q ∷ qs) = same_proxy p q && same_answer ps qs
same_answer _ _ = false

abbrev pub max_answers : ℕ
max_answers = 1024

-- `self._positions.pop(answer, 0)`
abbrev pub position_of : Proxies → Positions → ℕ
position_of answer positions = elim (Dict.get same_answer positions answer) [
  | none ↦ 0
  | some n ↦ n
]

-- the `with self._lock` block of `RoundRobin.__getitem__`, for an answer of two entries or more
unfoldable pub advance : Proxies → Positions → Positions
advance answer positions = trim max_answers (
    Dict.set same_answer (Dict.remove same_answer positions answer) answer
      ((position_of answer positions + 1) % length answer))

abbrev pub rotated : ℕ → Proxies → Proxies
rotated n answer = drop n answer ++ take n answer

module _ {S : Type 0} ⦃net : Netimps⦄ where
  -- `Bypass(inner, rules)[url]`
  unfoldable pub bypass_lookup : BypassRules → ProxyMap S → Text → Exec S Proxies
  bypass_lookup rules inner url s =
      if matches rules url then (ok (none ∷ []), s) else lookup inner url s

  unfoldable pub bypass : BypassRules → ProxyMap S → ProxyMap S
  bypass rules inner = own_map (bypass_lookup rules inner)

module _ {S : Type 0} ⦃net : Netimps⦄ where
  abbrev pub store_answer : ℕ → ℕ → Text → Proxies → Exec (World S) Proxies
  store_answer now maxsize url answer w =
      (ok answer, record w { entries = cached_store now maxsize url answer w.entries })

  -- `Cached(inner, ttl=ttl, maxsize=maxsize)[url]`
  unfoldable pub cached_lookup : ℕ → ℕ → ProxyMap (World S) → Text → Exec (World S) Proxies
  cached_lookup ttl maxsize inner url w = elim (cached_read w.now ttl url w.entries).0 [
    | some answer ↦ (ok answer, record w { entries = (cached_read w.now ttl url w.entries).1 })
    | none ↦ bind (lookup inner url) (store_answer w.now maxsize url) w
  ]

  -- `Cached.clear`
  unfoldable pub cached_clear : World S → World S
  cached_clear w = record w { entries = [] }

  -- `RoundRobin(inner)[url]`
  abbrev pub rotate_answer : Proxies → Exec (World S) Proxies
  rotate_answer answer w = if ltb (length answer) 2 then (ok answer, w) else (
    ok (rotated (position_of answer w.positions) answer),
    record w { positions = advance answer w.positions },
  )

  unfoldable pub round_robin_lookup : ProxyMap (World S) → Text → Exec (World S) Proxies
  round_robin_lookup inner url w = bind (lookup inner url) rotate_answer w

  module _ (probe : Text → ℕ → Bool) where
    -- `Probed(inner)[url]`; `first_working_proxy` skips a failed proxy for 30 seconds
    abbrev pub probe_answer : ℕ → Proxies → Exec (World S) Proxies
    probe_answer ttl answer w =
        let (r, breaker) = first_working_proxy probe w.now ttl answer w.breaker in
        (elim r [ ok p ↦ ok (p ∷ []) | raise e ↦ raise e ], record w { breaker = breaker })

    unfoldable pub probed_lookup : ℕ → ProxyMap (World S) → Text → Exec (World S) Proxies
    probed_lookup ttl inner url w = bind (lookup inner url) (probe_answer ttl) w

    abbrev cached_if : Option ℕ → ProxyMap (World S) → ProxyMap (World S)
    cached_if none inner = inner
    cached_if (some zero) inner = inner
    cached_if (some (suc t)) inner = own_map (cached_lookup (suc t) 1024 inner)

    abbrev probed_if : Bool → ℕ → ProxyMap (World S) → ProxyMap (World S)
    probed_if yes' ttl inner = if yes' then own_map (probed_lookup ttl inner) else inner

    abbrev bypass_if : Option BypassRules → ProxyMap (World S) → ProxyMap (World S)
    bypass_if none inner = inner
    bypass_if (some rules) inner = bypass rules inner

    -- `configure(inner, bypass=…, cache_ttl=…, round_robin=…, probe=…)`; `skip` is the 30 seconds of
    -- the circuit breaker
    unfoldable pub configure :
        ℕ → Option BypassRules → Option ℕ → Bool → Bool → ProxyMap (World S) → ProxyMap (World S)
    configure skip rules cache_ttl round_robin probe_it inner = bypass_if rules (
        if round_robin
        then probed_if probe_it skip (own_map (round_robin_lookup (cached_if cache_ttl inner)))
        else cached_if cache_ttl (probed_if probe_it skip inner))
