-- ===== src/Integrations/Failover.antt =====
-- The loop over the entries of an answer in src/proxylib/integrations/httpx.py, requests.py and
-- aiohttp.py, over what the client makes of one entry. The breaker of src/proxylib/_net.py stands beside
-- the rest of the program's state, whose clock is read at every call that reads it.
use proxylib.Prelude.{
  ℕ, Bool, not, ◌&&◌, Option, none, [], ◌∷◌, if◌then◌else◌, is_nil, take, ◌≡◌, refl, ◌⊎◌, inl, inr,
}
use proxylib.Python.Exec.{Error, ok, raise, key_error, runtime_error, is_a}
use proxylib.Python.Text.{Text}
use proxylib.Net.{Netimps}
use proxylib.Proxy.{Proxy}
use proxylib.Lookup.{Proxies, ProxyMap, lookup}
use proxylib.Health.{Breaker, mark_bad, order_by_health}

-- what one attempt comes to: the client's response, or its exception
pub data Outcome (E R : Type 0) : Type 0 where
  responded : R → Outcome E R
  failed : E → Outcome E R

pub Outcome-cases :
    {E R : Type 0} (o : Outcome E R) → ((r : R) × (o ≡ responded r)) ⊎ ((x : E) × (o ≡ failed x))
Outcome-cases (responded r) = inl (r, refl)
Outcome-cases (failed x) = inr (x, refl)

-- what the whole request comes to; `raised` is an exception of this library's own
pub data Reply (E R : Type 0) : Type 0 where
  replied : Outcome E R → Reply E R
  raised : Error → Reply E R

pub record Client (S : Type 0) : Type 0 where
  pub breaker : Breaker
  pub rest : S

-- The client: one attempt, `time.monotonic()`, whether an exception is one of those that let the next
-- entry be tried, and the two options.
pub record Sender (S E R : Type 0) : Type 0 where
  pub attempt : Option Proxy → S → Outcome E R × S
  pub clock : S → ℕ
  pub fails_over : E → Bool
  pub failover : Bool
  pub ttl : ℕ

-- the state after an attempt that left `s`
abbrev pub left : {S : Type 0} → S → Client S → Client S
left s c = record c { rest = s }

module _ {S E R : Type 0} ⦃net : Netimps⦄ where
  -- the state after the attempt of `e` left `s`, and `mark_bad` of `e`
  abbrev pub marked : Sender S E R → Option Proxy → S → Client S → Client S
  marked k e s c = record { breaker = mark_bad e k.ttl (k.clock s) c.breaker; rest = s }

  -- `for index, entry in enumerate(candidates)`
  unfoldable pub send_along : Sender S E R → Proxies → Client S → Reply E R × Client S
  send_along k [] c = (raised runtime_error, c)
  send_along k (e ∷ es) c =
      let s = (k.attempt e c.rest).1 in
      let next = send_along k es (marked k e s c) in
      elim (k.attempt e c.rest).0 [
        | responded r ↦ (replied (responded r), left s c)
        | failed x ↦
            if not (k.failover && k.fails_over x)
            then (replied (failed x), left s c)
            else if is_nil es
            then (replied (failed x), marked k e s c)
            else next
      ]

  -- `_net.order_by_health(entries) if failover else list(entries[:1])`
  unfoldable pub candidates : Sender S E R → Client S → Proxies → Proxies
  candidates k c entries =
      if k.failover then order_by_health (k.clock c.rest) c.breaker entries else take 1 entries

  unfoldable pub send_answer : Sender S E R → Proxies → Client S → Reply E R × Client S
  send_answer k entries c = send_along k (candidates k c entries) c

  -- `try: entries = lookup(…)`, `except KeyError: entries = (None,)`
  unfoldable pub send_on_map :
      Sender S E R → ProxyMap (Client S) → Text → Client S → Reply E R × Client S
  send_on_map k m url c = elim (lookup m url c).0 [
    | ok entries ↦ send_answer k entries (lookup m url c).1
    | raise e ↦
        if is_a e key_error
        then send_answer k (none ∷ []) (lookup m url c).1
        else (raised e, (lookup m url c).1)
  ]
