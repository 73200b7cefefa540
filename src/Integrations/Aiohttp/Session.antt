-- ===== src/Integrations/Aiohttp/Session.antt =====
-- src/proxylib/integrations/aiohttp.py: `ProxySession`. Making, asking and closing an
-- `aiohttp.ClientSession` are arguments; a session stands for what `ClientSession(**kwargs)` returned.
use proxylib.Prelude.{ℕ, Bool, not, ◌&&◌, Option, none, some, List, [], ◌∷◌, if◌then◌else◌, is_some}
use proxylib.Python.Exec.{Result, ok, raise, type_error}
use proxylib.Python.Text.{Text}
use proxylib.Net.{Netimps}
use proxylib.Lookup.{ProxyMap}
use proxylib.Integrations.Failover.{Reply, Client}
use proxylib.Integrations.Aiohttp.{Aiohttp, Arguments, routed}

-- `_session`, `_owns` and `_session_kwargs`
pub record ProxySession (K T : Type 0) : Type 0 where
  pub current : Option T
  pub owns : Bool
  pub session_kwargs : K

-- the state of the program: the object, and the sessions of aiohttp that were closed, the newest first
pub record Held (K T S : Type 0) : Type 0 where
  pub proxy_session : ProxySession K T
  pub closed : List T
  pub rest : S

-- `ProxySession(proxymap, session, …, **session_kwargs)`; `has_kwargs` is `bool(session_kwargs)`
unfoldable pub init : {K T : Type 0} → (K → Bool) → Option T → K → Result (ProxySession K T)
init has_kwargs session session_kwargs =
    if is_some session && has_kwargs session_kwargs
    then raise type_error
    else ok (record {
      current = session;
      owns = not (is_some session);
      session_kwargs = session_kwargs;
    })

module _ {K T S : Type 0} (client_session : K → S → T × S) where
  -- the property `session`
  unfoldable pub session : Held K T S → T × Held K T S
  session h = elim h.proxy_session.current [
    | some t ↦ (t, h)
    | none ↦
        let (t, s) = client_session h.proxy_session.session_kwargs h.rest in
        (t, record h { proxy_session = record h.proxy_session { current = some t }; rest = s })
  ]

  close_current : Option T → Held K T S → Held K T S
  close_current none h = h
  close_current (some t) h = record h { closed = t ∷ h.closed }

  -- `close`, and leaving an `async with` block
  unfoldable pub close : Held K T S → Held K T S
  unfolding close_current
  close h = if h.proxy_session.owns then close_current h.proxy_session.current h else h

  -- `request` and the methods named for the verbs; `ask t` is the rest of `_request`, with the session
  unfoldable pub request : {O : Type 0} → (T → S → O × S) → Held K T S → O × Held K T S
  request ask h =
      let (t, h') = session h in let (o, s) = ask t h'.rest in (o, record h' { rest = s })

  -- what a program does with the object
  pub data Operation : Type 0 where
    ask : (T → S → S) → Operation
    close_it : Operation

  unfoldable pub perform : Operation → Held K T S → Held K T S
  perform (ask f) h = (request (λ t s. (tt {0}, f t s)) h).1
  perform close_it h = close h

  unfoldable pub perform_all : List Operation → Held K T S → Held K T S
  perform_all [] h = h
  perform_all (op ∷ ops) h = perform_all ops (perform op h)

-- `_request`, once the session is known: the keyword arguments of the call, and the session's trust in
-- the environment
unfoldable pub routed_request :
    {S E R T : Type 0}
    → ⦃net : Netimps⦄ → (aiohttp : T → Aiohttp S E R) → (trust_env : T → Bool) → Bool
    → Bool
    → Bool
    → ℕ
    → ProxyMap (Client S)
    → Text
    → Arguments
    → T
    → Client S
    → Reply E R × Client S
routed_request aiohttp trust_env already decides failover bad_proxy_ttl m url args t =
    routed (aiohttp t) already decides (trust_env t) failover bad_proxy_ttl m url args
