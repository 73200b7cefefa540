-- ===== src/Integrations/Httpx/Closing.antt =====
-- src/proxylib/integrations/httpx.py: `close` and `aclose`, and the asynchronous `handle_async_request`.
use proxylib.Prelude.{
  ℕ, ◌≡◌, refl, sym, ap, ◌∙◌, Bool, Option, none, some, List, [], ◌∷◌, ◌++◌, append-nil,
  append_assoc, Option-cases, inl, inr,
}
use proxylib.Python.Exec.{ok, Exec, bind}
use proxylib.Python.Text.{Text}
use proxylib.Python.Dict
use proxylib.Python.Dict.{Dict, set_absent}
use proxylib.Net.{Netimps}
use proxylib.Proxy.{Proxy}
use proxylib.Lookup.{Proxies, ProxyMap, lookup}
use proxylib.Integrations.Failover.{responded, failed, Outcome-cases, Reply, Client, send_on_map}
use proxylib.Integrations.Httpx.{
  TransportKey, same_transport_key, Request, Transports, Httpx, key_of, target_of, values, get,
  pop_all, sender,
}

-- `alookup`: `lookup`, in a worker thread
unfoldable pub alookup : {S : Type 0} → ⦃net : Netimps⦄ → ProxyMap S → Text → Exec S Proxies
alookup m url = lookup m url

module _ {S T B E R : Type 0} ⦃net : Netimps⦄ (httpx : Httpx S T B E R) where
  -- `AsyncProxyTransport.handle_async_request`, whose loop is that of `handle_request`
  unfoldable pub handle_async_request :
      Bool
      → ℕ
      → ProxyMap (Client (Transports T S))
      → Request B
      → Client (Transports T S)
      → Reply E R × Client (Transports T S)
  handle_async_request failover bad_proxy_ttl m request =
      send_on_map (sender httpx failover bad_proxy_ttl request) m request.url

-- the `for` loop: an exception of `transport.close()` ends it
unfoldable pub close_each : {Q T : Type 0} → (T → Exec Q (Unit {0})) → List T → Exec Q (Unit {0})
close_each close_one [] s = (ok tt, s)
close_each close_one (t ∷ ts) s = bind (close_one t) (λ _. close_each close_one ts) s

-- `close` and `aclose`
unfoldable pub close :
    {S Q T B E R : Type 0}
    → ⦃net : Netimps⦄ → Httpx S T B E R
    → (T → Exec Q (Unit {0}))
    → Exec (Transports T Q) (Unit {0})
close httpx close_one w =
    let (transports, by_proxy) = pop_all httpx w.by_proxy in
    let (r, rest) = close_each close_one transports w.rest in
    (r, record { by_proxy = by_proxy; rest = rest })

-- The transports that were made, in their order, those whose `close` was called, and the rest of the state.
pub record Ledger (T S : Type 0) : Type 0 where
  pub made : List T
  pub closed : List T
  pub rest : S

-- `transport.close()`, which the ledger notes
abbrev pub noted : {T S : Type 0} → (T → Exec S (Unit {0})) → T → Exec (Ledger T S) (Unit {0})
noted close_one t l =
    let (r, s) = close_one t l.rest in (r, record l { closed = l.closed ++ t ∷ []; rest = s })

-- what a client does with the transports
pub data Operation : Type 0 where
  use_for : Option Proxy → Operation
  close_all : Operation

values-append :
    {T : Type 0} (d : Dict TransportKey T) (k : TransportKey) (t : T)
    → values (d ++ (k, t) ∷ []) ≡ values d ++ t ∷ []
values-append [] k t = refl
values-append ((j, u) ∷ d) k t = ap (λ l. u ∷ l) (values-append d k t)

module _ {S T B E R : Type 0} ⦃net : Netimps⦄ (httpx : Httpx S T B E R) where
  -- the transport that `get` makes, where it makes one
  unfoldable pub newly_made : Option Proxy → Dict TransportKey T → List T
  newly_made entry by_proxy = elim (Dict.get same_transport_key by_proxy (key_of entry)) [
    | some transport ↦ []
    | none ↦ elim (httpx.factory (target_of entry)) [
      | failed x ↦ []
      | responded transport ↦ transport ∷ []
    ]
  ]

  get-values :
      (entry : Option Proxy) (d : Dict TransportKey T)
      → values (get httpx entry d).1 ≡ values d ++ newly_made entry d
  unfolding get newly_made
  get-values entry d = elim (Option-cases (Dict.get same_transport_key d (key_of entry))) [
    | inr (t, e) ↦ rw (get, newly_made, e) (sym (append-nil (values d)))
    | inl e ↦ elim (Outcome-cases (httpx.factory (target_of entry))) [
      | inl (t, f) ↦
          rw (get, newly_made, e, f)
            (ap values (set_absent same_transport_key d (key_of entry) t e)
              ∙ values-append d (key_of entry) t)
      | inr (x, f) ↦ rw (get, newly_made, e, f) (sym (append-nil (values d)))
    ]
  ]

  module _ {Q : Type 0} (close_one : T → Exec Q (Unit {0})) where
    unfoldable pub perform : Operation → Transports T (Ledger T Q) → Transports T (Ledger T Q)
    perform (use_for entry) w = record {
      by_proxy = (get httpx entry w.by_proxy).1;
      rest = record w.rest { made = w.rest.made ++ newly_made entry w.by_proxy };
    }
    perform close_all w = (close httpx (noted close_one) w).1

    unfoldable pub perform_all :
        List Operation → Transports T (Ledger T Q) → Transports T (Ledger T Q)
    perform_all [] w = w
    perform_all (op ∷ ops) w = perform_all ops (perform op w)

    -- no `close` of a transport raises
    abbrev pub Quiet : Type 0
    Quiet = (t : T) (s : Q) → (close_one t s).0 ≡ ok tt

    -- the transports made are those closed, in their order, and then those that are open
    abbrev pub Accounted : Transports T (Ledger T Q) → Type 0
    Accounted w = w.rest.made ≡ w.rest.closed ++ values w.by_proxy

    close_each-closed :
        (ts : List T) (l : Ledger T Q)
        → Quiet
        → ((close_each (noted close_one) ts l).1.closed ≡ l.closed ++ ts)
          × ((close_each (noted close_one) ts l).1.made ≡ l.made)
    unfolding close_each
    close_each-closed [] l quiet = (sym (append-nil l.closed), refl)
    close_each-closed (t ∷ ts) l quiet =
        let (closed, made) = close_each-closed ts (noted close_one t l).1 quiet in
        rw (quiet t l.rest) (closed ∙ append_assoc l.closed (t ∷ []) ts, made)

    perform-Accounted :
        (op : Operation) (w : Transports T (Ledger T Q))
        → Quiet
        → Accounted w
        → Accounted (perform op w)
    unfolding perform close pop_all
    perform-Accounted (use_for entry) w quiet h =
        ap (λ ts. ts ++ newly_made entry w.by_proxy) h
        ∙ append_assoc w.rest.closed (values w.by_proxy) (newly_made entry w.by_proxy)
        ∙ ap (λ ts. w.rest.closed ++ ts) (sym (get-values entry w.by_proxy))
    perform-Accounted close_all w quiet h =
        let (closed, made) = close_each-closed (values w.by_proxy) w.rest quiet in
        made ∙ h ∙ sym closed ∙ sym (append-nil _)

    perform_all-Accounted :
        (ops : List Operation) (w : Transports T (Ledger T Q))
        → Quiet
        → Accounted w
        → Accounted (perform_all ops w)
    unfolding perform_all
    perform_all-Accounted [] w quiet h = h
    perform_all-Accounted (op ∷ ops) w quiet h =
        perform_all-Accounted ops (perform op w) quiet (perform-Accounted op w quiet h)

    -- Whatever requests a client sends and however often it is closed in between, `close` at the end has
    -- called `close` of each transport that was made, once, in the order in which they were made, and leaves
    -- none, where no `close` of a transport raises. (An exception of one ends the loop over the others.)
    pub close_all-closes :
        (ops : List Operation) (rest : Q)
        → Quiet
        → let w =
            (close httpx (noted close_one) (
              perform_all ops (record {
                by_proxy = [];
                rest = record { made = []; closed = []; rest = rest };
              }))).1 in
          (w.rest.closed ≡ w.rest.made) × (w.by_proxy ≡ [])
    unfolding perform close pop_all
    close_all-closes ops rest quiet =
        let start : Transports T (Ledger T Q) = record {
          by_proxy = [];
          rest = record { made = []; closed = []; rest = rest };
        } in
        let w = perform_all ops start in
        let (closed, made) = close_each-closed (values w.by_proxy) w.rest quiet in
        (closed ∙ sym (perform_all-Accounted ops start quiet refl) ∙ sym made, refl)
