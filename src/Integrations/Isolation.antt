-- ===== src/Integrations/Isolation.antt =====
-- src/proxylib/integrations/httpx.py: the inner transports, one for each proxy and its headers.
use proxylib.Prelude.{
  ℕ, List, ◌≡◌, refl, sym, ◌∙◌, ap, ◌↔◌, Bool, true, not, ◌&&◌, Option, none, some, [], ◌∷◌, arith,
  if◌then◌else◌, is_nil, Bool-cases, Option-cases, inl, inr,
}
use proxylib.Python.Exec.{key_error, is_a, Result-cases}
use proxylib.Python.Text.{Text, ==_iff}
use proxylib.Python.Dict
use proxylib.Python.Dict.{Dict, Lawful, get-set}
use proxylib.Net.{Netimps}
use proxylib.Proxy.{Proxy}
use proxylib.Proxy.Key.{same_headers_iff}
use proxylib.Lookup.{Proxies, ProxyMap, lookup}
use proxylib.Integrations.Failover.{
  responded, Outcome-cases, Client, Sender, marked, send_along, send_on_map, send_answer,
}
use proxylib.Integrations.Httpx.{
  TransportKey, same_transport_key, Target, no_proxy, proxy_url, proxy_with, Request, Transports,
  Httpx, dict_from, key_of, target_of, get, attempt, sender, handle_request,
}

same_transport_key_iff : (j k : TransportKey) → (same_transport_key j k ≡ true) ↔ (j ≡ k)
unfolding same_transport_key
same_transport_key_iff none none = (λ _. refl, λ _. refl)
same_transport_key_iff none (some b) = (λ h. cc, λ h. cc)
same_transport_key_iff (some a) none = (λ h. cc, λ h. cc)
same_transport_key_iff (some (u, hs)) (some (v, ks)) = (
  λ h. ground (arith, ==_iff u v, same_headers_iff hs ks),
  λ h. ground (arith, ==_iff u v, same_headers_iff hs ks),
)

same_transport_key-Lawful : Lawful same_transport_key
same_transport_key-Lawful = record {
  reflexive = λ a. (same_transport_key_iff a a).1 refl;
  symmetric = λ a b h. (same_transport_key_iff b a).1 (sym ((same_transport_key_iff a b).0 h));
  transfer = λ a b c h. ap (λ x. same_transport_key x c) ((same_transport_key_iff a b).0 h);
}

-- the target that a key stands for
abbrev target_for : TransportKey → Target
target_for none = no_proxy
target_for (some (u, hs)) = if not (is_nil hs) then proxy_with u (dict_from [] hs) else proxy_url u

module _ ⦃net : Netimps⦄ where
  target_for-key_of : (e : Option Proxy) → target_for (key_of e) ≡ target_of e
  unfolding key_of target_of
  target_for-key_of none = refl
  target_for-key_of (some p) = ground arith

module _ {S T B E R : Type 0} (httpx : Httpx S T B E R) where
  -- every transport that is kept is the one that the factory makes for its key
  abbrev pub Made : Dict TransportKey T → Type 0
  Made d =
      (k : TransportKey) (t : T)
      → Dict.get same_transport_key d k ≡ some t
      → httpx.factory (target_for k) ≡ responded t

  Made-nil : Made []
  unfolding Dict.get
  Made-nil k t found = cc

module _ {S T B E R : Type 0} ⦃net : Netimps⦄ (httpx : Httpx S T B E R) where
  -- While every transport that is kept was made for its key, the transport an entry gets is the one
  -- that the factory makes for that entry's own proxy and headers, and no other entry's.
  pub get_own :
      (e : Option Proxy) (d : Dict TransportKey T)
      → Made httpx d
      → (get httpx e d).0 ≡ httpx.factory (target_of e)
  unfolding get
  get_own e d made = elim (Option-cases (Dict.get same_transport_key d (key_of e))) [
    | inl absent ↦ elim (Outcome-cases (httpx.factory (target_of e))) [
      | inl (t, h) ↦ rw (get, absent, h) refl
      | inr (x, h) ↦ rw (get, absent, h) refl
    ]
    | inr (t, there) ↦
        rw (get, there) (sym (made (key_of e) t there) ∙ ap httpx.factory (target_for-key_of e))
  ]

  set-Made :
      (d : Dict TransportKey T) (k : TransportKey) (t : T)
      → Made httpx d
      → httpx.factory (target_for k) ≡ responded t
      → Made httpx (Dict.set same_transport_key d k t)
  set-Made d k t made h j u found = elim (Bool-cases (same_transport_key k j)) [
    | inl same ↦ rw (sym ((same_transport_key_iff k j).0 same)) (
        ground
          (arith, same, h, found, get-set same_transport_key same_transport_key-Lawful d k j t))
    | inr other ↦
        made j u (
          ground
            (arith, other, found, get-set same_transport_key same_transport_key-Lawful d k j t))
  ]

  pub get-Made :
      (e : Option Proxy) (d : Dict TransportKey T) → Made httpx d → Made httpx (get httpx e d).1
  unfolding get
  get-Made e d made = elim (Option-cases (Dict.get same_transport_key d (key_of e))) [
    | inl absent ↦ elim (Outcome-cases (httpx.factory (target_of e))) [
      | inl (t, h) ↦
          rw (get, absent, h)
            (set-Made d (key_of e) t made (ap httpx.factory (target_for-key_of e) ∙ h))
      | inr (x, h) ↦ rw (get, absent, h) made
    ]
    | inr (t, there) ↦ rw (get, there) made
  ]

  attempt-Made :
      (request : Request B) (e : Option Proxy) (s : Transports T S)
      → Made httpx s.by_proxy
      → Made httpx (attempt httpx request e s).1.by_proxy
  unfolding attempt
  attempt-Made request e s made = elim (Outcome-cases (get httpx e s.by_proxy).0) [
    | inl (t, h) ↦ rw (attempt, h) (get-Made e s.by_proxy made)
    | inr (x, h) ↦ rw (attempt, h) (get-Made e s.by_proxy made)
  ]

module _ {S E R : Type 0} ⦃net : Netimps⦄ (k : Sender S E R) (Inv : S → Type 0) where
  -- what every attempt keeps, a run keeps
  send_along-keeps :
      (es : Proxies) (c : Client S)
      → ((e : Option Proxy) (s : S) → Inv s → Inv (k.attempt e s).1)
      → Inv c.rest
      → Inv (send_along k es c).1.rest
  unfolding send_along
  send_along-keeps [] c step start = start
  send_along-keeps (e ∷ es) c step start = elim (Outcome-cases (k.attempt e c.rest).0) [
    | inl (r, h) ↦ rw (send_along, h) (step e c.rest start)
    | inr (x, h) ↦ elim (Bool-cases (k.failover && k.fails_over x)) [
      | inr stays ↦ rw (send_along, h, stays) (step e c.rest start)
      | inl goes ↦ elim (Bool-cases (is_nil es)) [
        | inl last ↦ rw (send_along, h, goes, last) (step e c.rest start)
        | inr more ↦
            rw (send_along, h, goes, more)
              (send_along-keeps es (marked k e (k.attempt e c.rest).1 c) step (step e c.rest start))
      ]
    ]
  ]

  send_on_map-keeps :
      (m : ProxyMap (Client S)) (url : Text) (c : Client S)
      → ((e : Option Proxy) (s : S) → Inv s → Inv (k.attempt e s).1)
      → Inv (lookup m url c).1.rest
      → Inv (send_on_map k m url c).1.rest
  unfolding send_on_map send_answer
  send_on_map-keeps m url c step start = elim (Result-cases (lookup m url c).0) [
    | inl (es, h) ↦ rw (send_on_map, h) (send_along-keeps _ _ step start)
    | inr (x, h) ↦ elim (Bool-cases (is_a x key_error)) [
      | inl absent ↦ rw (send_on_map, h, absent) (send_along-keeps _ _ step start)
      | inr other ↦ rw (send_on_map, h, other) start
    ]
  ]

module _ {S T B E R : Type 0} ⦃net : Netimps⦄ (httpx : Httpx S T B E R) where
  -- the state after requests through one transport object, one after the other
  abbrev pub after_requests :
      Bool
      → ℕ
      → ProxyMap (Client (Transports T S))
      → List (Request B)
      → Client (Transports T S)
      → Client (Transports T S)
  after_requests failover ttl m [] c = c
  after_requests failover ttl m (request ∷ more) c =
      after_requests failover ttl m more (handle_request httpx failover ttl m request c).1

  after_requests-Made :
      (failover : Bool) (ttl : ℕ) (m : ProxyMap (Client (Transports T S)))
      (requests : List (Request B)) (c : Client (Transports T S))
      → ((url : Text) (d : Client (Transports T S))
          → (lookup m url d).1.rest.by_proxy ≡ d.rest.by_proxy)
      → Made httpx c.rest.by_proxy
      → Made httpx (after_requests failover ttl m requests c).rest.by_proxy
  unfolding handle_request
  after_requests-Made failover ttl m [] c apart made = made
  after_requests-Made failover ttl m (request ∷ more) c apart made =
      after_requests-Made failover ttl m more _ apart (
        send_on_map-keeps (sender httpx failover ttl request) (λ s. Made httpx s.by_proxy) m
          request.url c (attempt-Made httpx request) (rw (apart request.url c) made))

  -- However many requests a transport object has served, with whatever failovers, an entry is sent on
  -- the transport that the factory makes for that entry's own proxy URL and headers (for DIRECT and a
  -- gateway, the one without a proxy): no proxy gets the headers or the credentials of another. The map
  -- is taken not to touch the transport object.
  pub get-after_requests :
      (failover : Bool) (ttl : ℕ) (m : ProxyMap (Client (Transports T S)))
      (requests : List (Request B)) (c : Client (Transports T S)) (e : Option Proxy)
      → ((url : Text) (d : Client (Transports T S))
          → (lookup m url d).1.rest.by_proxy ≡ d.rest.by_proxy)
      → c.rest.by_proxy ≡ []
      → (get httpx e (after_requests failover ttl m requests c).rest.by_proxy).0
        ≡ httpx.factory (target_of e)
  get-after_requests failover ttl m requests c e apart new =
      get_own httpx e _
        (after_requests-Made failover ttl m requests c apart (rw new (Made-nil httpx)))
