-- ===== src/Integrations/Requests/Target.antt =====
-- src/proxylib/integrations/requests.py: whose response a request gets.
use proxylib.Prelude.{
  ℕ, ◌≡◌, ◌∙◌, sym, ap, Bool, true, false, Option, none, some, [], ◌∷◌, if◌then◌else◌, Bool-cases,
  inl, inr,
}
use proxylib.Python.Exec.{Result, ok, raise, Result-cases}
use proxylib.Python.Text.{Text}
use proxylib.Python.Url.{urlsplit, hostname}
use proxylib.Net.{Netimps}
use proxylib.Proxy.{Proxy, is_gateway, gateway_url}
use proxylib.Lookup.{Proxies, ProxyMap}
use proxylib.Integrations.Failover.{
  Outcome, responded, failed, Reply, replied, raised, Client, Sender, send_along, send_answer,
}
use proxylib.Integrations.Settling.{send_along-settles}
use proxylib.Integrations.Requests.{Request, Response, Given, Call, Requests, Found, entries}
use proxylib.Integrations.Requests.Sending.{
  as_target, send_to_gateway, proxied_call, attempt, pass_on, has_entry, sender, or_raise,
  send_found, send_to_host, send,
}

module _ {S E R : Type 0} ⦃net : Netimps⦄ (k : Sender S E R) where
  -- what a run replies is what one attempt came to
  send_along_attempt :
      (es : Proxies) (c : Client S) (o : Outcome E R)
      → (send_along k es c).0 ≡ replied o
      → (e : Option Proxy) × (s : S) × ((k.attempt e s).0 ≡ o)
  unfolding send_along
  send_along_attempt [] c o h = absurd (raised_replied h)
    where
      raised_replied : {x : _} → ◌≡◌ {A = Reply E R} (raised x) (replied o) → ⊥
      raised_replied h = cc
  send_along_attempt (e ∷ es) c o h =
      let s = send_along-settles k e es c in
      (s.last, s.reached.rest, same (sym (ap (λ y. y.0) s.ends) ∙ h))
    where
      same : {a b : Outcome E R} → ◌≡◌ {A = Reply E R} (replied a) (replied b) → a ≡ b
      same h = cc

-- The adapter's own send gives a response the request and the URL that it was asked for.
abbrev pub Labels : {S B E P : Type 0} → Requests S B E P → Type 0
Labels {S} {B} {E} {P} requests =
    (call : Call S B) (s : S) (r : Response B P)
    → (requests.base call s).0 ≡ responded r
    → (r.request ≡ call.request) × (r.url ≡ call.request.url)

abbrev pub IsOf : {B P : Type 0} → Request B → Response B P → Type 0
IsOf request r = (r.request ≡ request) × (r.url ≡ request.url)

module _ {S B E P : Type 0} ⦃net : Netimps⦄ (requests : Requests S B E P)
    (labels : Labels requests) where
  as_target-IsOf :
      (request : Request B) (o : Outcome E (Response B P)) (r : Response B P)
      → as_target request o ≡ responded r
      → IsOf request r
  unfolding as_target
  as_target-IsOf request (failed x) r h = cc
  as_target-IsOf request (responded response) r h =
      (sym (ap (λ x. x.request) (same_response h)), sym (ap (λ x. x.url) (same_response h)))
    where
      same_response :
          {a b : Response B P}
          → ◌≡◌ {A = Outcome E (Response B P)} (responded a) (responded b)
          → a ≡ b
      same_response h = cc

  attempt-IsOf :
      (request : Request B) (proxies : Given S) (key : Text) (ours_first : Bool) (e : Option Proxy)
      (s : S) (r : Response B P)
      → (attempt requests request proxies key ours_first e s).0 ≡ responded r
      → IsOf request r
  unfolding attempt send_to_gateway proxied_call
  attempt-IsOf request proxies key ours_first none s r h = labels _ s r h
  attempt-IsOf request proxies key ours_first (some p) s r h = elim (Bool-cases (is_gateway p)) [
    | inl gateway ↦ elim (Result-cases (gateway_url p request.url)) [
      | inl (url, g) ↦ as_target-IsOf request _ r (rw (gateway, send_to_gateway, g) at h)
      | inr (x, g) ↦ absurd (no_response (rw (gateway, send_to_gateway, g) at h))
    ]
    | inr other ↦ labels _ s r (rw other at h)
  ]
    where
      no_response : {x : E} → ◌≡◌ {A = Outcome E (Response B P)} (failed x) (responded r) → ⊥
      no_response h = cc

  -- what the whole request replied, when it was a response
  abbrev RepliesOf : Request B → Reply E (Response B P) → Type 0
  RepliesOf request a = (r : Response B P) → a ≡ replied (responded r) → IsOf request r

  pass_on-IsOf :
      (request : Request B) (proxies : Given S) (c : Client S)
      → RepliesOf request (pass_on requests request proxies c).0
  unfolding pass_on
  pass_on-IsOf request proxies c r h = labels _ c.rest r (same h)
    where
      same :
          {a b : Outcome E (Response B P)}
          → ◌≡◌ {A = Reply E (Response B P)} (replied a) (replied b)
          → a ≡ b
      same h = cc

  send_answer-IsOf :
      (failover : Bool) (ttl : ℕ) (request : Request B) (proxies : Given S) (key : Text)
      (ours_first : Bool) (es : Proxies) (c : Client S)
      → RepliesOf request
          (send_answer (sender requests failover ttl request proxies key ours_first) es c).0
  unfolding send_answer
  send_answer-IsOf failover ttl request proxies key ours_first es c r h =
      let (e, s, o) =
        send_along_attempt (sender requests failover ttl request proxies key ours_first) _ c
          (responded r) h in
      attempt-IsOf request proxies key ours_first e s r o

  -- whatever the statement before gave, the rest replies with responses of the request only
  or_raise-IsOf :
      {A : Type 0} (request : Request B) (q : Result A × Client S)
      (f : A → Client S → Reply E (Response B P) × Client S)
      → ((a : A) (c : Client S) → RepliesOf request (f a c).0)
      → RepliesOf request (or_raise q f).0
  unfolding or_raise
  or_raise-IsOf request (raise e, c) f all r h = cc
  or_raise-IsOf request (ok a, c) f all r h = all a c r h

  send_found-IsOf :
      (failover : Bool) (ttl : ℕ) (request : Request B) (proxies : Given S) (key : Text)
      (found : Found) (c : Client S)
      → RepliesOf request (send_found requests failover ttl request proxies key found c).0
  unfolding send_found
  send_found-IsOf failover ttl request proxies key none c = pass_on-IsOf request proxies c
  send_found-IsOf failover ttl request proxies key (some (es, true)) c =
      send_answer-IsOf failover ttl request proxies key true es c
  send_found-IsOf failover ttl request proxies key (some (es, false)) c =
      or_raise-IsOf request (has_entry requests proxies key c) _ (λ there d.
        elim there
          as (λ b.
            RepliesOf request
              (if b
                then pass_on requests request proxies d
                else send_answer (sender requests failover ttl request proxies key false) es d).0) [
                  | true ↦ pass_on-IsOf request proxies d
                  | false ↦ send_answer-IsOf failover ttl request proxies key false es d
                ])

  send_to_host-IsOf :
      (failover : Bool) (ttl : ℕ) (patched : Bool) (caller : Option (Bool × Given S))
      (m : ProxyMap (Client S)) (request : Request B) (proxies : Given S) (scheme : Text)
      (host : Option Text) (c : Client S)
      → RepliesOf request
          (send_to_host requests failover ttl patched caller m request proxies scheme host c).0
  unfolding send_to_host
  send_to_host-IsOf failover ttl patched caller m request proxies scheme none c =
      pass_on-IsOf request proxies c
  send_to_host-IsOf failover ttl patched caller m request proxies scheme (some host) c =
      or_raise-IsOf request (entries requests m request.url patched caller proxies c) _
        (send_found-IsOf failover ttl request proxies _)

  -- A response that the caller gets is the response to the caller's own request and URL, through any
  -- entry, a URL-prefix gateway included, and after any failover, so that cookies and redirects belong
  -- to the target; this rests on requests giving a response the request it was asked to send.
  pub send-IsOf :
      (failover : Bool) (ttl : ℕ) (patched : Bool) (caller : Option (Bool × Given S))
      (m : ProxyMap (Client S)) (request : Request B) (proxies : Given S) (c : Client S)
      (r : Response B P)
      → (send requests failover ttl patched caller m request proxies c).0 ≡ replied (responded r)
      → (r.request ≡ request) × (r.url ≡ request.url)
  unfolding send
  send-IsOf failover ttl patched caller m request proxies c r h =
      or_raise-IsOf request (urlsplit request.url, c) _
        (λ parts d.
          send_to_host-IsOf failover ttl patched caller m request proxies parts.scheme
            (hostname parts) d)
        r h
