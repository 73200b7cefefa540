-- ===== src/Examples/Sending.antt =====
-- Requests through the client integrations, at concrete inputs.
use proxylib.Prelude.{
  ℕ, ◌+◌, ◌≡◌, refl, ap, Bool, true, false, Option, none, some, [], ◌∷◌, arith, if◌then◌else◌, here,
  there,
}
use proxylib.Python.Exec.{ok}
use proxylib.Python.Text.{Text, text, ◌==◌}
use proxylib.Proxy.{Proxy}
use proxylib.Lookup.{lookup}
use proxylib.Lookup.Chains.{lookup-own_map}
use proxylib.Integrations.Failover.{
  Outcome, responded, failed, Client, Sender, marked, send_along, send_on_map,
}
use proxylib.Integrations.Settling.{Passed, start, over, Settled, send_along-settles, Forward}
use proxylib.Integrations.Serving.{Works, AlwaysOver, Answered, send_on_map-succeeds}
use proxylib.Integrations.Httpx.{Httpx, Target, Request, Transports, get, target_of}
use proxylib.Integrations.Isolation.{after_requests, get-after_requests}
use proxylib.Samples.{offline, squid, backup, pair_answer, pair_map, tagged}

-- a client that cannot connect to the host "a"; an attempt takes one unit of time
abbrev reach : Option Proxy → ℕ → Outcome Bool ℕ × ℕ
reach none s = (responded 0, s + 1)
reach (some p) s = (if p.host == text "a" then failed true else responded 1, s + 1)

abbrev client : Sender ℕ Bool ℕ
client = record { attempt = reach; clock = λ s. s; fails_over = λ x. x; failover = true; ttl = 300 }

abbrev idle : Client ℕ
idle = record { breaker = []; rest = 5 }

send_along-settles_example :
    Settled client
      (some squid ∷ some backup ∷ [])
      idle
      (send_along client (some squid ∷ some backup ∷ []) idle)
send_along-settles_example = send_along-settles client (some squid) (some backup ∷ []) idle

squid_passed : Passed client (some squid ∷ []) idle (marked client (some squid) 6 idle)
unfolding ◌==◌
squid_passed = over true refl refl start

client-Forward : Forward client
client-Forward none s = omega arith
client-Forward (some p) s = omega arith

backup-Works : Works client (some backup)
unfolding ◌==◌
backup-Works s = (1, refl)

client_over : AlwaysOver client
client_over none s x h = cc
client_over (some p) s x h = ground (arith, h)

pair_found : (c : Client ℕ) → lookup pair_map (text "http://x") c ≡ (ok pair_answer, c)
pair_found c = lookup-own_map _ (text "http://x") c (λ ps h z. ground (arith, h, z))

send_on_map-succeeds_example : Answered (send_on_map client pair_map (text "http://x") idle).0
send_on_map-succeeds_example =
    send_on_map-succeeds client pair_map (text "http://x") idle pair_answer (some backup) refl
      (ap (λ q. q.0) (pair_found idle)) (there here) backup-Works client_over

-- an httpx whose transports are the targets that they were made for
abbrev toy_httpx : Httpx ℕ Target ℕ Bool ℕ
toy_httpx = record {
  factory = λ t. responded t;
  send_on = λ t request s. (responded 0, s);
  parse_url = λ u. responded (u, u);
  is_failover_error = λ x. x;
  own_error = λ e. false;
  monotonic = λ s. s;
  b64 = λ t. t;
}

abbrev fetch : Request ℕ
fetch = record { method = text "GET"; url = text "http://x"; headers = []; body = 0 }

abbrev fresh : Client (Transports Target ℕ)
fresh = record { breaker = []; rest = record { by_proxy = []; rest = 5 } }

pair_map-apart :
    (url : Text) (d : Client (Transports Target ℕ))
    → (lookup pair_map url d).1.rest.by_proxy ≡ d.rest.by_proxy
pair_map-apart url d =
    ap (λ q. q.1.rest.by_proxy) (lookup-own_map _ url d (λ ps h z. ground (arith, h, z)))

get-after_requests_example :
    (get toy_httpx
      (some tagged)
      (after_requests toy_httpx true 300 pair_map (fetch ∷ fetch ∷ []) fresh).rest.by_proxy).0
    ≡ toy_httpx.factory (target_of (some tagged))
get-after_requests_example =
    get-after_requests toy_httpx true 300 pair_map (fetch ∷ fetch ∷ []) fresh (some tagged)
      pair_map-apart refl
