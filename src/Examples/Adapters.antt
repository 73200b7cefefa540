-- ===== src/Examples/Adapters.antt =====
-- Requests through requests, aiohttp and urllib, at concrete inputs.
use proxylib.Prelude.{
  ℕ, ◌≡◌, refl, Bool, true, false, not, ◌&&◌, ◌||◌, none, some, [], ◌∷◌, arith, keep, is_nil,
  is_some, if◌then◌else◌,
}
use proxylib.Python.Exec.{ok, unsupported_proxy_error}
use proxylib.Python.Text.{
  Text, text, cut, rcut, lstrip, rstrip, starts_with, is_space, lower_char, upper_char, ◌==◌,
}
use proxylib.Python.Dict
use proxylib.Python.Url.{SplitResult, urlsplit, hostname}
use proxylib.Lookup.{
  lookup, one, str, answer_for, own_map, normalise, normalise_all, normalise_one, is_chain,
  is_pac_result,
}
use proxylib.Lookup.Chains.{lookup-own_map}
use proxylib.Health.{is_bad, is_skipped, order_from, order_by_health, health_key}
use proxylib.Integrations.Failover.{
  responded, replied, raised, Client, send_answer, send_along, candidates,
}
use proxylib.Integrations.Requests
use proxylib.Integrations.Requests.{
  Requests, Response, Given, mapping, Call, Caught, selected, read_value, mine_or, present,
  is_plain, entries,
}
use proxylib.Integrations.Requests.Sending.{send, send_found, has_entry, attempt, proxied_call}
use proxylib.Integrations.Requests.Target.{send-IsOf}
use proxylib.Integrations.Aiohttp.{
  Aiohttp, Arguments, routed, routed_entries, map_entries, sender, is_tunnelled,
}
use proxylib.Integrations.Urllib
use proxylib.Integrations.Urllib.{Urllib, resolve, open_entry}
use proxylib.Integrations.Speaking.{cannot_speak, routed-speaks}
use proxylib.Samples.{offline, pair_answer, pair_map}

abbrev site : Text
site = text "http://x/"

abbrev site_parts : SplitResult
site_parts = record {
  scheme = text "http";
  netloc = text "x";
  path = text "/";
  query = [];
  fragment = [];
}

site_split : urlsplit site ≡ ok site_parts
unfolding urlsplit cut lstrip starts_with lower_char
site_split = refl

abbrev quiet : Client ℕ
quiet = record { breaker = []; rest = 5 }

pair_found : lookup pair_map site quiet ≡ (ok pair_answer, quiet)
pair_found = lookup-own_map _ site quiet (λ ps h z. ground (arith, h, z))

-- requests where every request succeeds, which selects the plain proxy of any mapping that is not empty
abbrev toy_requests : Requests ℕ ℕ Bool ℕ
toy_requests = record {
  base = λ call s.
      (responded (record { request = call.request; url = call.request.url; payload = 7 }), s);
  select_proxy = λ url d. some (one (str (text "http://p:1")));
  prepend_http = λ t. t;
  caught = λ x. record {
    is_proxy_error = x;
    is_connect_timeout = false;
    is_connection_error = false;
    is_ssl_error = false;
    cause = none;
  };
  own_error = λ e. false;
  monotonic = λ s. s;
  b64 = λ t. t;
}

abbrev fetch : Requests.Request ℕ
fetch = record { url = site; headers = []; body = 0 }

abbrev answered : Response ℕ ℕ
answered = record { request = fetch; url = site; payload = 7 }

send_responds :
    (send toy_requests true 300 false none pair_map fetch (mapping []) quiet).0
    ≡ replied (responded answered)
unfolding send urlsplit cut rcut lstrip starts_with hostname entries lookup answer_for own_map
    normalise normalise_all normalise_one send_found has_entry present Dict.get send_answer
    candidates order_by_health order_from is_bad is_skipped send_along attempt proxied_call ◌==◌
    health_key lower_char
send_responds = refl

toy_labels :
    (call : Call ℕ ℕ) (s : ℕ) (r : Response ℕ ℕ)
    → (toy_requests.base call s).0 ≡ responded r
    → (r.request ≡ call.request) × (r.url ≡ call.request.url)
toy_labels call s r h = (ground (arith, h), ground (arith, h))

send-IsOf_example : (answered.request ≡ fetch) × (answered.url ≡ fetch.url)
send-IsOf_example =
    send-IsOf toy_requests toy_labels true 300 false none pair_map fetch (mapping []) quiet answered
      send_responds

abbrev explicit : Given ℕ
explicit = mapping ((text "http", one (str (text "http://p:1"))) ∷ [])

explicit-selected : is_some (selected toy_requests site explicit) || false ≡ true
unfolding selected present
explicit-selected = refl

explicit_plain :
    read_value toy_requests
      (mine_or (selected toy_requests site explicit) (selected toy_requests site (mapping [])))
    ≡ ok none
unfolding selected present read_value is_chain is_pac_result starts_with lstrip ◌==◌ is_plain
    is_space upper_char rstrip lower_char
explicit_plain = refl

abbrev toy_aiohttp : Aiohttp ℕ Bool ℕ
toy_aiohttp = record {
  send = λ args s. (responded 0, s);
  is_failover_error = λ x. x;
  monotonic = λ s. s;
  environment = [];
  proxy_bypass = λ host. false;
}

abbrev plain_arguments : Arguments
plain_arguments = record { proxy = none; proxy_headers = []; headers = [] }

pair_entries :
    (routed_entries toy_aiohttp true false pair_map site none quiet).0 ≡ ok (some pair_answer)
unfolding routed_entries map_entries
pair_entries = rw (routed_entries, map_entries, pair_found) refl

routed-speaks_example :
    routed toy_aiohttp false true false true 300 pair_map site plain_arguments quiet ≡ (
      let c' = (routed_entries toy_aiohttp true false pair_map site none quiet).1 in
      let kept = keep (λ e. not (cannot_speak e)) pair_answer in
      if not (is_nil pair_answer) && is_nil kept
      then (raised unsupported_proxy_error, c')
      else send_answer
          (sender toy_aiohttp true 300 (is_tunnelled site_parts) plain_arguments)
          kept
          c')
routed-speaks_example =
    routed-speaks toy_aiohttp true false true 300 pair_map site plain_arguments quiet pair_answer
      site_parts site_split pair_entries

abbrev toy_urllib : Urllib
toy_urllib = record {
  getproxies = [];
  proxy_bypass = λ host. false;
  capitalize = λ t. t;
  type_of = λ t. text "http";
  host_of = λ t. t;
  has_handler = λ t. true;
  b64 = λ t. t;
}

abbrev open_site : Urllib.Request ℕ
open_site = record {
  full_url = site;
  kind = text "http";
  host = text "x";
  headers = [];
  unredirected = [];
  body = 0;
}
