-- ===== src/Samples.antt =====
-- Concrete proxies, maps and answers of `netimps`, for the examples.
use proxylib.Prelude.{ℕ, true, false, none, some, [], ◌∷◌, if◌then◌else◌}
use proxylib.Python.Text.{text, ◌==◌}
use proxylib.Python.Exec.{ok, raise, key_error, lift}
use proxylib.Net.{Netimps}
use proxylib.Proxy.{Proxy}
use proxylib.Lookup.{Proxies, ProxyMap, own_map}
use proxylib.Wrappers.{World}
use proxylib.BypassRules.{BypassRules}
use proxylib.BypassEntry.{suffix, no_proxy}

-- a machine with no interfaces and no DNS
instance abbrev pub offline : Netimps
offline = record {
  netimps_join_host = λ host port. host;
  netimps_split_host = λ s. some (s, none);
  get_default_port = λ scheme. if scheme == text "http" then some 80 else none;
  host_ip = λ host v. none;
  resolve_system = λ host. [];
  interface_networks = [];
  link_scoped = λ a. false;
}

abbrev pub squid : Proxy
squid = record {
  scheme = text "http";
  host = text "a";
  port = some 3128;
  username = none;
  password = none;
  path = none;
  headers = [];
}

abbrev pub backup : Proxy
backup = record squid { host = text "b" }

abbrev pub tagged : Proxy
tagged = record squid { headers = (text "X", text "1") ∷ (text "Y", text "2") ∷ [] }

abbrev pub pair_answer : Proxies
pair_answer = some squid ∷ some backup ∷ []

abbrev pub silent_map : {S : Type 0} → ProxyMap S
silent_map = own_map (λ url. lift (raise key_error))

abbrev pub pair_map : {S : Type 0} → ProxyMap S
pair_map = own_map (λ url. lift (ok pair_answer))

abbrev pub start : World ℕ
start = record { now = 5; entries = []; positions = []; breaker = []; rest = 0 }

abbrev pub intranet : BypassRules
intranet = record {
  rules = suffix (text "x.y") none ∷ [];
  texts = (no_proxy, text ".x.y") ∷ [];
  loopback = true;
  reversed = false;
}
