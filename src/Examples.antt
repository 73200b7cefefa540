-- ===== src/Examples.antt =====
-- The theorems at concrete inputs.
pub mod Maps
pub mod Rules
pub mod Clients
pub mod Sending
pub mod Adapters
pub mod Machines
pub mod Courses
pub mod Pipes
pub mod Downloads
pub mod Steps
pub mod Resources
pub mod Lists
pub mod Handles
use mathlib.Core.List.{Perm}
use mathlib.Core.List.Perm
use proxylib.Prelude.{
  ℕ, zero, suc, ◌≡◌, refl, ◌≢◌, ◌↔◌, ◌⊎◌, Bool, true, false, Option, none, some, List, [], ◌∷◌, map,
  All, arith,
}
use proxylib.Python.Text.{Text, text, ◌==◌, lower_char, starts_with}
use proxylib.Python.Exec.{Result, ok, raise}
use proxylib.Proxy.{
  Proxy, init, rebuild, alias, port_ok, check_path, header_ok, is_gateway_scheme,
  has_gateway_prefix, is_socks,
}
use proxylib.Proxy.Valid.{IsValid, init-IsValid, rebuild_of_IsValid}
use proxylib.Proxy.Key.{same_proxy, key, canonical, same_proxy_iff}
use proxylib.Proxy.Headers.{same_proxy_of_perm}
use proxylib.Proxy.Parse.{parse, parse_pac_result}
use proxylib.Proxy.Reading.{Reads, ValidEntry, parse-Reads, parse_pac_result_total}
use proxylib.Glob.{compile, glob_match, sh_exp_match}
use proxylib.Glob.Laws.{Names, glob_match_iff, sh_exp_match_iff}
use proxylib.Samples.{offline, squid, backup, tagged}

squid_made : init (text "PROXY") (text "A") (some 3128) none none none [] ≡ ok squid
unfolding init alias port_ok check_path is_gateway_scheme has_gateway_prefix is_socks ◌==◌
    lower_char starts_with
squid_made = refl

init-IsValid_example : IsValid squid
init-IsValid_example =
    init-IsValid (text "PROXY") (text "A") (some 3128) none none none [] squid_made

parse-Reads_example : Reads IsValid (parse (text "http://u:p@host:8080"))
parse-Reads_example = parse-Reads (text "http://u:p@host:8080")

parse_pac_result_total_example :
    (ps : List (Option Proxy)) × (parse_pac_result (text "PROXY a:3128; DIRECT") ≡ ok ps)
    × (ps ≢ [])
    × All ValidEntry ps
parse_pac_result_total_example = parse_pac_result_total (text "PROXY a:3128; DIRECT")

glob_match_iff_example :
    (glob_match (text "*.Corp") (text "www.corp") ≡ true)
    ↔ Names lower_char (text "*.Corp") (text "www.corp")
glob_match_iff_example = glob_match_iff (text "*.Corp") (text "www.corp")
