-- ===== src/System/Resolvers.antt =====
-- src/proxylib/system/_darwin.py (`CFNetworkProxyMap`): what CFNetwork answers, as proxies. CFNetwork is an
-- argument: the entries it gives, and what running a PAC for it comes to. What it allocates is in
-- System/References.
use proxylib.Prelude.{ℕ, zero, suc, Option, none, some, List, [], ◌∷◌, ◌++◌, if◌then◌else◌, or_else}
use proxylib.Python.Exec.{Result, ok, raise, key_error, ◌>>=◌, Exec}
use proxylib.Python.Text.{Text, text, is_empty}
use proxylib.Proxy.Parse.{parse, or_direct}
use proxylib.Lookup.{Proxies}

-- the value of `kCFProxyTypeKey`, and the other values of one entry
pub data ProxyType : Type 0 where
  no_proxy_type pac_url_type http_type https_type socks_type ftp_type other_type : ProxyType

pub record CfEntry : Type 0 where
  pub kind : ProxyType
  pub pac_url : Option Text
  pub host : Option Text
  pub port : Option ℕ

-- the pairs that `_parse_proxy_entry` returns
pub data ParsedEntry : Type 0 where
  direct_entry skipped_entry : ParsedEntry
  proxy_entry : Text → ParsedEntry
  pac_entry : Option Text → ParsedEntry

unfoldable pub scheme_of : ProxyType → Option Text
scheme_of http_type = some (text "http")
scheme_of https_type = some (text "http")
scheme_of socks_type = some (text "socks5")
scheme_of ftp_type = some (text "ftp")
scheme_of _ = none

-- `f"{scheme}://{host}:{port}" if port else f"{scheme}://{host}"`; `decimal` writes a number out
unfoldable pub entry_url : (ℕ → Text) → Text → Text → Option ℕ → Text
entry_url decimal scheme host none = scheme ++ (text "://" ++ host)
entry_url decimal scheme host (some zero) = scheme ++ (text "://" ++ host)
entry_url decimal scheme host (some (suc n)) =
    scheme ++ (text "://" ++ (host ++ (text ":" ++ decimal (suc n))))

unfoldable pub parse_host_entry : (ℕ → Text) → Option Text → CfEntry → ParsedEntry
parse_host_entry decimal none entry = skipped_entry
parse_host_entry decimal (some scheme) entry =
    let host = or_else entry.host [] in
    if is_empty host then skipped_entry else proxy_entry (entry_url decimal scheme host entry.port)

-- `_parse_proxy_entry`
unfoldable pub parse_proxy_entry : (ℕ → Text) → CfEntry → ParsedEntry
parse_proxy_entry decimal entry = elim entry.kind [
  | no_proxy_type ↦ direct_entry
  | pac_url_type ↦ pac_entry entry.pac_url
  | http_type ↦ parse_host_entry decimal (scheme_of http_type) entry
  | https_type ↦ parse_host_entry decimal (scheme_of https_type) entry
  | socks_type ↦ parse_host_entry decimal (scheme_of socks_type) entry
  | ftp_type ↦ parse_host_entry decimal (scheme_of ftp_type) entry
  | other_type ↦ parse_host_entry decimal (scheme_of other_type) entry
]

-- the entries of a PAC's result; DIRECT is `none`
unfoldable pub pac_results : (ℕ → Text) → List CfEntry → List (Option Text)
pac_results decimal [] = []
pac_results decimal (entry ∷ entries) =
    let rest = pac_results decimal entries in
    elim (parse_proxy_entry decimal entry) [
      | skipped_entry ↦ rest
      | direct_entry ↦ none ∷ rest
      | pac_entry url ↦ none ∷ rest
      | proxy_entry url ↦ some url ∷ rest
    ]

-- `Proxy.parse(entry) if entry else None`, entry by entry
unfoldable pub parse_results : List (Option Text) → Result Proxies
parse_results [] = ok []
parse_results (none ∷ rs) = do ps ← parse_results rs; ok (none ∷ ps)
parse_results (some url ∷ rs) = do p ← parse url; ps ← parse_results rs; ok (some p ∷ ps)

module _ {S : Type 0} (decimal : ℕ → Text) (run_pac : Text → S → Option (List CfEntry) × S) where
  -- the loop of `_resolve_proxies_for_url`: the results, or no answer
  unfoldable pub cf_results : List CfEntry → S → Option (List (Option Text)) × S
  cf_results [] s = (some [], s)
  cf_results (entry ∷ entries) s = elim (parse_proxy_entry decimal entry) [
    | skipped_entry ↦ cf_results entries s
    | direct_entry ↦ (append_to (none ∷ []) (cf_results entries s).0, (cf_results entries s).1)
    | proxy_entry url ↦
        (append_to (some url ∷ []) (cf_results entries s).0, (cf_results entries s).1)
    | pac_entry url ↦
        let ran = run_pac (or_else url []) s in
        let rest = cf_results entries ran.1 in
        if is_empty (or_else url []) then (none, s) else elim ran.0 [
          | none ↦ (none, ran.1)
          | some found ↦ (append_to (pac_results decimal found) rest.0, rest.1)
        ]
  ]
    where
      append_to : List (Option Text) → Option (List (Option Text)) → Option (List (Option Text))
      append_to xs none = none
      append_to xs (some ys) = some (xs ++ ys)

  -- `CFNetworkProxyMap.__getitem__`; `found`: the entries that CFNetwork copies, where it answers
  unfoldable pub cf_getitem : Option (List CfEntry) → Exec S Proxies
  cf_getitem none s = (raise key_error, s)
  cf_getitem (some entries) s = elim (cf_results entries s).0 [
    | none ↦ (raise key_error, (cf_results entries s).1)
    | some results ↦ ((do ps ← parse_results results; ok (or_direct ps)), (cf_results entries s).1)
  ]
