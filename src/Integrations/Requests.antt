-- ===== src/Integrations/Requests.antt =====
-- src/proxylib/integrations/requests.py: `send`, which an adapter calls in place of its own, and what it
-- tries. requests and urllib3 are not in the repository: the adapter's own send, the proxy that requests
-- selects of a mapping and the classes of its exceptions are arguments. The context variables `_CALLER`
-- and `_CHOSEN` are an argument and a field of the call.
pub mod Sending
pub mod Target
pub mod Recording
pub mod Managers
use proxylib.Prelude.{
  ℕ, Bool, true, false, not, ◌&&◌, ◌||◌, Option, none, some, List, [], ◌∷◌, ◌++◌, if◌then◌else◌,
  is_nil, is_some, ltb, length,
}
use proxylib.Python.Exec.{
  Error, Result, ok, raise, key_error, type_error, is_a, ◌>>=◌, Exec, bind, lift, continue,
}
use proxylib.Python.Text.{Text, text, lower, is_empty, ◌==◌}
use proxylib.Python.Dict
use proxylib.Python.Dict.{Dict}
use proxylib.Python.Url.{SplitResult, urlsplit, hostname}
use proxylib.Net.{Netimps}
use proxylib.Proxy.{Proxy, is_gateway, gateway_url, uri}
use proxylib.Lookup.{
  Proxies, ProxyMap, lookup, Item, nothing, proxy, str, Answer, one, many, normalise, is_chain,
}
use proxylib.Integrations.{gateway_headers, dict_getitem}
use proxylib.Integrations.Failover.{
  Outcome, responded, failed, Reply, replied, raised, Client, Sender, send_answer,
}

-- `CaseInsensitiveDict`: the name in lower case, and the name and the value as given
abbrev pub Headers : Type 0
Headers = Dict Text (Text × Text)

unfoldable pub set_headers : Headers → List (Text × Text) → Headers
set_headers headers [] = headers
set_headers headers ((name, value) ∷ more) =
    set_headers (Dict.set ◌==◌ headers (lower name) (name, value)) more

-- `PreparedRequest`, less what it hands on unchanged
pub record Request (B : Type 0) : Type 0 where
  pub url : Text
  pub headers : Headers
  pub body : B

pub record Response (B P : Type 0) : Type 0 where
  pub request : Request B
  pub url : Text
  pub payload : P

-- `kwargs.get("proxies") or {}`: a mapping of texts, whose values are anything, or a `ProxyDict`
pub data Given (S : Type 0) : Type 0 where
  mapping : Dict Text Answer → Given S
  proxy_dict : ProxyMap (Client S) → Given S

-- the mappings of a `ChainMap`: the one entry of `ours`, and the caller's
pub data Layer (S : Type 0) : Type 0 where
  ours : Text → Option Text → Layer S
  given : Given S → Layer S

-- one call of the adapter's own send, with `_CHOSEN` while it runs
pub record Call (S B : Type 0) : Type 0 where
  pub request : Request B
  pub proxies : List (Layer S)
  pub chosen : Option (Text × List (Text × Text))

-- what `isinstance` says of an exception of requests, and of the reason in its first argument
pub data Cause : Type 0 where
  new_connection_error connect_timeout_error proxy_error other_cause : Cause

pub record Caught : Type 0 where
  pub is_proxy_error : Bool
  pub is_connect_timeout : Bool
  pub is_connection_error : Bool
  pub is_ssl_error : Bool
  pub cause : Option Cause

unfoldable pub failed_before_sending : Caught → Bool
failed_before_sending exc =
    if exc.is_proxy_error || exc.is_connect_timeout
    then true
    else if not exc.is_connection_error || exc.is_ssl_error
    then false
    else elim exc.cause [
      | none ↦ false
      | some cause ↦ elim cause [
        | new_connection_error ↦ true
        | connect_timeout_error ↦ true
        | proxy_error ↦ true
        | other_cause ↦ false
      ]
    ]

-- requests and urllib3, for one adapter
pub record Requests (S B E P : Type 0) : Type 0 where
  pub base : Call S B → S → Outcome E (Response B P) × S
  -- `utils.select_proxy`, and `utils.prepend_scheme_if_needed(uri, "http")`
  pub select_proxy : Text → Dict Text Answer → Option Answer
  pub prepend_http : Text → Text
  pub caught : E → Caught
  pub own_error : Error → E
  pub monotonic : S → ℕ
  pub b64 : Text → Text

-- `_send_kwargs`: the positional arguments by name, with the keyword arguments over them
unfoldable pub send_args : List Text
send_args = text "stream" ∷ text "timeout" ∷ text "verify" ∷ text "cert" ∷ text "proxies" ∷ []

unfoldable pub zip_names : {V : Type 0} → List Text → List V → Dict Text V
zip_names [] vs = []
zip_names (n ∷ ns) [] = []
zip_names (n ∷ ns) (v ∷ vs) = (n, v) ∷ zip_names ns vs

unfoldable pub updated : {V : Type 0} → Dict Text V → Dict Text V → Dict Text V
updated d [] = d
updated d ((k, v) ∷ more) = updated (Dict.set ◌==◌ d k v) more

unfoldable pub send_kwargs : {V : Type 0} → List V → Dict Text V → Result (Dict Text V)
send_kwargs args kwargs =
    if ltb (length send_args) (length args)
    then raise type_error
    else ok (updated (zip_names send_args args) kwargs)

-- `value is not None`
unfoldable pub present : Option Answer → Option Answer
present (some (one nothing)) = none
present found = found

-- `bool(value)`
unfoldable pub is_truthy : Answer → Bool
is_truthy (one nothing) = false
is_truthy (one (str s)) = not (is_empty s)
is_truthy (many []) = false
is_truthy _ = true

-- `isinstance(value, str) and not _is_chain(value)`
unfoldable pub is_plain : Answer → Bool
is_plain (one (str s)) = not (is_chain s)
is_plain _ = false

-- `mine if mine is not None else …`
abbrev pub mine_or : Option Answer → Option Answer → Option Answer
mine_or (some value) other = some value
mine_or none other = other

-- the entries to try, and whether they outrank the caller's `proxies`; `none` is `None`
abbrev pub Found : Type 0
Found = Option (Proxies × Bool)

module _ {S B E P : Type 0} ⦃net : Netimps⦄ (requests : Requests S B E P) where
  -- a value that requests would use: `(_normalise(value), True) if value else None`
  unfoldable pub read_value : Option Answer → Result Found
  read_value none = ok none
  read_value (some value) =
      if is_plain value
      then ok none
      else if is_truthy value
      then (do es ← normalise value; ok (some (es, true)))
      else ok none

  -- `utils.select_proxy(url, proxies) if proxies else None`
  unfoldable pub selected : Text → Given S → Option Answer
  selected url (proxy_dict m) = none
  selected url (mapping d) = if is_nil d then none else present (requests.select_proxy url d)

  -- the part of `entries` after the caller's own proxies: the map, and else what requests would use
  from_map : ProxyMap (Client S) → Text → Given S → Exec (Client S) Found
  from_map m url proxies c = elim (lookup m url c).0 [
    | ok es ↦ (ok (some (es, false)), (lookup m url c).1)
    | raise e ↦
        if is_a e key_error
        then (read_value (selected url proxies), (lookup m url c).1)
        else (raise e, (lookup m url c).1)
  ]

  -- `entries`; `caller` is `_CALLER.get()`
  unfoldable pub entries :
      ProxyMap (Client S) → Text → Bool → Option (Bool × Given S) → Given S → Exec (Client S) Found
  unfolding from_map
  entries m url patched caller (proxy_dict pm) c = elim (lookup pm url c).0 [
    | ok es ↦ (ok (some (es, true)), (lookup pm url c).1)
    | raise e ↦
        if is_a e key_error
        then from_map m url (proxy_dict pm) (lookup pm url c).1
        else (raise e, (lookup pm url c).1)
  ]
  entries m url patched none (mapping d) c = from_map m url (mapping d) c
  entries m url patched (some (trust_env, explicit)) (mapping d) c =
      let mine = selected url explicit in
      if is_some mine || (patched && not trust_env)
      then (read_value (mine_or mine (selected url (mapping d))), c)
      else from_map m url (mapping d) c
