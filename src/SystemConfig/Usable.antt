-- ===== src/SystemConfig/Usable.antt =====
-- src/proxylib/system/_config.py: the proxies that a text of settings can name.
use proxylib.Prelude.{
  eqb, Option, none, some, List, [], ◌∷◌, All, All-append, Option-cases, Bool-cases, inl, inr,
}
use proxylib.Python.Exec.{Result, ok, raise}
use proxylib.Python.Text.{Text, text, lower, strip, cut, ◌==◌, rstrip, is_empty}
use proxylib.Python.Dict
use proxylib.Python.Dict.{Dict}
use proxylib.Proxy.{Proxy}
use proxylib.Proxy.Valid.{IsValid}
use proxylib.Proxy.Reading.{Reads, parse-Reads}
use proxylib.SystemConfig.Settings.{
  parsed, proxy_from, default_all, set_proxy, read_token, read_tokens, parse_proxy_list,
  is_protocol,
}

abbrev pub ValidOption : Option Proxy → Type 0
ValidOption none = Unit
ValidOption (some p) = IsValid p

abbrev pub ValidValues : Dict Text Proxy → Type 0
ValidValues d = All (λ e. IsValid e.1) d

parsed-Valid : (r : Result Proxy) → Reads IsValid r → ValidOption (parsed r)
unfolding parsed
parsed-Valid (ok p) h = h
parsed-Valid (raise e) h = tt

-- A proxy that a setting names is valid, whatever the setting's text is.
pub proxy_from-Valid : (value scheme : Text) → ValidOption (proxy_from value scheme)
unfolding proxy_from
proxy_from-Valid value scheme = elim (Bool-cases (is_empty (rstrip (eqb b'/') (strip value)))) [
  | inl e ↦ rw (e, proxy_from) tt
  | inr e ↦ elim (Option-cases (cut (text "://") (rstrip (eqb b'/') (strip value)))) [
    | inl n ↦ rw (e, n, proxy_from) (parsed-Valid _ (parse-Reads _))
    | inr (x, n) ↦ rw (e, n, proxy_from) (parsed-Valid _ (parse-Reads _))
  ]
]

set-Valid :
    (d : Dict Text Proxy) (k : Text) (p : Proxy)
    → ValidValues d
    → IsValid p
    → ValidValues (Dict.set ◌==◌ d k p)
unfolding Dict.set
set-Valid [] k p h v = (v, tt)
set-Valid ((j, q) ∷ d) k p (w, h) v = elim (Bool-cases (j == k)) [
  | inl e ↦ rw e (v, h)
  | inr e ↦ rw e (w, set-Valid d k p h v)
]

setdefault-Valid :
    (d : Dict Text Proxy) (k : Text) (p : Proxy)
    → ValidValues d
    → IsValid p
    → ValidValues (Dict.setdefault ◌==◌ d k p)
unfolding Dict.setdefault
setdefault-Valid d k p h v = elim (Bool-cases (Dict.has ◌==◌ d k)) [
  | inl e ↦ rw e h
  | inr e ↦ rw e (All-append (λ e. IsValid e.1) d ((k, p) ∷ []) h (v, tt))
]

default_all-Valid :
    (o : Option Proxy) (d : Dict Text Proxy)
    → ValidOption o
    → ValidValues d
    → ValidValues (default_all o d)
unfolding default_all
default_all-Valid none d v h = h
default_all-Valid (some p) d v h =
    setdefault-Valid _ (text "ftp") p
      (setdefault-Valid _ (text "https") p (setdefault-Valid d (text "http") p h v) v) v

set_proxy-Valid :
    (k : Text) (o : Option Proxy) (d : Dict Text Proxy)
    → ValidOption o
    → ValidValues d
    → ValidValues (set_proxy k o d)
unfolding set_proxy
set_proxy-Valid k none d v h = h
set_proxy-Valid k (some p) d v h = set-Valid d k p h v

read_token-Valid :
    (socks_scheme token : Text) (d : Dict Text Proxy)
    → ValidValues d
    → ValidValues (read_token socks_scheme token d)
unfolding read_token
read_token-Valid socks_scheme token d h = elim (Option-cases (cut (text "=") token)) [
  | inl n ↦ rw (n, read_token) (default_all-Valid _ d (proxy_from-Valid token (text "http")) h)
  | inr ((given, server), e) ↦ elim (Bool-cases (is_protocol (lower (strip given)))) [
    | inl b ↦ rw (e, b, read_token) (set_proxy-Valid _ _ d (proxy_from-Valid server _) h)
    | inr b ↦ rw (e, b, read_token) h
  ]
]

read_tokens-Valid :
    (socks_scheme : Text) (tokens : List Text) (d : Dict Text Proxy)
    → ValidValues d
    → ValidValues (read_tokens socks_scheme tokens d)
unfolding read_tokens
read_tokens-Valid socks_scheme [] d h = h
read_tokens-Valid socks_scheme (token ∷ tokens) d h =
    read_tokens-Valid socks_scheme tokens _ (read_token-Valid socks_scheme token d h)

-- Every proxy that a Windows proxy list gives is valid, whatever its text is.
pub parse_proxy_list-Valid : (s socks_scheme : Text) → ValidValues (parse_proxy_list s socks_scheme)
unfolding parse_proxy_list
parse_proxy_list-Valid s socks_scheme = read_tokens-Valid socks_scheme _ [] tt
