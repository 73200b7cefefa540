-- ===== src/Env/Reading.antt =====
-- `_read_env` inside a CGI request (httpoxy).
use proxylib.Prelude.{
  ℕ, ◌+◌, ◌-◌, ◌≡◌, refl, ap, sym, ◌∙◌, ◌≢◌, Bool, true, false, none, [], ◌∷◌, ◌++◌, arith, length,
  take, length-append, All,
}
use proxylib.Python.Text.{Text, text, lower, ends_with, ◌==◌, ==_iff}
use proxylib.Python.Dict
use proxylib.Python.Dict.{Dict, get-set, text-Lawful}
use proxylib.BypassRules.Laws.{ends_with_sound}
use proxylib.Env.{Variables, scheme_of, read_variable, read_pass, read_env}

take_of_length : (p q : Text) → take (length p) (p ++ q) ≡ p
take_of_length [] q = refl
take_of_length (c ∷ p) q = ap (λ (t : Text). c ∷ t) (take_of_length p q)

six : (n : ℕ) → n + 6 - 6 ≡ n
six n = omega arith

-- only "http_proxy" names the scheme "http"
scheme_of_http :
    (key : Text)
    → ends_with key (text "_proxy") ≡ true
    → scheme_of key ≡ text "http"
    → key ≡ text "http_proxy"
scheme_of_http key h e =
    let (p, q) = ends_with_sound key (text "_proxy") h in
    let n = length-append p (text "_proxy") in
    let same : p ≡ text "http" =
      sym (take_of_length p (text "_proxy"))
      ∙ ap (λ (k : ℕ). take k (p ++ text "_proxy")) (omega (arith, n))
      ∙ ap scheme_of (sym q)
      ∙ e in
    q ∙ ap (λ (t : Text). t ++ text "_proxy") same

-- no name of the environment is "http_proxy" in lower case
abbrev pub NoLowercase : Text × Text → Type 0
NoLowercase item = item.0 ≢ text "http_proxy"

abbrev NoHttp : Variables → Type 0
NoHttp vars = Dict.get ◌==◌ vars.proxies (text "http") ≡ none

read_variable-NoHttp :
    (insensitive pass : Bool) (item : Text × Text) (vars : Variables)
    → NoLowercase item
    → NoHttp vars
    → NoHttp (read_variable true insensitive pass item vars)
unfolding read_variable
read_variable-NoHttp insensitive pass (name, value) vars h v = ground (
  arith,
  get-set ◌==◌ text-Lawful vars.proxies (scheme_of (lower name)) (text "http") value,
  scheme_of_http (lower name),
  ==_iff (scheme_of (lower name)) (text "http"),
  ==_iff (lower name) (text "http_proxy"),
  ==_iff name (lower name),
)

read_pass-NoHttp :
    (insensitive pass : Bool) (env : Dict Text Text) (vars : Variables)
    → All NoLowercase env
    → NoHttp vars
    → NoHttp (read_pass true insensitive pass env vars)
unfolding read_pass
read_pass-NoHttp insensitive pass [] vars h v = v
read_pass-NoHttp insensitive pass (item ∷ env) vars (h, hs) v =
    read_pass-NoHttp insensitive pass env (read_variable true insensitive pass item vars) hs
      (read_variable-NoHttp insensitive pass item vars h v)

no_variables-NoHttp : NoHttp (record { proxies = []; no_proxy = none })
unfolding Dict.get
no_variables-NoHttp = refl

-- Inside a CGI request no spelling of `HTTP_PROXY` but the lower-case one gives a proxy for "http":
-- a client's `Proxy:` header cannot choose it.
pub read_env_httpoxy :
    (insensitive : Bool) (env : Dict Text Text)
    → Dict.has ◌==◌ env (text "REQUEST_METHOD") ≡ true
    → All NoLowercase env
    → Dict.get ◌==◌ (read_env insensitive env).proxies (text "http") ≡ none
unfolding read_env
read_env_httpoxy insensitive env cgi h =
    rw (cgi, read_env)
      (read_pass-NoHttp insensitive true env _ h
        (read_pass-NoHttp insensitive false env _ h no_variables-NoHttp))
