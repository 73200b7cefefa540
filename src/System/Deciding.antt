-- ===== src/System/Deciding.antt =====
-- src/proxylib/system/_nt.py: when the map of WinHTTP has no opinion.
use proxylib.Prelude.{
  ◌≡◌, refl, subst, Bool, true, false, not, ◌||◌, Option, none, some, List, [], ◌∷◌, or_else,
  Bool-cases, inl, inr,
}
use proxylib.Python.Exec.{
  Error, Result, ok, raise, key_error, is_a, ◌>>=◌, Result-cases, Exec, continue,
}
use proxylib.Python.Text.{Text, is_empty, ◌==◌}
use proxylib.Python.Url.{urlsplit}
use proxylib.Net.{Netimps}
use proxylib.Proxy.{Proxy}
use proxylib.Proxy.Parse
use proxylib.Proxy.Valid.{IsValid}
use proxylib.Proxy.Reading.{Reads, parse-Reads, urlsplit_error}
use proxylib.Lookup.{Proxies}
use proxylib.BypassRules.{parse, dialect_of}
use proxylib.SystemConfig.Deferring.{manual_map-decides}
use proxylib.System.Windows.{
  IeProxySettings, config_from_ie, parse_all, resolve_for_scheme, Queried, worked, refused,
  queried_answer, manual_lookup, winhttp_answer, winhttp_ask, winhttp_getitem,
}

-- not a `KeyError`
abbrev pub Decided : {A : Type 0} → Result A → Type 0
Decided (ok a) = Unit
Decided (raise e) = is_a e key_error ≡ false

Decided-bind :
    {A B : Type 0} (r : Result A) (f : A → Result B)
    → Decided r
    → ((a : A) → Decided (f a))
    → Decided (r >>= f)
Decided-bind (raise e) f h k = h
Decided-bind (ok a) f h k = k a

Reads-Decided : (r : Result Proxy) → Reads IsValid r → Decided r
unfolding is_a
Reads-Decided (ok p) h = tt
Reads-Decided (raise e) h = rw h refl

urlsplit-Decided : (url : Text) → Decided (urlsplit url)
unfolding is_a
urlsplit-Decided url = elim (Result-cases (urlsplit url)) [
  | inl (parts, e) ↦ rw e tt
  | inr (x, e) ↦ rw e (rw (urlsplit_error url x e) refl)
]

parse_all-Decided : (servers : List Text) → Decided (parse_all servers)
unfolding parse_all
parse_all-Decided [] = tt
parse_all-Decided (server ∷ servers) =
    Decided-bind (Parse.parse server) _ (Reads-Decided _ (parse-Reads server))
      (λ p. Decided-bind (parse_all servers) _ (parse_all-Decided servers) (λ ps. tt))

queried_answer-Decided : (url : Text) (proxy : Option Text) → Decided (queried_answer url proxy)
unfolding queried_answer resolve_for_scheme
queried_answer-Decided url proxy = elim (Bool-cases (is_empty (or_else proxy []))) [
  | inl e ↦ rw (queried_answer, e) tt
  | inr e ↦
      rw (queried_answer, e)
        (Decided-bind (resolve_for_scheme url (or_else proxy [])) _
          (Decided-bind (urlsplit url) _ (urlsplit-Decided url) (λ parts. parse_all-Decided _))
          (λ ps. tt))
]

continue-Decided :
    {S A B : Type 0} (r : Result A) (f : A → Exec S B) (s : S)
    → Decided r
    → ((a : A) (s : S) → Decided (f a s).0)
    → Decided (continue r f s).0
continue-Decided (raise e) f s h k = h
continue-Decided (ok a) f s h k = k a s

decided :
    {A : Type 0} (r : Result A) → ((e : Error) → r ≡ raise e → is_a e key_error ≡ false) → Decided r
decided (ok a) h = tt
decided (raise e) h = h e refl

module _ ⦃net : Netimps⦄ where
  config_from_ie-Decided : (ie : IeProxySettings) → Decided (config_from_ie ie)
  unfolding config_from_ie parse dialect_of ◌==◌
  config_from_ie-Decided ie = tt

module _ {S : Type 0} ⦃net : Netimps⦄ where
  manual_lookup-Decided :
      (ie : Option IeProxySettings) (url : Text) (s : S) → Decided (manual_lookup ie url s).0
  unfolding manual_lookup
  manual_lookup-Decided none url s = tt
  manual_lookup-Decided (some ie) url s =
      continue-Decided (config_from_ie ie) _ s (config_from_ie-Decided ie)
        (λ c s. decided _ (manual_map-decides c.proxies c.bypass url s))

  module _ (read_ie : Exec S (Option IeProxySettings))
      (query : Text → Bool → Text → Bool → S → Queried × S) where
    winhttp_answer-Decided :
        (url : Text) (ie : Option IeProxySettings) (q : Queried × S)
        → Decided (winhttp_answer read_ie query url ie q).0
    unfolding winhttp_answer
    winhttp_answer-Decided url ie (worked proxy, s) = queried_answer-Decided url proxy
    winhttp_answer-Decided url ie (refused code, s) = manual_lookup-Decided ie url s

    winhttp_ask-Decided :
        (url : Text) (ie : Option IeProxySettings) (s : S)
        → Decided (winhttp_ask read_ie query url ie s).0
    unfolding winhttp_ask
    winhttp_ask-Decided url none s = manual_lookup-Decided none url s
    winhttp_ask-Decided url (some ie) s =
        elim (Bool-cases (ie.auto_detect || not (is_empty (or_else ie.auto_config_url [])))) [
          | inl e ↦ rw (winhttp_ask, e) (winhttp_answer-Decided url (some ie) _)
          | inr e ↦ rw (winhttp_ask, e) (manual_lookup-Decided (some ie) url s)
        ]

    -- The map of WinHTTP has no opinion exactly when its session is closed: a lookup of an open one that
    -- raises does not raise `KeyError`, whatever the options, WinHTTP's answers and the proxies in them
    -- are, if reading the options raises none.
    pub winhttp_getitem-decides :
        (is_open : Bool) (url : Text) (s : S) (e : Error)
        → Decided (read_ie s).0
        → (winhttp_getitem read_ie query is_open url s).0 ≡ raise e
        → is_a e key_error ≡ not is_open
    unfolding winhttp_getitem is_a
    winhttp_getitem-decides false url s e h raised = rw (raised_error raised) refl
      where
        raised_error : {a b : Error} → ◌≡◌ {A = Result Proxies} (raise a) (raise b) → b ≡ a
        raised_error h = cc
    winhttp_getitem-decides true url s e h raised =
        subst Decided raised
          (continue-Decided (read_ie s).0 _ (read_ie s).1 h (winhttp_ask-Decided url))
