-- ===== src/Pac/Map.antt =====
-- src/proxylib/pac/map.py: `PacProxyMap.__getitem__`. The script is a `PacScript`, or a Python function
-- whose call is an argument; `none` is a result that is not a text.
use proxylib.Prelude.{
  ◌≡◌, refl, ap, ◌∙◌, Bool, true, ◌&&◌, Option, none, some, [], ◌∷◌, ◌++◌, arith, ◌≢◌,
  if◌then◌else◌, or_else, All, arith,
}
use proxylib.Python.Exec.{Error, Result, ok, raise, pac_error, ◌>>=◌, Exec}
use proxylib.Python.Text.{Text, text, lower, ◌==◌, ==_iff}
use proxylib.Python.Url.{SplitResult, urlsplit, hostname}
use proxylib.Net.{Netimps}
use proxylib.Lookup.{Proxies}
use proxylib.Proxy.Parse.{parse_pac_result}
use proxylib.Proxy.Reading.{parse_pac_result_total, ValidEntry}

-- `self.script`: what `find_proxy_for_url` of a `PacScript` does, or a call of a Python function
pub data Script (S : Type 0) : Type 0 where
  pac_script : (Text → Text → Exec S Text) → Script S
  function : (Text → Text → Exec S (Option Text)) → Script S

-- the URL that the script sees
unfoldable pub seen_url : Bool → SplitResult → Text → Text
seen_url browser_compatibility parts url =
    if browser_compatibility && lower parts.scheme == text "https"
    then parts.scheme ++ (text "://" ++ (parts.netloc ++ text "/"))
    else url

-- `except Exception as exc: raise PACError`
as_pac_error : Result (Option Text) → Result (Option Text)
as_pac_error (ok r) = ok r
as_pac_error (raise e) = raise pac_error

given : Result Text → Result (Option Text)
given r = do t ← r; ok (some t)

unfoldable pub run : {S : Type 0} → Script S → Text → Text → Exec S (Option Text)
unfolding as_pac_error given
run (pac_script f) url host s = (given (f url host s).0, (f url host s).1)
run (function f) url host s = (as_pac_error (f url host s).0, (f url host s).1)

-- `(None,)` for a result that is not a text, else `Proxy.parse_pac_result`
unfoldable pub read_result : ⦃net : Netimps⦄ → Result (Option Text) → Result Proxies
read_result (raise e) = raise e
read_result (ok none) = ok (none ∷ [])
read_result (ok (some t)) = parse_pac_result t

-- `PacProxyMap(script, browser_compatibility=…)[url]`
unfoldable pub pac_getitem :
    {S : Type 0} → ⦃net : Netimps⦄ → Bool → Script S → Text → Exec S Proxies
pac_getitem browser_compatibility script url s = elim (urlsplit url) [
  | raise e ↦ (raise e, s)
  | ok parts ↦
      let (r, s') =
        run script (seen_url browser_compatibility parts url) (or_else (hostname parts) []) s in
      (read_result r, s')
]

-- What an answer is, by what the script's own function came to: another exception, or an answer that is not
-- empty and has only DIRECT and valid proxies.
abbrev pub Answered : {A : Type 0} → (Error → Error) → Result A → Result Proxies → Type 0
Answered failure (raise e) answer = answer ≡ raise (failure e)
Answered failure (ok r) answer = (ps : Proxies) × (answer ≡ ok ps) × (ps ≢ []) × All ValidEntry ps

module _ ⦃net : Netimps⦄ where
  of_function :
      (r : Result (Option Text)) → Answered (λ e. pac_error) r (read_result (as_pac_error r))
  unfolding read_result as_pac_error
  of_function (raise e) = refl
  of_function (ok none) = (none ∷ [], refl, λ h. ground (arith, h), (tt, tt))
  of_function (ok (some t)) = parse_pac_result_total t

  of_pac_script : (r : Result Text) → Answered (λ e. e) r (read_result (given r))
  unfolding read_result given
  of_pac_script (raise e) = refl
  of_pac_script (ok t) = parse_pac_result_total t

  -- For a URL that can be split: where a Python function `f` is the script, whatever it raises becomes a
  -- `PACError`, and whatever it returns, text or not, becomes an answer that is not empty and has only
  -- DIRECT and valid proxies; where a `PacScript` is, with `g` its `find_proxy_for_url`, what it raises is
  -- raised as it is, and any text becomes such an answer.
  pub pac_getitem-Answered :
      {S : Type 0} (browser_compatibility : Bool) (f : Text → Text → Exec S (Option Text))
      (g : Text → Text → Exec S Text) (url : Text) (s : S) (parts : SplitResult)
      → urlsplit url ≡ ok parts
      → let seen = seen_url browser_compatibility parts url in
        let host = or_else (hostname parts) [] in
        Answered
          (λ e. pac_error)
          (f seen host s).0
          (pac_getitem browser_compatibility (function f) url s).0
        × Answered
            (λ e. e)
            (g seen host s).0
            (pac_getitem browser_compatibility (pac_script g) url s).0
  unfolding pac_getitem run
  pac_getitem-Answered compat f g url s parts split =
      let seen = seen_url compat parts url in
      let host = or_else (hostname parts) [] in
      (
        rw (pac_getitem, split) (of_function (f seen host s).0),
        rw (pac_getitem, split) (of_pac_script (g seen host s).0),
      )

seen_url_https :
    (parts : SplitResult) (url : Text)
    → lower parts.scheme ≡ text "https"
    → seen_url true parts url ≡ parts.scheme ++ (text "://" ++ (parts.netloc ++ text "/"))
unfolding seen_url
seen_url_https parts url https = ground (arith, ==_iff (lower parts.scheme) (text "https"), https)

hostname_of_netloc :
    (parts parts' : SplitResult) → parts'.netloc ≡ parts.netloc → hostname parts' ≡ hostname parts
unfolding hostname
hostname_of_netloc parts parts' same = ap (λ n. hostname (record parts { netloc = n })) same

module _ ⦃net : Netimps⦄ where
  -- With `browser_compatibility` the script learns nothing of an `https` URL but its scheme and its network
  -- location: two URLs that differ in the rest (path, query or fragment), get the same answer from it and
  -- leave it in the same state, whatever the script does.
  pub pac_getitem-hides :
      {S : Type 0} (script : Script S) (url other : Text) (s : S) (parts parts' : SplitResult)
      → urlsplit url ≡ ok parts
      → urlsplit other ≡ ok parts'
      → lower parts.scheme ≡ text "https"
      → parts'.scheme ≡ parts.scheme
      → parts'.netloc ≡ parts.netloc
      → pac_getitem true script other s ≡ pac_getitem true script url s
  unfolding pac_getitem
  pac_getitem-hides script url other s parts parts' split split' https schemes locations =
      rw
        (
          pac_getitem,
          split,
          split',
          seen_url_https parts url https,
          seen_url_https parts' other (ap lower schemes ∙ https),
          hostname_of_netloc parts parts' locations,
          schemes,
          locations,
        )
        refl
