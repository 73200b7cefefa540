-- ===== src/Pac/Wpad.antt =====
-- src/proxylib/pac/wpad.py. Whether a host resolves, and what loading a PAC from it comes to, are
-- arguments of the search; the clock is an argument of the cache.
use proxylib.Prelude.{
  ℕ, ◌-◌, ◌<◌, ◌≡◌, refl, Bool, true, false, ◌&&◌, ◌||◌, Option, none, some, List, [], ◌∷◌, ◌++◌,
  map, length, arith, ltb, eqb, if◌then◌else◌, any, All, Bool-cases, inl, inr,
}
use proxylib.Python.Exec.{Error, Result, ok, raise, os_error, value_error, pac_error, is_a}
use proxylib.Python.Text.{Text, text, lower, rstrip, split, join, ◌==◌}
use proxylib.Python.Dict
use proxylib.Pac.Timed.{cached_at, cached_at-set}
use proxylib.Python.Dict.{Dict}

-- `_CC_SECOND_LEVEL`
abbrev cc_second_level : List Text
cc_second_level =
    text "ac"
    ∷ text "ad"
    ∷ text "asn"
    ∷ text "biz"
    ∷ text "co"
    ∷ text "com"
    ∷ text "ed"
    ∷ text "edu"
    ∷ text "firm"
    ∷ text "gen"
    ∷ text "go"
    ∷ text "gob"
    ∷ text "gov"
    ∷ text "govt"
    ∷ text "gr"
    ∷ text "id"
    ∷ text "idv"
    ∷ text "ind"
    ∷ text "info"
    ∷ text "lg"
    ∷ text "ltd"
    ∷ text "me"
    ∷ text "mil"
    ∷ text "muni"
    ∷ text "ne"
    ∷ text "net"
    ∷ text "nhs"
    ∷ text "nom"
    ∷ text "or"
    ∷ text "org"
    ∷ text "pe"
    ∷ text "per"
    ∷ text "plc"
    ∷ text "police"
    ∷ text "re"
    ∷ text "res"
    ∷ text "sch"
    ∷ text "school"
    ∷ text "web"
    ∷ []

unfoldable pub is_second_level : Text → Bool
is_second_level s = any (λ l. l == lower s) cc_second_level

unfoldable pub is_public_suffix : List Text → Bool
is_public_suffix (first ∷ second ∷ []) = eqb (length second) 2 && is_second_level first
is_public_suffix (first ∷ second ∷ third ∷ rest) = false
is_public_suffix _ = true

-- the loop of `_candidate_domains`, over the label lists `labels[1:]`, `labels[2:]`, …
unfoldable pub parents : List Text → List (List Text)
parents [] = []
parents (label ∷ labels) =
    let rest = parents labels in if is_public_suffix labels then [] else labels ∷ rest

unfoldable pub candidate_domains : Text → List Text
candidate_domains fqdn = map (join (text ".")) (parents (split b'.' (rstrip (eqb b'.') fqdn)))

-- the exceptions that `_discover` passes over; a `URLError` is an `OSError`
unfoldable pub is_passed_over : Error → Bool
is_passed_over e = is_a e os_error || is_a e value_error || is_a e pac_error

module _ {M : Type 0} (resolves : Text → Bool) (load : Text → Result M) where
  -- the `try` of `_discover`: what is found, or that the search goes on
  unfoldable pub tried : Result M → Result (Option M) → Result (Option M)
  tried (ok m) rest = ok (some m)
  tried (raise e) rest = if is_passed_over e then rest else raise e

  unfoldable pub discover_among : List Text → Result (Option M)
  discover_among [] = ok none
  discover_among (domain ∷ domains) =
      let rest = discover_among domains in
      let host = text "wpad." ++ domain in
      if resolves host
      then tried (load (text "http://" ++ (host ++ text "/wpad.dat"))) rest
      else rest

  -- `discover(fqdn, cache_ttl=ttl)`; a `ttl` of `None` is 0
  unfoldable pub discover :
      ℕ → ℕ → Text → Dict Text (ℕ × Option M) → Result (Option M) × Dict Text (ℕ × Option M)
  discover now ttl fqdn cache = elim (cached_at now ttl fqdn cache) [
    | some m ↦ (ok m, cache)
    | none ↦ elim (discover_among (candidate_domains fqdn)) [
      | raise e ↦ (raise e, cache)
      | ok m ↦ (ok m, if ltb 0 ttl then Dict.set ◌==◌ cache fqdn (now, m) else cache)
    ]
  ]

-- No domain that WPAD asks is a public suffix: neither a bare top-level domain nor one that a
-- country's registry sells names under.
pub parents-private :
    (labels : List Text) → All (λ ls. is_public_suffix ls ≡ false) (parents labels)
unfolding parents
parents-private [] = tt
parents-private (l ∷ ls) = elim (Bool-cases (is_public_suffix ls)) [
  | inl e ↦ rw e tt
  | inr e ↦ rw e (e, parents-private ls)
]

positive : (t now ttl : ℕ) → now - t < ttl → ltb 0 ttl ≡ true
positive t now ttl h = ground (arith, h)

tried_error :
    {M : Type 0} (resolves : Text → Bool) (load : Text → Result M) (r : Result M)
    (rest : Result (Option M)) (e : Error)
    → (rest ≡ raise e → is_passed_over e ≡ false)
    → tried resolves load r rest ≡ raise e
    → is_passed_over e ≡ false
unfolding tried
tried_error resolves load (ok m) rest e k h = cc
tried_error resolves load (raise x) rest e k h = elim (Bool-cases (is_passed_over x)) [
  | inl p ↦ k (rw p at h)
  | inr p ↦ ground (arith, p, (rw p at h))
]

module _ {M : Type 0} (resolves : Text → Bool) (load : Text → Result M) where
  discover_miss :
      (t ttl : ℕ) (fqdn : Text) (cache : Dict Text (ℕ × Option M)) (m : Option M)
      → cached_at t ttl fqdn cache ≡ none
      → discover_among resolves load (candidate_domains fqdn) ≡ ok m
      → ltb 0 ttl ≡ true
      → discover resolves load t ttl fqdn cache ≡ (ok m, Dict.set ◌==◌ cache fqdn (t, m))
  unfolding discover Dict.set
  discover_miss t ttl fqdn cache m miss found keeps = rw (miss, found, keeps, discover) refl

  discover_hit :
      (now ttl : ℕ) (fqdn : Text) (cache : Dict Text (ℕ × Option M)) (m : Option M)
      → cached_at now ttl fqdn cache ≡ some m
      → discover resolves load now ttl fqdn cache ≡ (ok m, cache)
  unfolding discover
  discover_hit now ttl fqdn cache m hit = rw (hit, discover) refl

-- A search that came to an end is not repeated while its result is fresh, also where it found no
-- PAC: the second call gives the first one's result, whatever resolves or loads by then.
pub discover-again :
    {M : Type 0} (resolves resolves' : Text → Bool) (load load' : Text → Result M) (t now ttl : ℕ)
    (fqdn : Text) (cache : Dict Text (ℕ × Option M)) (m : Option M)
    → cached_at t ttl fqdn cache ≡ none
    → discover_among resolves load (candidate_domains fqdn) ≡ ok m
    → now - t < ttl
    → discover resolves' load' now ttl fqdn (discover resolves load t ttl fqdn cache).1
      ≡ (ok m, (discover resolves load t ttl fqdn cache).1)
discover-again resolves resolves' load load' t now ttl fqdn cache m miss found soon =
    rw (discover_miss resolves load t ttl fqdn cache m miss found (positive t now ttl soon))
      (discover_hit resolves' load' now ttl fqdn _ m (cached_at-set t now ttl fqdn m cache soon))

-- The search never fails because a domain's PAC does not download or run: an exception that it lets
-- through is none of `OSError`, `ValueError` and `PACError`.
pub discover_among_error :
    {M : Type 0} (resolves : Text → Bool) (load : Text → Result M) (domains : List Text) (e : Error)
    → discover_among resolves load domains ≡ raise e
    → is_passed_over e ≡ false
unfolding discover_among
discover_among_error resolves load [] e h = cc
discover_among_error resolves load (d ∷ ds) e h = elim (Bool-cases (resolves (text "wpad." ++ d))) [
  | inr r ↦ discover_among_error resolves load ds e (rw r at h)
  | inl r ↦
      tried_error resolves load _ _ e (λ k. discover_among_error resolves load ds e k) (rw r at h)
]
