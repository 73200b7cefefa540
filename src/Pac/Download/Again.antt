-- ===== src/Pac/Download/Again.antt =====
-- src/proxylib/pac/script.py: the cache of downloaded scripts.
use proxylib.Prelude.{
  ℕ, ◌<◌, ◌-◌, ◌≡◌, refl, true, Option, none, some, arith, or_else, Bool-cases, inl, inr, ltb,
  length, take, ◌+◌, ◌∙◌, sym, ap,
}
use proxylib.Python.Exec.{Error, Result, ok, raise, Exec, Result-cases}
use proxylib.Python.Text.{Text, ◌==◌, ==_refl}
use proxylib.Python.Dict
use proxylib.Python.Dict.{get-set, text-Lawful}
use proxylib.Pac.Child.{Bytes}
use proxylib.Pac.Download.{World, is_kept, cached_text, store_body, download, fetch, decode}

module _ {S : Type 0} (monotonic : S → ℕ) (urlopen : Text → Exec S Bytes) where
  stored_of_pair :
      (url a b : Text) (x y : World S)
      → ◌≡◌ {A = Result Text × World S} (ok a, x) (ok b, y)
      → Dict.get ◌==◌ x.download_cache url ≡ some (monotonic x.rest, a)
      → Dict.get ◌==◌ y.download_cache url ≡ some (monotonic y.rest, b)
  stored_of_pair url a b x y h found =
      let same_text : a ≡ b = cc in
      let same_world : x ≡ y = ap (λ q. q.1) h in rw (sym same_text, sym same_world) found

  raised_ok :
      {e : Error} {a : Text} {x y : World S}
      → ◌≡◌ {A = Result Text × World S} (raise e, x) (ok a, y)
      → ⊥
  raised_ok h = ground (arith, h)

  -- what was stored is there
  store_body-get :
      (url : Text) (max_bytes : ℕ) (cache_ttl : Option ℕ) (body : Bytes) (w w' : World S)
      (script : Text)
      → is_kept url cache_ttl ≡ true
      → store_body monotonic urlopen url max_bytes cache_ttl body w ≡ (ok script, w')
      → (Dict.get ◌==◌ w'.download_cache url ≡ some (monotonic w'.rest, script))
  unfolding store_body
  store_body-get url max_bytes cache_ttl body w w' script kept h =
      elim (Bool-cases (ltb max_bytes (length body))) [
        | inl long ↦ absurd (raised_ok (rw (store_body, long) at h))
        | inr fits ↦
            stored_of_pair url (decode body) script _ w' (rw (store_body, fits, kept) at h) (
              get-set ◌==◌ text-Lawful w.download_cache url url (monotonic w.rest, decode body)
              ∙ rw (==_refl url) refl)
      ]

  download-get :
      (url : Text) (max_bytes : ℕ) (cache_ttl : Option ℕ) (w w' : World S) (script : Text)
      → is_kept url cache_ttl ≡ true
      → download monotonic urlopen url max_bytes cache_ttl w ≡ (ok script, w')
      → Dict.get ◌==◌ w'.download_cache url ≡ some (monotonic w'.rest, script)
  unfolding download
  download-get url max_bytes cache_ttl w w' script kept h =
      elim (Result-cases (urlopen url w.rest).0) [
        | inl (body, e) ↦
            store_body-get url max_bytes cache_ttl (take (max_bytes + 1) body)
              (record w { rest = (urlopen url w.rest).1 }) w' script kept (rw (download, e) at h)
        | inr (x, e) ↦ absurd (raised_ok (rw (download, e) at h))
      ]

  -- A script that was downloaded for a time is answered again from the cache within this time,
  -- whatever else happened since that left the cache alone, without opening its URL: where it was not
  -- fresh in the cache before.
  pub fetch-again :
      (url : Text) (max_bytes : ℕ) (cache_ttl : Option ℕ) (w w' later : World S) (script : Text)
      → is_kept url cache_ttl ≡ true
      → cached_text monotonic urlopen url cache_ttl w ≡ none
      → fetch monotonic urlopen url max_bytes cache_ttl w ≡ (ok script, w')
      → later.download_cache ≡ w'.download_cache
      → monotonic later.rest - monotonic w'.rest < or_else cache_ttl 0
      → fetch monotonic urlopen url max_bytes cache_ttl later ≡ (ok script, later)
  unfolding fetch cached_text
  fetch-again url max_bytes cache_ttl w w' later script kept absent first same soon =
      let found =
        download-get url max_bytes cache_ttl w w' script kept (rw (fetch, absent) at first) in
      let fresh : ltb (monotonic later.rest - monotonic w'.rest) (or_else cache_ttl 0) ≡ true =
        ground (arith, soon) in
      let hit : cached_text monotonic urlopen url cache_ttl later ≡ some script =
        rw (cached_text, kept, same, found, fresh) refl in
      rw (fetch, hit) refl
