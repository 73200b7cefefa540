-- ===== src/Wrappers/Caching.antt =====
-- src/proxylib/wrappers.py: `Cached`.
use proxylib.Prelude.{
  ℕ, ◌-◌, ◌≤◌, ◌<◌, ◌≡◌, refl, ap, ◌∙◌, inl, inr, none, some, arith, length, Option-cases,
}
use proxylib.Python.Exec.{Error, Result, ok, raise, continue, bind}
use proxylib.Python.Text.{Text, ◌==◌, ==_refl}
use proxylib.Python.Dict
use proxylib.Python.Dict.{
  Dict, get-append, move_to_end_of_get, get-set, get-remove, text-Lawful, length-set-le,
  length-move_to_end-le, move_to_end, set,
}
use proxylib.Net.{Netimps}
use proxylib.Lookup.{Proxies, ProxyMap, lookup}
use proxylib.Wrappers.Trim.{length-trim-le, trim_last}
use proxylib.Wrappers.{Entries, World, cached_read, cached_store, store_answer, cached_lookup}

-- What was stored last is found, whatever had to be dropped for it.
get-cached_store :
    (now maxsize : ℕ) (url : Text) (answer : Proxies) (entries : Entries)
    → 1 ≤ maxsize
    → Dict.get ◌==◌ (cached_store now maxsize url answer entries) url ≡ some (now, answer)
unfolding cached_store
get-cached_store now maxsize url answer entries h =
    let d = set ◌==◌ entries url (now, answer) in
    let found : Dict.get ◌==◌ d url ≡ some (now, answer) =
      get-set ◌==◌ text-Lawful entries url url (now, answer) ∙ rw (==_refl url) refl in
    rw (move_to_end_of_get ◌==◌ d url (now, answer) found) (
      trim_last ◌==◌ text-Lawful maxsize (Dict.remove ◌==◌ d url) url (now, answer) h
        (get-remove ◌==◌ text-Lawful d url url ∙ rw (==_refl url) refl))

length-cached_store-le :
    (now maxsize : ℕ) (url : Text) (answer : Proxies) (entries : Entries)
    → length (cached_store now maxsize url answer entries) ≤ maxsize
unfolding cached_store
length-cached_store-le now maxsize url answer entries = length-trim-le maxsize _

length-cached_read-le :
    (now ttl : ℕ) (url : Text) (entries : Entries)
    → length (cached_read now ttl url entries).1 ≤ length entries
unfolding cached_read
length-cached_read-le now ttl url entries = elim (Option-cases (Dict.get ◌==◌ entries url)) [
  | inl e ↦ ground (arith, e)
  | inr (v, e) ↦ ground (arith, e, length-move_to_end-le ◌==◌ entries url)
]

-- What the cache answers was stored under the same URL less than `ttl` ago.
pub cached_read_fresh :
    (now ttl : ℕ) (url : Text) (entries : Entries) (answer : Proxies)
    → (cached_read now ttl url entries).0 ≡ some answer
    → (t : ℕ) × (Dict.get ◌==◌ entries url ≡ some (t, answer)) × (now - t < ttl)
unfolding cached_read
cached_read_fresh now ttl url entries answer h = elim (Option-cases (Dict.get ◌==◌ entries url)) [
  | inl e ↦ absurd (ground (arith, e))
  | inr ((t, v), e) ↦ (t, ground (arith, e), ground (arith, e))
]

cached_read_hit :
    (now ttl t : ℕ) (url : Text) (entries : Entries) (answer : Proxies)
    → Dict.get ◌==◌ entries url ≡ some (t, answer)
    → now - t < ttl
    → (cached_read now ttl url entries).0 ≡ some answer
unfolding cached_read
cached_read_hit now ttl t url entries answer e h = ground (arith, e)

module _ {S : Type 0} ⦃net : Netimps⦄ (ttl maxsize : ℕ) (inner : ProxyMap (World S))
    (url : Text) where
  -- a lookup of the wrapped map does not reach into the wrapper's entries
  abbrev pub LeavesEntries : Type 0
  LeavesEntries = (w : World S) → (lookup inner url w).1.entries ≡ w.entries

  pub cached_lookup_miss :
      (w : World S)
      → (cached_read w.now ttl url w.entries).0 ≡ none
      → cached_lookup ttl maxsize inner url w
        ≡ bind (lookup inner url) (store_answer w.now maxsize url) w
  unfolding cached_lookup
  cached_lookup_miss w e = rw (e, cached_lookup) refl

  pub cached_lookup_hit :
      (w : World S) (v : Proxies)
      → (cached_read w.now ttl url w.entries).0 ≡ some v
      → cached_lookup ttl maxsize inner url w
        ≡ (ok v, record w { entries = (cached_read w.now ttl url w.entries).1 })
  unfolding cached_lookup
  cached_lookup_hit w v e = rw (e, cached_lookup) refl

  stored-bounded :
      (r : Result Proxies) (w w' : World S)
      → length w'.entries ≤ maxsize
      → length (continue r (store_answer w.now maxsize url) w').1.entries ≤ maxsize
  stored-bounded (ok a) w w' h = length-cached_store-le w.now maxsize url a w'.entries
  stored-bounded (raise e) w w' h = h

  -- The cache never holds more than `maxsize` answers.
  pub cached_lookup_bounded :
      (w : World S)
      → LeavesEntries
      → length w.entries ≤ maxsize
      → length (cached_lookup ttl maxsize inner url w).1.entries ≤ maxsize
  cached_lookup_bounded w leaves h = elim (Option-cases (cached_read w.now ttl url w.entries).0) [
    | inl e ↦
        rw (cached_lookup_miss w e)
          (stored-bounded (lookup inner url w).0 w (lookup inner url w).1 (rw (leaves w) h))
    | inr (v, e) ↦
        rw (cached_lookup_hit w v e) (omega (arith, length-cached_read-le w.now ttl url w.entries))
  ]

  -- A lookup that finds nothing fresh and whose wrapped map raises raises the same, and nothing is
  -- stored.
  pub cached_lookup_error :
      (w : World S) (e : Error)
      → (cached_read w.now ttl url w.entries).0 ≡ none
      → (lookup inner url w).0 ≡ raise e
      → cached_lookup ttl maxsize inner url w ≡ lookup inner url w
  cached_lookup_error w e miss h = cached_lookup_miss w miss ∙ ground (arith, h)

  stored_answer :
      (w : World S) (answer : Proxies)
      → (cached_read w.now ttl url w.entries).0 ≡ none
      → (lookup inner url w).0 ≡ ok answer
      → (cached_lookup ttl maxsize inner url w).1.entries
        ≡ cached_store w.now maxsize url answer (lookup inner url w).1.entries
  stored_answer w answer miss h = rw (cached_lookup_miss w miss) (rw h refl)

  -- After a lookup that asked the wrapped map and got an answer, a lookup of the same URL less than
  -- `ttl` later gives the same answer without asking any map: the rest of the state stays as it is.
  pub cached_lookup_again :
      (w w' : World S) (answer : Proxies)
      → 1 ≤ maxsize
      → (cached_read w.now ttl url w.entries).0 ≡ none
      → (lookup inner url w).0 ≡ ok answer
      → w'.entries ≡ (cached_lookup ttl maxsize inner url w).1.entries
      → w'.now - w.now < ttl
      → ((cached_lookup ttl maxsize inner url w').0 ≡ ok answer)
        × ((cached_lookup ttl maxsize inner url w').1.rest ≡ w'.rest)
  cached_lookup_again w w' answer big miss h same young =
      let found = get-cached_store w.now maxsize url answer (lookup inner url w).1.entries big in
      let kept : Dict.get ◌==◌ w'.entries url ≡ some (w.now, answer) =
        ap (λ (d : Entries). Dict.get ◌==◌ d url) (same ∙ stored_answer w answer miss h) ∙ found in
      let hit = cached_read_hit w'.now ttl w.now url w'.entries answer kept young in
      (rw (cached_lookup_hit w' answer hit) refl, rw (cached_lookup_hit w' answer hit) refl)
