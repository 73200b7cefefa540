-- ===== src/Wrappers/Freshness.antt =====
-- src/proxylib/wrappers.py: `Cached` against what it promises, over any course of lookups and waiting.
use proxylib.Prelude.{
  ℕ, ◌-◌, ◌≤◌, ◌<◌, ◌≡◌, ◌⊎◌, refl, sym, ap, ◌∙◌, subst, inl, inr, none, some, List, [], ◌∷◌, arith,
  length, ltb, All, All-append, Member, here, there, Option-cases, Bool-cases,
}
use proxylib.Python.Exec.{Result, ok, raise, continue, Result-cases}
use proxylib.Python.Text.{Text, ◌==◌, ==_iff}
use proxylib.Python.Dict
use proxylib.Python.Dict.{Dict}
use proxylib.Net.{Netimps}
use proxylib.Lookup.{Proxies, ProxyMap, lookup}
use proxylib.Wrappers.{
  Entries, World, cached_read, cached_store, store_answer, cached_lookup, cached_clear,
}
use proxylib.Wrappers.Trim.{All-trim, All-remove}
use proxylib.Wrappers.Caching.{
  cached_read_fresh, cached_lookup_miss, cached_lookup_hit, cached_lookup_bounded,
}

-- What holds of all entries still does after the other operations of `OrderedDict` that the cache uses.
module _ {V : Type 0} (P : Text × V → Type 0) where
  All-set : (d : Dict Text V) (k : Text) (v : V) → P (k, v) → All P d → All P (Dict.set ◌==◌ d k v)
  unfolding Dict.set
  All-set [] k v new h = (new, tt)
  All-set ((j, w) ∷ d) k v new (p, h) = elim (Bool-cases (j == k)) [
    | inl same ↦ rw (Dict.set, same) (subst (λ i. P (i, v)) (sym ((==_iff j k).0 same)) new, h)
    | inr other ↦ rw (Dict.set, other) (p, All-set d k v new h)
  ]

  All-get : (d : Dict Text V) (k : Text) (v : V) → Dict.get ◌==◌ d k ≡ some v → All P d → P (k, v)
  unfolding Dict.get
  All-get [] k v found h = cc
  All-get ((j, w) ∷ d) k v found (p, h) = elim (Bool-cases (j == k)) [
    | inl same ↦
        subst (λ i. P (i, v)) ((==_iff j k).0 same)
          (subst (λ u. P (j, u)) (same_value (rw same at found)) p)
    | inr other ↦ All-get d k v (rw other at found) h
  ]
    where
      same_value : {a b : V} → some a ≡ some b → a ≡ b
      same_value h = cc

  All-move_to_end : (d : Dict Text V) (k : Text) → All P d → All P (Dict.move_to_end ◌==◌ d k)
  unfolding Dict.move_to_end
  All-move_to_end d k h = elim (Option-cases (Dict.get ◌==◌ d k)) [
    | inl absent ↦ rw (Dict.move_to_end, absent) h
    | inr (v, found) ↦
        rw (Dict.move_to_end, found)
          (All-append P (Dict.remove ◌==◌ d k) ((k, v) ∷ []) (All-remove ◌==◌ P d k h)
            (All-get d k v found h, tt))
  ]

-- the answers that the wrapped map gave, with their URLs and times
abbrev pub Log : Type 0
Log = List (Text × (ℕ × Proxies))

-- the cache holds answers of the log only
abbrev Logged : Log → Entries → Type 0
Logged log entries = All (λ e. Member e log) entries

All-map :
    (xs : Entries) (log : Log) (e : Text × (ℕ × Proxies)) → Logged log xs → Logged (e ∷ log) xs
All-map [] log e h = tt
All-map (x ∷ xs) log e (m, h) = (there m, All-map xs log e h)

cached_read-Logged :
    (now ttl : ℕ) (url : Text) (entries : Entries) (log : Log)
    → Logged log entries
    → Logged log (cached_read now ttl url entries).1
unfolding cached_read
cached_read-Logged now ttl url entries log h = elim (Option-cases (Dict.get ◌==◌ entries url)) [
  | inl e ↦ rw (cached_read, e) h
  | inr ((t, v), e) ↦ elim (Bool-cases (ltb (now - t) ttl)) [
    | inl fresh ↦ rw (cached_read, e, fresh) (All-move_to_end (λ e. Member e log) entries url h)
    | inr stale ↦ rw (cached_read, e, stale) h
  ]
]

cached_store-Logged :
    (now maxsize : ℕ) (url : Text) (answer : Proxies) (entries : Entries) (log : Log)
    → Logged log entries
    → Logged ((url, (now, answer)) ∷ log) (cached_store now maxsize url answer entries)
unfolding cached_store
cached_store-Logged now maxsize url answer entries log h =
    let P = (λ (e : Text × (ℕ × Proxies)). Member e ((url, (now, answer)) ∷ log)) in
    All-trim P maxsize _
      (All-move_to_end P _ url (All-set P entries url (now, answer) here (All-map entries log _ h)))

module _ {S : Type 0} ⦃net : Netimps⦄ (ttl maxsize : ℕ) (inner : ProxyMap (World S)) where
  -- the log after a lookup of `url`: the wrapped map is asked when nothing fresh is there
  abbrev pub log_answer : Text → World S → Result Proxies → Log → Log
  log_answer url w (ok answer) log = (url, (w.now, answer)) ∷ log
  log_answer url w (raise e) log = log

  abbrev pub log_lookup : Text → World S → Log → Log
  log_lookup url w log = elim (cached_read w.now ttl url w.entries).0 [
    | some answer ↦ log
    | none ↦ log_answer url w (lookup inner url w).0 log
  ]

  -- a course of lookups, of waiting, of `clear` and of changes to the rest of the program's state
  pub data Course : World S → Log → Type 0 where
    made : (w : World S) → w.entries ≡ [] → Course w []
    looked :
        (url : Text) (w : World S) (log : Log)
        → Course w log
        → Course (cached_lookup ttl maxsize inner url w).1 (log_lookup url w log)
    cleared : (w : World S) (log : Log) → Course w log → Course (cached_clear w) log
    waited : (w w' : World S) (log : Log) → w'.entries ≡ w.entries → Course w log → Course w' log

  cached_lookup-Logged :
      (url : Text) (w : World S) (log : Log)
      → (lookup inner url w).1.entries ≡ w.entries
      → Logged log w.entries
      → Logged (log_lookup url w log) (cached_lookup ttl maxsize inner url w).1.entries
  cached_lookup-Logged url w log leaves h =
      elim (Option-cases (cached_read w.now ttl url w.entries).0) [
        | inr (v, e) ↦
            rw (cached_lookup_hit ttl maxsize inner url w v e, log_lookup, e)
              (cached_read-Logged w.now ttl url w.entries log h)
        | inl e ↦ elim (Result-cases (lookup inner url w).0) [
          | inl (a, r) ↦
              rw (cached_lookup_miss ttl maxsize inner url w e, log_lookup, e, r)
                (rw leaves (cached_store-Logged w.now maxsize url a w.entries log h))
          | inr (x, r) ↦
              rw (cached_lookup_miss ttl maxsize inner url w e, log_lookup, e, r) (rw leaves h)
        ]
      ]

  store_answer_result :
      (now : ℕ) (url : Text) (r : Result Proxies) (w : World S)
      → (continue r (store_answer now maxsize url) w).0 ≡ r
  store_answer_result now url (ok a) w = refl
  store_answer_result now url (raise e) w = refl

  module _ (leaves : (url : Text) (w : World S) → (lookup inner url w).1.entries ≡ w.entries) where
    Course-Logged : {w : World S} {log : Log} → Course w log → Logged log w.entries
    unfolding cached_clear
    Course-Logged (made w new) = rw new tt
    Course-Logged (looked url w log c) =
        cached_lookup-Logged url w log (leaves url w) (Course-Logged c)
    Course-Logged (cleared w log c) = tt
    Course-Logged (waited w w' log same c) = rw same (Course-Logged c)

    Course-bounded : {w : World S} {log : Log} → Course w log → length w.entries ≤ maxsize
    unfolding cached_clear
    Course-bounded (made w new) = rw new (omega arith)
    Course-bounded (looked url w log c) =
        cached_lookup_bounded ttl maxsize inner url w (leaves url) (Course-bounded c)
    Course-bounded (cleared w log c) = omega arith
    Course-bounded (waited w w' log same c) = rw same (Course-bounded c)

    -- What a cache promises, after any course of lookups, of waiting, of `clear` and of changes elsewhere:
    -- an answer is what the wrapped map answers now, or what it answered for the same URL less than `ttl` ago; and
    -- the cache holds at most `maxsize` answers. The wrapped map is taken not to touch the entries.
    pub cached_lookup-refines :
        (w : World S) (log : Log) (url : Text) (answer : Proxies)
        → Course w log
        → (cached_lookup ttl maxsize inner url w).0 ≡ ok answer
        → (((lookup inner url w).0 ≡ ok answer)
            ⊎ ((t : ℕ) × (Member (url, (t, answer)) log) × (w.now - t < ttl)))
          × (length w.entries ≤ maxsize)
    cached_lookup-refines w log url answer c h = (
      elim (Option-cases (cached_read w.now ttl url w.entries).0) [
        | inl e ↦ inl (
            sym (store_answer_result w.now url (lookup inner url w).0 (lookup inner url w).1)
            ∙ (sym (ap (λ q. q.0) (cached_lookup_miss ttl maxsize inner url w e)) ∙ h))
        | inr (v, e) ↦ inr (
            let (t, found, fresh) = cached_read_fresh w.now ttl url w.entries v e in
            let same = same_answer (rw (cached_lookup_hit ttl maxsize inner url w v e) at h) in
            (
              t,
              subst (λ a. Member (url, (t, a)) log) same
                  (All-get (λ e. Member e log) w.entries url (t, v) found (Course-Logged c)),
              fresh,
            ))
      ],
      Course-bounded c,
    )
      where
        same_answer : {a b : Proxies} → ◌≡◌ {A = Result Proxies} (ok a) (ok b) → a ≡ b
        same_answer h = cc
