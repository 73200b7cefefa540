-- ===== src/System/References/Released.antt =====
-- src/proxylib/system/_darwin.py: no reference is left over.
use proxylib.Prelude.{
  ℕ, zero, suc, ◌+◌, ◌-◌, ◌<◌, ◌≡◌, refl, Bool, true, false, Option, none, some, List, [], ◌∷◌,
  arith, leb, Bool-cases, Option-cases, inl, inr, or_else, ◌⊎◌,
}
use proxylib.Python.Text.{Text, is_empty}
use proxylib.System.Resolvers.{
  CfEntry, cf_results, parse_proxy_entry, skipped_entry, direct_entry, proxy_entry, pac_entry,
  ParsedEntry,
}
use proxylib.System.Owned.{Owned, acquire, release}
use proxylib.System.Owned.Balance.{
  Same, Same-refl, Same-trans, release-Same, acquire-OneMore, release-OneMore, Gives, Same-rest,
  Gives-after, release-Gives,
}
use proxylib.System.References.{
  Slice, waited, without_array, with_array, acquire_if, CfNetwork, make_url, pump, run_pac,
  pac_entries, with_pac_url, read_array, with_proxies, with_settings, with_url,
  resolve_proxies_for_url,
}

Slice-cases :
    (s : Slice) → (s ≡ waited) ⊎ ((s ≡ without_array) ⊎ ((es : List CfEntry) × (s ≡ with_array es)))
Slice-cases waited = inl refl
Slice-cases without_array = inr (inl refl)
Slice-cases (with_array es) = inr (inr (es, refl))

ParsedEntry-cases :
    (p : ParsedEntry)
    → ((p ≡ direct_entry) ⊎ (p ≡ skipped_entry))
      ⊎ (((url : Text) × (p ≡ proxy_entry url)) ⊎ ((url : Option Text) × (p ≡ pac_entry url)))
ParsedEntry-cases direct_entry = inl (inl refl)
ParsedEntry-cases skipped_entry = inl (inr refl)
ParsedEntry-cases (proxy_entry url) = inr (inl (url, refl))
ParsedEntry-cases (pac_entry url) = inr (inr (url, refl))

module _ {S : Type 0} (cf : CfNetwork S) where
  make_url-Gives : (url : Text) (w : Owned S) → Gives (λ r. r) w (make_url cf url w)
  unfolding make_url acquire_if
  make_url-Gives url w =
      let w1 = (acquire w).1 in
      let s = (cf.create_url url w1.rest).1 in
      let string = acquire-OneMore w w (Same-refl w) in
      elim (Bool-cases (cf.create_url url w1.rest).0) [
        | inr e ↦
            rw e (release-Same w w1 (record w1 { rest = s }) (acquire w).0 string (Same-rest w1 s))
        | inl e ↦ rw e (
            release-OneMore w w1 _ (acquire w).0 _ string
              (acquire-OneMore w1 (record w1 { rest = s }) (Same-rest w1 s)))
      ]

  pump-Gives :
      (fuel deadline_at : ℕ) (w : Owned S) → Gives (λ found. found.0) w (pump cf fuel deadline_at w)
  unfolding pump
  pump-Gives zero deadline_at w = Same-refl w
  pump-Gives (suc fuel) deadline_at w =
      let s = (cf.run_slice w.rest).1 in
      elim (Bool-cases (leb deadline_at (cf.monotonic w.rest))) [
        | inl over ↦ rw over (Same-refl w)
        | inr soon ↦ rw soon (elim (Slice-cases (cf.run_slice w.rest).0) [
          | inl e ↦ rw e (
              Gives-after (λ found. found.0) w (record w { rest = s }) _ (Same-rest w s)
                (pump-Gives fuel deadline_at (record w { rest = s })))
          | inr (inl e) ↦ rw e (Same-rest w s)
          | inr (inr (es, e)) ↦ rw e (acquire-OneMore w (record w { rest = s }) (Same-rest w s))
        ])
      ]

  run_pac-Gives :
      (fuel deadline_at : ℕ) (pac_url url : Text) (w : Owned S)
      → Gives (λ found. found.0) w (run_pac cf fuel deadline_at pac_url url w)
  unfolding run_pac
  run_pac-Gives fuel deadline_at pac_url url w =
      let s = (cf.execute_pac pac_url url w.rest).1 in
      elim (Bool-cases (cf.execute_pac pac_url url w.rest).0) [
        | inr e ↦ rw e (Same-rest w s)
        | inl e ↦ rw e (
            release-Gives (λ found. found.0) w (acquire (record w { rest = s })).1
              (acquire (record w { rest = s })).0
              (pump cf fuel deadline_at (acquire (record w { rest = s })).1)
              (acquire-OneMore w (record w { rest = s }) (Same-rest w s))
              (pump-Gives fuel deadline_at (acquire (record w { rest = s })).1))
      ]

  read_array-Same :
      (a : Owned S) (found : Option (ℕ × List CfEntry)) (b : Owned S)
      → Gives (λ f. f.0) a (found, b)
      → Same a (read_array cf found b).1
  unfolding read_array
  read_array-Same a none b h = h
  read_array-Same a (some (r, entries)) b h = release-Same a b b r h (Same-refl b)

  with_pac_url-Same :
      (fuel deadline_at : ℕ) (pac_url url : Text) (a b : Owned S) (ref : Option ℕ)
      → Gives (λ r. r) a (ref, b)
      → Same a (with_pac_url cf fuel deadline_at pac_url url ref b).1
  unfolding with_pac_url
  with_pac_url-Same fuel deadline_at pac_url url a b none h = h
  with_pac_url-Same fuel deadline_at pac_url url a b (some ref) h =
      let ran = run_pac cf fuel deadline_at pac_url url b in
      read_array-Same a ran.0 (release ref ran.1) (
        release-Gives (λ found. found.0) a b ref ran h
          (run_pac-Gives fuel deadline_at pac_url url b))

  pac_entries-Same :
      (fuel deadline_at : ℕ) (url pac_url : Text) (w : Owned S)
      → Same w (pac_entries cf fuel deadline_at url pac_url w).1
  unfolding pac_entries
  pac_entries-Same fuel deadline_at url pac_url w =
      with_pac_url-Same fuel deadline_at pac_url url w (make_url cf pac_url w).1
        (make_url cf pac_url w).0 (make_url-Gives pac_url w)

  cf_results-Same :
      (decimal : ℕ → Text) (ran : Text → Owned S → Option (List CfEntry) × Owned S)
      (keeps : (url : Text) (w : Owned S) → Same w (ran url w).1) (entries : List CfEntry)
      (w : Owned S)
      → Same w (cf_results decimal ran entries w).1
  unfolding cf_results
  cf_results-Same decimal ran keeps [] w = Same-refl w
  cf_results-Same decimal ran keeps (entry ∷ entries) w =
      let onward = cf_results-Same decimal ran keeps entries in
      elim (ParsedEntry-cases (parse_proxy_entry decimal entry)) [
        | inl (inl e) ↦ rw (e, cf_results) (onward w)
        | inl (inr e) ↦ rw (e, cf_results) (onward w)
        | inr (inl (url, e)) ↦ rw (e, cf_results) (onward w)
        | inr (inr (url, e)) ↦
            rw (e, cf_results)
              (elim (Bool-cases (is_empty (or_else url []))) [
                | inl bare ↦ rw bare (Same-refl w)
                | inr named ↦ rw named (elim (Option-cases (ran (or_else url []) w).0) [
                  | inl f ↦ rw f (keeps (or_else url []) w)
                  | inr (found, f) ↦ rw f (
                      Same-trans w (ran (or_else url []) w).1 _ (keeps (or_else url []) w)
                        (onward (ran (or_else url []) w).1))
                ])
              ])
      ]

  module _ (decimal : ℕ → Text) (fuel deadline_at : ℕ) (url : Text) where
    with_proxies-Same :
        (found : Option (List CfEntry)) (w : Owned S)
        → Same w (with_proxies cf decimal fuel deadline_at url found w).1
    unfolding with_proxies
    with_proxies-Same none w = Same-refl w
    with_proxies-Same (some entries) w =
        release-Same w (acquire w).1 _ (acquire w).0 (acquire-OneMore w w (Same-refl w)) (
          cf_results-Same decimal (pac_entries cf fuel deadline_at url)
            (pac_entries-Same fuel deadline_at url) entries (acquire w).1)

    with_settings-Same :
        (there : Bool) (w : Owned S)
        → Same w (with_settings cf decimal fuel deadline_at url there w).1
    unfolding with_settings
    with_settings-Same false w = Same-refl w
    with_settings-Same true w =
        let w1 = (acquire w).1 in
        let (found, s) = cf.copy_proxies url w1.rest in
        release-Same w w1 _ (acquire w).0 (acquire-OneMore w w (Same-refl w)) (
          Same-trans w1 (record w1 { rest = s }) _ (Same-rest w1 s)
            (with_proxies-Same found (record w1 { rest = s })))

    with_url-Same :
        (a b : Owned S) (ref : Option ℕ)
        → Gives (λ r. r) a (ref, b)
        → Same a (with_url cf decimal fuel deadline_at url ref b).1
    unfolding with_url
    with_url-Same a b none h = h
    with_url-Same a b (some ref) h =
        let (there, s) = cf.copy_settings b.rest in
        release-Same a b _ ref h (
          Same-trans b (record b { rest = s }) _ (Same-rest b s)
            (with_settings-Same there (record b { rest = s })))

  -- Whatever CFNetwork answers, at whatever point the lookup ends, and also when the PAC overruns its
  -- deadline, every reference that `_resolve_proxies_for_url` acquired is released exactly once: the caller
  -- owns the references that it owned before, and nothing was released that it did not own.
  pub resolve_proxies_for_url-releases :
      (decimal : ℕ → Text) (fuel deadline : ℕ) (url : Text) (w : Owned S)
      → ((resolve_proxies_for_url cf decimal fuel deadline url w).1.live ≡ w.live)
        × ((resolve_proxies_for_url cf decimal fuel deadline url w).1.faults ≡ w.faults)
  unfolding resolve_proxies_for_url
  resolve_proxies_for_url-releases decimal fuel deadline url w =
      let kept =
        with_url-Same decimal fuel (cf.monotonic w.rest + deadline) url w (make_url cf url w).1
          (make_url cf url w).0 (make_url-Gives url w) in
      (kept.owned, kept.sound)

  -- The run loop ends by itself: where a slice without an answer takes time, any two amounts of fuel
  -- above the time that is left give the same.
  pub pump-enough :
      (deadline_at fuel other : ℕ) (w : Owned S)
      → ((s : S) → (cf.run_slice s).0 ≡ waited → cf.monotonic s < cf.monotonic (cf.run_slice s).1)
      → deadline_at - cf.monotonic w.rest < fuel
      → deadline_at - cf.monotonic w.rest < other
      → pump cf fuel deadline_at w ≡ pump cf other deadline_at w
  unfolding pump
  pump-enough deadline_at zero other w advances enough also = absurd (omega (arith, enough))
  pump-enough deadline_at (suc fuel) zero w advances enough also = absurd (omega (arith, also))
  pump-enough deadline_at (suc fuel) (suc other) w advances enough also =
      elim (Bool-cases (leb deadline_at (cf.monotonic w.rest))) [
        | inl over ↦ rw over refl
        | inr soon ↦ rw soon (elim (Slice-cases (cf.run_slice w.rest).0) [
          | inl e ↦ rw e (
              pump-enough deadline_at fuel other (record w { rest = (cf.run_slice w.rest).1 })
                advances (ground (arith, soon, enough, advances w.rest e))
                (ground (arith, soon, also, advances w.rest e)))
          | inr (inl e) ↦ rw e refl
          | inr (inr (es, e)) ↦ rw e refl
        ])
      ]
