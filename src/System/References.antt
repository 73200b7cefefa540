-- ===== src/System/References.antt =====
-- src/proxylib/system/_darwin.py: the references that `_resolve_proxies_for_url` holds to objects of
-- CoreFoundation, and the run loop in which CFNetwork runs a PAC. What CFNetwork answers, the slices of the
-- run loop and the clock are arguments; a string and the run loop itself can always be made.
pub mod Released
use proxylib.Prelude.{
  ℕ, zero, suc, ◌+◌, ◌-◌, Bool, true, false, Option, none, some, List, [], ◌∷◌, leb, eqb,
  if◌then◌else◌,
}
use proxylib.Python.Exec.{Result, ok, raise, key_error, ◌>>=◌, Exec}
use proxylib.Python.Text.{Text}
use proxylib.Proxy.Parse.{or_direct}
use proxylib.Lookup.{Proxies}
use proxylib.System.Owned.{Owned, acquire, release}
use proxylib.System.Resolvers.{CfEntry, cf_results, parse_results}

-- what one slice of the run loop comes to: the callback does not run, or it gets no array, or one
pub data Slice : Type 0 where
  waited : Slice
  without_array : Slice
  with_array : List CfEntry → Slice

-- CFNetwork and the clock
pub record CfNetwork (S : Type 0) : Type 0 where
  pub create_url : Text → S → Bool × S
  pub copy_settings : S → Bool × S
  pub copy_proxies : Text → S → Option (List CfEntry) × S
  pub execute_pac : Text → Text → S → Bool × S
  pub run_slice : S → Slice × S
  pub monotonic : S → ℕ

module _ {S : Type 0} (cf : CfNetwork S) where
  unfoldable pub acquire_if : Bool → Owned S → Option ℕ × Owned S
  acquire_if false w = (none, w)
  acquire_if true w = (some (acquire w).0, (acquire w).1)

  -- a URL made of a text, by way of a string that is released
  unfoldable pub make_url : Text → Owned S → Option ℕ × Owned S
  unfolding acquire_if
  make_url url w =
      let (string, w1) = acquire w in
      let (made, s) = cf.create_url url w1.rest in
      let (ref, w2) = acquire_if made (record w1 { rest = s }) in (ref, release string w2)

  -- the `while` loop of `_run_pac_and_get_proxies`: the array, with the reference that the callback
  -- retained
  unfoldable pub pump : ℕ → ℕ → Owned S → Option (ℕ × List CfEntry) × Owned S
  pump zero deadline_at w = (none, w)
  pump (suc fuel) deadline_at w =
      let (slice, s) = cf.run_slice w.rest in
      let onward = pump fuel deadline_at (record w { rest = s }) in
      if leb deadline_at (cf.monotonic w.rest) then (none, w) else elim slice [
        | waited ↦ onward
        | without_array ↦ (none, record w { rest = s })
        | with_array entries ↦
            let (r, w') = acquire (record w { rest = s }) in (some (r, entries), w')
      ]

  -- `_run_pac_and_get_proxies`
  unfoldable pub run_pac : ℕ → ℕ → Text → Text → Owned S → Option (ℕ × List CfEntry) × Owned S
  run_pac fuel deadline_at pac_url url w =
      let (started, s) = cf.execute_pac pac_url url w.rest in
      if started
      then (let (source, w1) = acquire (record w { rest = s }) in
          let (found, w2) = pump fuel deadline_at w1 in (found, release source w2))
      else (none, record w { rest = s })

  -- the entries of the array are read before it is released
  unfoldable pub read_array : Option (ℕ × List CfEntry) → Owned S → Option (List CfEntry) × Owned S
  read_array none w = (none, w)
  read_array (some (r, entries)) w = (some entries, release r w)

  unfoldable pub with_pac_url :
      ℕ → ℕ → Text → Text → Option ℕ → Owned S → Option (List CfEntry) × Owned S
  unfolding read_array
  with_pac_url fuel deadline_at pac_url url none w = (none, w)
  with_pac_url fuel deadline_at pac_url url (some ref) w =
      let (found, w') = run_pac fuel deadline_at pac_url url w in read_array found (release ref w')

  -- an entry that names a PAC, in the loop of `_resolve_proxies_for_url`
  unfoldable pub pac_entries : ℕ → ℕ → Text → Text → Owned S → Option (List CfEntry) × Owned S
  unfolding with_pac_url
  pac_entries fuel deadline_at url pac_url w =
      let (ref, w') = make_url pac_url w in with_pac_url fuel deadline_at pac_url url ref w'

  module _ (decimal : ℕ → Text) (fuel deadline_at : ℕ) (url : Text) where
    -- the innermost `try`, with the array of proxies
    unfoldable pub with_proxies :
        Option (List CfEntry) → Owned S → Option (List (Option Text)) × Owned S
    with_proxies none w = (none, w)
    with_proxies (some entries) w =
        let (proxies, w1) = acquire w in
        let (results, w2) = cf_results decimal (pac_entries fuel deadline_at url) entries w1 in
        (results, release proxies w2)

    unfoldable pub with_settings : Bool → Owned S → Option (List (Option Text)) × Owned S
    with_settings false w = (none, w)
    with_settings true w =
        let (settings, w1) = acquire w in
        let (found, s) = cf.copy_proxies url w1.rest in
        let (results, w2) = with_proxies found (record w1 { rest = s }) in
        (results, release settings w2)

    unfoldable pub with_url : Option ℕ → Owned S → Option (List (Option Text)) × Owned S
    with_url none w = (none, w)
    with_url (some ref) w =
        let (there, s) = cf.copy_settings w.rest in
        let (results, w') = with_settings there (record w { rest = s }) in (results, release ref w')

  -- `_resolve_proxies_for_url`, where the bindings are loaded
  unfoldable pub resolve_proxies_for_url :
      (ℕ → Text) → ℕ → ℕ → Text → Owned S → Option (List (Option Text)) × Owned S
  resolve_proxies_for_url decimal fuel deadline url w =
      let deadline_at = cf.monotonic w.rest + deadline in
      let (ref, w') = make_url url w in with_url decimal fuel deadline_at url ref w'

  -- `CFNetworkProxyMap.__getitem__`
  unfoldable pub getitem : (ℕ → Text) → ℕ → ℕ → Text → Exec (Owned S) Proxies
  getitem decimal fuel deadline url w =
      let (results, w') = resolve_proxies_for_url decimal fuel deadline url w in
      elim results [
        | none ↦ (raise key_error, w')
        | some rs ↦ ((do ps ← parse_results rs; ok (or_direct ps)), w')
      ]
