-- ===== src/Examples/Maps.antt =====
-- Lookups through chains and wrappers, and health, at concrete inputs.
use proxylib.Prelude.{ℕ, ◌+◌, ◌%◌, ◌≡◌, refl, true, false, none, [], ◌∷◌, length, arith}
use proxylib.Python.Text.{text, ◌==◌}
use proxylib.Python.Exec.{ok, raise, key_error, type_error, is_a, lift}
use proxylib.Python.Dict
use proxylib.Lookup.{lookup, answer_for, own_map, chain_map, chain_lookup, or_next}
use proxylib.Lookup.Chains.{Asked, chain_lookup-Asked, lookup-own_map}
use proxylib.Health.{first_working_proxy}
use proxylib.Health.Probing.{first_working_proxy_lem, first_reachable}
use proxylib.Wrappers.{World, cached_lookup, cached_read, position_of, rotated, round_robin_lookup}
use proxylib.Wrappers.Caching.{cached_lookup_again}
use proxylib.Wrappers.Rotation.{round_robin_rotates, after_lookups}
use proxylib.SystemConfig.{to_proxymap, source_maps, empty_config}
use proxylib.SystemConfig.Deferring.{to_proxymap-decides}
use proxylib.Samples.{offline, pair_answer, silent_map, pair_map, start}

pair_map-steady : (w : World ℕ) → lookup pair_map (text "u") w ≡ (ok pair_answer, w)
pair_map-steady w = lookup-own_map (λ url. lift (ok pair_answer)) (text "u") w (λ ps h e. cc)

silent_map-steady : (w : World ℕ) → lookup silent_map (text "u") w ≡ (raise key_error, w)
silent_map-steady w = lookup-own_map (λ url. lift (raise key_error)) (text "u") w (λ ps h e. cc)

nothing_stored : (cached_read 5 60 (text "u") []).0 ≡ none
unfolding cached_read Dict.get
nothing_stored = refl

chain_lookup-Asked_example :
    Asked
      (text "u")
      (silent_map ∷ pair_map ∷ [])
      start
      (chain_lookup (silent_map ∷ pair_map ∷ []) (text "u") start)
chain_lookup-Asked_example = chain_lookup-Asked (silent_map ∷ pair_map ∷ []) (text "u") start

cached_lookup_again_example :
    ((cached_lookup 60 1 pair_map
        (text "u")
        (record (cached_lookup 60 1 pair_map (text "u") start).1 { now = 9; rest = 3 })).0
      ≡ ok pair_answer)
    × ((cached_lookup 60 1 pair_map
          (text "u")
          (record (cached_lookup 60 1 pair_map (text "u") start).1 { now = 9; rest = 3 })).1.rest
        ≡ 3)
cached_lookup_again_example =
    cached_lookup_again 60 1 pair_map (text "u") start
      (record (cached_lookup 60 1 pair_map (text "u") start).1 { now = 9; rest = 3 }) pair_answer
      (omega arith) nothing_stored (ground (arith, pair_map-steady start)) refl (omega arith)

round_robin_rotates_example :
    (round_robin_lookup pair_map (text "u") (after_lookups pair_map (text "u") 3 start)).0
    ≡ ok (rotated ((position_of pair_answer start.positions + 3) % length pair_answer) pair_answer)
round_robin_rotates_example =
    round_robin_rotates pair_map (text "u") pair_answer start 3 pair_map-steady (omega arith)
      (unfold Dict.get in omega arith)

first_working_proxy_lem_example :
    (first_working_proxy (λ host port. host == text "b") 5 30 pair_answer []).0
    ≡ first_reachable (λ host port. host == text "b") 5 30 [] pair_answer
first_working_proxy_lem_example =
    first_working_proxy_lem (λ host port. host == text "b") 5 30 [] pair_answer

to_proxymap-decides_example : is_a type_error key_error ≡ false
unfolding to_proxymap lookup answer_for source_maps chain_map own_map chain_lookup or_next is_a
to_proxymap-decides_example =
    to_proxymap-decides (own_map (λ url. lift (raise type_error))) (λ u. silent_map)
      (λ u. silent_map) true empty_config (text "u") start type_error refl
