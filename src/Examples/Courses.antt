-- ===== src/Examples/Courses.antt =====
-- Courses of lookups, at concrete inputs.
use proxylib.Prelude.{ℕ, ◌-◌, ◌≤◌, ◌<◌, ◌≡◌, ◌⊎◌, refl, ap, none, [], ◌∷◌, arith, length, Member}
use proxylib.Python.Exec.{ok}
use proxylib.Python.Text.{Text, text}
use proxylib.Lookup.{lookup}
use proxylib.Lookup.Chains.{lookup-own_map}
use proxylib.Wrappers.{World, cached_read, cached_lookup}
use proxylib.Wrappers.Caching.{cached_lookup_again}
use proxylib.Python.Dict
use proxylib.Wrappers.Freshness.{
  Log, Course, made, looked, waited, log_lookup, cached_lookup-refines,
}
use proxylib.Wrappers.Bounds.{InRange, after_urls, round_robin_lookup-bounds}
use proxylib.Samples.{offline, pair_answer, pair_map, start}

pair_map_leaves : (url : Text) (w : World ℕ) → (lookup pair_map url w).1.entries ≡ w.entries
pair_map_leaves url w =
    ap (λ q. q.1.entries) (lookup-own_map _ url w (λ ps h z. ground (arith, h, z)))

-- the state after one lookup, and what it logged
abbrev once : World ℕ
once = (cached_lookup 60 10 pair_map (text "a") start).1

abbrev once_log : Log
once_log = log_lookup 60 10 pair_map (text "a") start []

abbrev later : World ℕ
later = record once { now = 9; rest = 3 }

later-Course : Course 60 10 pair_map later once_log
later-Course = waited once later once_log refl (looked (text "a") start [] (made start refl))

nothing_stored : (cached_read start.now 60 (text "a") start.entries).0 ≡ none
unfolding cached_read Dict.get
nothing_stored = refl

again : (cached_lookup 60 10 pair_map (text "a") later).0 ≡ ok pair_answer
again =
    (cached_lookup_again 60 10 pair_map (text "a") start later pair_answer (omega arith)
      nothing_stored
      (ap (λ q. q.0) (lookup-own_map _ (text "a") start (λ ps h z. ground (arith, h, z)))) refl
      (omega arith)).0

cached_lookup-refines_example :
    (((lookup pair_map (text "a") later).0 ≡ ok pair_answer)
      ⊎ ((t : ℕ) × (Member (text "a", (t, pair_answer)) once_log) × (9 - t < 60)))
    × (length later.entries ≤ 10)
cached_lookup-refines_example =
    cached_lookup-refines 60 10 pair_map pair_map_leaves later once_log (text "a") pair_answer
      later-Course again

pair_map_positions : (url : Text) (w : World ℕ) → (lookup pair_map url w).1.positions ≡ w.positions
pair_map_positions url w =
    ap (λ q. q.1.positions) (lookup-own_map _ url w (λ ps h z. ground (arith, h, z)))

round_robin_lookup-bounds_example :
    InRange (after_urls pair_map (text "a" ∷ text "b" ∷ text "a" ∷ []) start).positions
round_robin_lookup-bounds_example =
    round_robin_lookup-bounds pair_map (text "a" ∷ text "b" ∷ text "a" ∷ []) start
      pair_map_positions (tt, omega arith)
