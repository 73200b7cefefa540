-- ===== src/Pac/Timed.antt =====
-- The caches of src/proxylib/pac/: a value with the time it was stored at, fresh for `ttl` seconds.
use proxylib.Prelude.{ℕ, ◌-◌, ◌<◌, ◌≡◌, Option, none, some, arith, ltb, if◌then◌else◌}
use proxylib.Python.Text.{Text, ◌==◌, ==_refl}
use proxylib.Python.Dict
use proxylib.Python.Dict.{Dict, get-set, text-Lawful}

-- `cached is not None and time.monotonic() - cached[0] < cache_ttl`
unfoldable pub cached_at : {V : Type 0} → ℕ → ℕ → Text → Dict Text (ℕ × V) → Option V
cached_at now ttl key cache = elim (Dict.get ◌==◌ cache key) [
  | none ↦ none
  | some (t, v) ↦ if ltb (now - t) ttl then some v else none
]

pub cached_at-set :
    {V : Type 0} (t now ttl : ℕ) (key : Text) (v : V) (cache : Dict Text (ℕ × V))
    → now - t < ttl
    → cached_at now ttl key (Dict.set ◌==◌ cache key (t, v)) ≡ some v
unfolding cached_at
cached_at-set t now ttl key v cache soon =
    rw (get-set ◌==◌ text-Lawful cache key key (t, v), ==_refl key, cached_at)
      (ground (arith, soon))
