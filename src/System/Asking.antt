-- ===== src/System/Asking.antt =====
-- src/proxylib/system/_nt.py and _posix/_gsettings.py: how often the machine is asked, and what a lookup
-- comes to.
use proxylib.Prelude.{ℕ, ◌-◌, ◌<◌, ◌≡◌, refl, Option, none, some, List, arith}
use proxylib.Python.Text.{Text, ◌==◌, ==_refl}
use proxylib.Python.Dict
use proxylib.Python.Dict.{Dict, get-set, text-Lawful}
use proxylib.System.Gsettings.{
  Listing, Machine, cache_ttl, fresh_listing, listing_of, list_recursively,
}

module _ {S : Type 0} (clock : S → ℕ) (run : Text → S → Option (List Text) × S) where
  list_recursively-stale :
      (schema : Text) (m : Machine S)
      → fresh_listing clock schema m ≡ none
      → list_recursively clock run schema m ≡ (
        listing_of (run schema m.rest).0,
        record {
          cache =
              Dict.set ◌==◌ m.cache schema
                (clock (run schema m.rest).1, listing_of (run schema m.rest).0);
          rest = (run schema m.rest).1;
        },
      )
  unfolding list_recursively
  list_recursively-stale schema m stale = rw (list_recursively, stale) refl

  list_recursively-fresh :
      (schema : Text) (m : Machine S) (values : Listing)
      → fresh_listing clock schema m ≡ some values
      → list_recursively clock run schema m ≡ (values, m)
  unfolding list_recursively
  list_recursively-fresh schema m values fresh = rw (list_recursively, fresh) refl

  fresh_listing_of_set :
      (schema : Text) (cache : Dict Text (ℕ × Listing)) (at : ℕ) (values : Listing) (later : S)
      → clock later - at < cache_ttl
      → fresh_listing clock schema
          (record { cache = Dict.set ◌==◌ cache schema (at, values); rest = later })
        ≡ some values
  unfolding fresh_listing
  fresh_listing_of_set schema cache at values later soon =
      rw (fresh_listing, get-set ◌==◌ text-Lawful cache schema schema (at, values), ==_refl schema)
        (ground (arith, soon))

  -- Reading a schema again less than `_CACHE_TTL` seconds after it was listed, with the cache as that
  -- left it, gives the same values, runs no program and leaves the cache as it is, also when the
  -- listing failed.
  pub list_recursively-again :
      (schema : Text) (m : Machine S) (later : S)
      → fresh_listing clock schema m ≡ none
      → clock later - clock (run schema m.rest).1 < cache_ttl
      → list_recursively clock run schema
          (record (list_recursively clock run schema m).1 { rest = later })
        ≡ (
          (list_recursively clock run schema m).0,
          record (list_recursively clock run schema m).1 { rest = later },
        )
  list_recursively-again schema m later stale soon = rw (list_recursively-stale schema m stale) (
      list_recursively-fresh schema _ _ (
        fresh_listing_of_set schema m.cache (clock (run schema m.rest).1)
          (listing_of (run schema m.rest).0) later soon))
