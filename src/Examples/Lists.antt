-- ===== src/Examples/Lists.antt =====
-- Maps made on the first lookup, and lists of addresses, at concrete inputs.
use mathlib.Core.List.{Perm}
use proxylib.Prelude.{ℕ, ◌+◌, ◌≡◌, refl, none, some, List, [], ◌∷◌, map}
use proxylib.Python.Exec.{Result, ok}
use proxylib.Python.Text.{Text, text, split, is_digit, number_from, ◌==◌}
use proxylib.Python.Ip.{Address, v4, ip_address, parse_v4}
use proxylib.Lookup.{Proxies}
use proxylib.Source.Lazy.{getitems, asks, close, getitems-asks}
use proxylib.Pac.Addresses.{keyed, sort_addresses, address_le, sort_keyed, sort, insert, is_v4}
use proxylib.Pac.Addresses.Sorting.{InOrder, sort_addresses-InOrder}
use proxylib.Samples.{offline, squid}

-- making a map takes a unit of time, and so does asking it
abbrev make_one : ℕ → Result ℕ × ℕ
make_one s = (ok 5, s + 1)

abbrev ask_one : ℕ → Text → ℕ → Result Proxies × ℕ
ask_one m url s = (ok (some squid ∷ []), s + 1)

getitems-asks_example :
    (getitems make_one ask_one
        (λ m s. s)
        (text "a" ∷ text "b" ∷ [])
        (record { made = none; rest = 0 })
      ≡ (
        (asks make_one ask_one (λ m s. s) 5 (text "a" ∷ text "b" ∷ []) 1).0,
        record {
          made = some 5;
          rest = (asks make_one ask_one (λ m s. s) 5 (text "a" ∷ text "b" ∷ []) 1).1;
        },
      ))
    × (close make_one ask_one
          (λ m s. s)
          (getitems make_one ask_one
            (λ m s. s)
            (text "a" ∷ text "b" ∷ [])
            (record { made = none; rest = 0 })).1
        ≡ record {
          made = none;
          rest = (asks make_one ask_one (λ m s. s) 5 (text "a" ∷ text "b" ∷ []) 1).1;
        })
getitems-asks_example =
    getitems-asks make_one ask_one (λ m s. s) 5 0 1 (text "a") (text "b" ∷ []) refl

abbrev two : List Text
two = text "10.0.0.2" ∷ text "9.0.0.1" ∷ []

abbrev two_keyed : List (Text × Address)
two_keyed = (text "10.0.0.2", v4 167772162) ∷ (text "9.0.0.1", v4 150994945) ∷ []

two_valid : keyed two ≡ some two_keyed
unfolding keyed ip_address parse_v4 split is_digit ◌==◌ number_from
two_valid = refl

two_sorted : sort_addresses two ≡ ok (text "9.0.0.1" ∷ text "10.0.0.2" ∷ [])
unfolding sort_addresses keyed ip_address parse_v4 split is_digit ◌==◌ number_from sort_keyed sort
    insert address_le is_v4
two_sorted = refl

sort_addresses-InOrder_example :
    (js : List (Text × Address)) × (text "9.0.0.1" ∷ text "10.0.0.2" ∷ [] ≡ map (λ j. j.0) js)
    × Perm js two_keyed
    × (map (λ k. k.0) two_keyed ≡ two)
    × InOrder (λ j k. address_le j.1 k.1) js
sort_addresses-InOrder_example =
    sort_addresses-InOrder two (text "9.0.0.1" ∷ text "10.0.0.2" ∷ []) two_keyed two_valid
      two_sorted

abbrev written : Address → Text
written (v4 n) = text "1.2.3.4"
written a = text "::1"
