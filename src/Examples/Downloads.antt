-- ===== src/Examples/Downloads.antt =====
-- Downloaded PAC scripts, at concrete inputs.
use proxylib.Prelude.{Bool, ℕ, ◌+◌, ◌≡◌, refl, true, none, some, [], ◌∷◌}
use proxylib.Python.Exec.{Result, ok}
use proxylib.Python.Text.{
  Text, text, split, lstrip, rstrip, is_space, lower_char, starts_with, ◌==◌,
}
use proxylib.Python.Dict
use proxylib.Pac.Child.{Bytes}
use proxylib.Pac.Download.{
  World, is_file, is_kept, cached_text, download, store_body, fetch, decode, utf_8_sig, scan,
  push_code, next_byte, lead,
}
use proxylib.Pac.Engines.{get_engine, priority, wanted, or_list, is_engine, first_installed}

-- a site whose clock counts what was opened
abbrev site_open : Text → ℕ → Result Bytes × ℕ
site_open url n = (ok (195 ∷ 169 ∷ 33 ∷ []), n + 2)

abbrev before : World ℕ
before = record { download_cache = []; rest = 1 }

abbrev after : World ℕ
after = record { download_cache = (text "http://x/p", (3, 233 ∷ 33 ∷ [])) ∷ []; rest = 3 }

fetched :
    fetch (λ n. n) site_open (text "http://x/p") 9 (some 300) before ≡ (ok (233 ∷ 33 ∷ []), after)
unfolding fetch cached_text download store_body is_kept is_file decode utf_8_sig scan push_code
    next_byte lead starts_with lower_char Dict.get Dict.set ◌==◌
fetched = refl

kept_url : is_kept (text "http://x/p") (some 300) ≡ true
unfolding is_kept is_file starts_with lower_char
kept_url = refl

none_cached : cached_text (λ n. n) site_open (text "http://x/p") (some 300) before ≡ none
unfolding cached_text is_kept is_file starts_with lower_char Dict.get
none_cached = refl

-- a machine with dukpy only, where the variable prefers quickjs
abbrev has_dukpy : Text → Bool
has_dukpy name = name == text "dukpy"

dukpy_chosen : get_engine has_dukpy none (text "quickjs, dukpy") ≡ ok (some (text "dukpy"))
unfolding get_engine priority wanted or_list is_engine first_installed split lstrip rstrip is_space
    ◌==◌
dukpy_chosen = refl
