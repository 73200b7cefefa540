-- ===== src/Glob.antt =====
-- The glob patterns of src/proxylib/bypass.py (`_glob`) and src/proxylib/pac/_functions.py
-- (`_shexp_regex`): "*" is `.*`, "?" is `.`, any other character stands for itself, and `fullmatch`
-- reads the whole text.
pub mod Laws
use proxylib.Prelude.{ℕ, Bool, true, false, ◌&&◌, ◌||◌, List, [], ◌∷◌, map, eqb, if◌then◌else◌}
use proxylib.Python.Text.{Text, lower_char}

pub data Token : Type 0 where
  star any_char : Token
  lit : ℕ → Token

abbrev pub token : ℕ → Token
token c = if eqb c b'*' then star else if eqb c b'?' then any_char else lit c

-- `compile`, as its tokens
unfoldable pub compile : Text → List Token
compile pattern = map token pattern

-- `fullmatch`; two characters are the same if `fold` takes them to the same one
unfoldable pub fullmatch : (ℕ → ℕ) → List Token → Text → Bool
fullmatch fold [] [] = true
fullmatch fold [] (c ∷ s) = false
fullmatch fold (star ∷ p) [] = fullmatch fold p []
fullmatch fold (star ∷ p) (c ∷ s) = fullmatch fold p (c ∷ s) || fullmatch fold (star ∷ p) s
fullmatch fold (any_char ∷ p) [] = false
fullmatch fold (any_char ∷ p) (c ∷ s) = fullmatch fold p s
fullmatch fold (lit d ∷ p) [] = false
fullmatch fold (lit d ∷ p) (c ∷ s) = eqb (fold d) (fold c) && fullmatch fold p s

-- `_glob(pattern).fullmatch(host)`, with `re.IGNORECASE`
unfoldable pub glob_match : Text → Text → Bool
unfolding compile fullmatch lower_char
glob_match pattern host = fullmatch lower_char (compile pattern) host

-- `shExpMatch(test, shexp)`, which minds the case
unfoldable pub sh_exp_match : Text → Text → Bool
unfolding compile fullmatch
sh_exp_match test shexp = fullmatch (λ c. c) (compile shexp) test
