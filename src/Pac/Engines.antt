-- ===== src/Pac/Engines.antt =====
-- src/proxylib/pac/engines/__init__.py: which JavaScript engine runs a script; and `PacScript.__init__` of
-- src/proxylib/pac/script.py. Which engines are installed is an argument; one that is installed can be
-- loaded.
pub mod Choice
use proxylib.Prelude.{
  ℕ, ◌≡◌, refl, Bool, true, false, not, ◌&&◌, ◌||◌, Option, none, some, List, [], ◌∷◌, arith,
  if◌then◌else◌, keep, map, all, Bool-cases, inl, inr,
}
use proxylib.Python.Exec.{
  Error, Result, ok, raise, value_error, pac_error, missing_extra_error, ◌>>=◌, ◌>>◌, refuse_if,
  Result-cases,
}
use proxylib.Python.Text.{Text, text, split, strip, is_empty, contains, ◌==◌}
use proxylib.Pac.Script.{PacScript, Outcome, done, broke, overran}

-- `_ENGINES`, in the order of `_DEFAULT_PRIORITY`
abbrev pub default_priority : List Text
default_priority = text "quickjs" ∷ text "dukpy" ∷ []

unfoldable pub is_engine : Text → Bool
is_engine name = name == text "quickjs" || name == text "dukpy"

-- `a or b`, for lists
unfoldable pub or_list : List Text → List Text → List Text
or_list [] other = other
or_list (name ∷ names) other = name ∷ names

-- the engines that `_priority` is asked for
unfoldable pub wanted : Option Text → Text → List Text
wanted (some (c ∷ name)) env = (c ∷ name) ∷ []
wanted engine env =
    or_list (keep (λ n. not (is_empty n)) (map strip (split b',' env))) default_priority

-- `_priority`
unfoldable pub priority : Option Text → Text → Result (List Text)
priority engine env = do
  refuse_if (not (all is_engine (wanted engine env))) value_error
  ok (wanted engine env)

-- `on_missing_engine`
pub data OnMissing : Type 0 where
  on_missing_raise : OnMissing
  on_missing_direct : OnMissing
  on_missing_other : OnMissing

module _ (installed : Text → Bool) where
  -- `names`
  unfoldable pub names : List Text
  names = keep installed default_priority

  unfoldable pub first_installed : List Text → Option Text
  first_installed [] = none
  first_installed (name ∷ rest) = if installed name then some name else first_installed rest

  -- `get_engine`, as the name of the engine
  unfoldable pub get_engine : Option Text → Text → Result (Option Text)
  get_engine engine env = do wanted_names ← priority engine env; ok (first_installed wanted_names)

-- `_Runner(…)` in the constructor, by what starting the helper process comes to
unfoldable pub start_runner : Outcome (Unit {0}) → Result PacScript
start_runner (done _) = ok (record { has_runner = true; failed = false; retry_at = 0 })
start_runner (broke e) = raise e
start_runner overran = raise pac_error

-- the constructor, once the engine is looked up
unfoldable pub init_with : OnMissing → Outcome (Unit {0}) → Option Text → Result PacScript
init_with on_missing started (some name) = start_runner started
init_with on_missing_raise started none = raise missing_extra_error
init_with on_missing started none = ok (record { has_runner = false; failed = false; retry_at = 0 })

unfoldable pub is_other : OnMissing → Bool
is_other on_missing_other = true
is_other on_missing = false

-- `PacScript(source, engine=…, on_missing_engine=…)`
unfoldable pub init :
    (Text → Bool) → Text → Option Text → Text → OnMissing → Outcome (Unit {0}) → Result PacScript
init installed source engine env on_missing started = do
  refuse_if (is_other on_missing) value_error
  refuse_if (not (contains source (text "FindProxyForURL"))) pac_error
  engine_cls ← get_engine installed engine env
  init_with on_missing started engine_cls
