-- ===== src/Pac/Engines/Choice.antt =====
-- src/proxylib/pac/engines/__init__.py: what `get_engine` chooses.
use proxylib.Prelude.{
  ◌≡◌, Bool, true, false, Option, none, some, List, [], ◌∷◌, All, all, arith, Bool-cases, inl, inr,
}
use proxylib.Python.Exec.{Result, ok}
use proxylib.Python.Text.{Text}
use proxylib.Pac.Engines.{is_engine, wanted, priority, first_installed, get_engine}

module _ (installed : Text → Bool) where
  -- the engine chosen among names: a known one that is installed, or none when none of them is
  abbrev pub Chosen : List Text → Option Text → Type 0
  Chosen names (some name) = (is_engine name ≡ true) × (installed name ≡ true)
  Chosen names none = All (λ name. installed name ≡ false) names

  Chosen-cons :
      (name : Text) (names : List Text) (r : Option Text)
      → installed name ≡ false
      → Chosen names r
      → Chosen (name ∷ names) r
  Chosen-cons name names none e c = (e, c)
  Chosen-cons name names (some n) e c = c

  first_installed-Chosen :
      (names : List Text)
      → all is_engine names ≡ true
      → Chosen names (first_installed installed names)
  unfolding first_installed
  first_installed-Chosen [] h = tt
  first_installed-Chosen (name ∷ names) h = elim (Bool-cases (installed name)) [
    | inl e ↦ rw (first_installed, e) (ground (arith, h), e)
    | inr e ↦
        rw (first_installed, e)
          (Chosen-cons name names (first_installed installed names) e
            (first_installed-Chosen names (ground (arith, h))))
  ]

  -- When `get_engine` answers, it is an engine that proxylib knows and that is installed, or it is
  -- `None` and none of the engines it was asked for is installed.
  pub get_engine-Chosen :
      (engine : Option Text) (env : Text) (r : Option Text)
      → get_engine installed engine env ≡ ok r
      → Chosen (wanted engine env) r
  unfolding get_engine priority
  get_engine-Chosen engine env r h = elim (Bool-cases (all is_engine (wanted engine env))) [
    | inl known ↦
        answered (rw (get_engine, priority, known) at h)
          (first_installed-Chosen (wanted engine env) known)
    | inr unknown ↦ absurd (ground (arith, unknown, h))
  ]
    where
      answered :
          {a : Option Text}
          → ◌≡◌ {A = Result (Option Text)} (ok a) (ok r)
          → Chosen (wanted engine env) a
          → Chosen (wanted engine env) r
      answered {a = a} e c = let same : a ≡ r = cc in rw (same) at c
