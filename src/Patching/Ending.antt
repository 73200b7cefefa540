-- ===== src/Patching/Ending.antt =====
-- src/proxylib/patching.py: ending a patch, and removing every integration, in a state that a program
-- can bring about.
use proxylib.Prelude.{
  ℕ, ◌+◌, ◌<◌, ◌≡◌, refl, Bool, true, false, List, [], ◌∷◌, arith, all, Option-cases, inl, inr,
}
use proxylib.Python.Exec.{ok}
use proxylib.Python.Text.{Text, ◌==◌}
use proxylib.Python.Dict
use proxylib.Python.Dict.{Dict}
use proxylib.Patching.{Registered, Patch, Patching, undo, in_effect}
use proxylib.Patching.Steps.{uninstall_each, uninstall, fresh, Reach}
use proxylib.Patching.Sound.{Falling, Reach-IsSound}

uninstall_each-ok :
    (removes : Text → Bool) (registry : Dict Text Registered) (names : List Text)
    → ((name : Text) → removes name ≡ true)
    → all (λ n. Dict.has ◌==◌ registry n) names ≡ true
    → uninstall_each removes registry names ≡ ok tt
unfolding uninstall_each
uninstall_each-ok removes registry [] r h = refl
uninstall_each-ok removes registry (n ∷ ns) r h = elim (Option-cases (Dict.get ◌==◌ registry n)) [
  | inl e ↦ absurd (ground (arith, e, h))
  | inr (t, e) ↦
      rw (uninstall_each, e, r n) (uninstall_each-ok removes registry ns r (ground (arith, h)))
]

module _ {M : Type 0} where
  -- In every state that a program can bring about, where each client's function returns, `_uninstall`
  -- succeeds: it finds every installed integration in the registry, and leaves none installed and no
  -- patch in effect.
  pub uninstall-succeeds :
      (imported : List Text) (st : Patching M) (removes : Text → Bool)
      → Reach (fresh imported) st
      → ((name : Text) → removes name ≡ true)
      → uninstall removes st ≡ (ok tt, record st { installed = []; frames = [] })
  unfolding uninstall
  uninstall-succeeds imported st removes r all_return =
      let s = Reach-IsSound r in
      let found : uninstall_each removes st.registry st.installed ≡ ok tt =
        uninstall_each-ok removes st.registry st.installed all_return s.known in
      rw (uninstall, found) refl

  Falling-absent :
      (bound number : ℕ) (ps : List (Patch M))
      → Falling bound ps
      → bound < number + 1
      → in_effect number ps ≡ false
  unfolding in_effect
  Falling-absent bound number [] f h = refl
  Falling-absent bound number (p ∷ ps) f h =
      ground (arith, f.0, h, Falling-absent p.number number ps f.1 (omega (arith, h, f.0)))

  undo_ends :
      (p : Patch M) (ps : List (Patch M)) (st : Patching M)
      → Falling st.made ps
      → (undo p (record st { frames = ps })).0 ≡ ok tt
      → in_effect p.number (undo p (record st { frames = ps })).1.frames ≡ false
  unfolding undo in_effect
  undo_ends p [] st f h = refl
  undo_ends p (top ∷ rest) st f h =
      ground (arith, f, h, Falling-absent top.number p.number rest f.1)

  -- In every state that a program can bring about, a patch whose `undo` returns is in effect no more.
  pub undo-ends :
      (imported : List Text) (st : Patching M) (p : Patch M)
      → Reach (fresh imported) st
      → (undo p st).0 ≡ ok tt
      → in_effect p.number (undo p st).1.frames ≡ false
  undo-ends imported st p r h = undo_ends p st.frames st (Reach-IsSound r).falling h
