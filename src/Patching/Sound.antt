-- ===== src/Patching/Sound.antt =====
-- src/proxylib/patching.py: what every state that a program can bring about has.
use proxylib.Prelude.{
  ℕ, ◌<◌, ◌≡◌, refl, Bool, true, not, ◌&&◌, Option, none, some, List, [], ◌∷◌, arith, eqb, all,
  Bool-cases, inl, inr, map,
}
use proxylib.Python.Exec.{Result-cases}
use proxylib.Python.Text.{Text, ◌==◌}
use proxylib.Python.Dict
use proxylib.Python.Dict.{Dict, get-set, text-Lawful}
use proxylib.Patching.{
  Registered, Patch, Patching, Variables, push, new_patch, patch, undo, unpatch, in_effect,
  import_and_hook, check_targets, register_patcher,
}
use proxylib.Patching.Keeping.{
  Once, Known, Grows, Grows-trans, install_ready-Grows, hook_all-Grows, import_and_hook-Grows,
  hook-Grows, import_module-Grows,
}
use proxylib.Patching.Steps.{
  uninstall_each, uninstall, fresh, Step, registered, patched, imported_module, undone, unpatched,
  uninstalled, Reach, here, next,
}

-- the newest patch first, each with a smaller number than the one before, and than `bound`
abbrev pub Falling : {M : Type 0} → ℕ → List (Patch M) → Type 0
Falling bound [] = Unit {0}
Falling bound (p ∷ ps) = (p.number < bound) × Falling p.number ps

pub record IsSound {M : Type 0} (st : Patching M) : Type 0 where
  pub once : Once st.installed
  pub known : Known st
  pub falling : Falling st.made st.frames

has-set :
    (d : Dict Text Registered) (k : Text) (t : Registered) (names : List Text)
    → all (λ n. Dict.has ◌==◌ d n) names ≡ true
    → all (λ n. Dict.has ◌==◌ (Dict.set ◌==◌ d k t) n) names ≡ true
has-set d k t [] h = refl
has-set d k t (n ∷ ns) h = ground (arith, h, has-set d k t ns, get-set ◌==◌ text-Lawful d k n t)

Falling-weaken : {M : Type 0} (a b : ℕ) (ps : List (Patch M)) → Falling a ps → a < b → Falling b ps
Falling-weaken a b [] f h = tt
Falling-weaken a b (p ∷ ps) f h = (omega (arith, h, f.0), f.1)

module _ {M : Type 0} where
  Grows-IsSound : (a b : Patching M) → Grows a b → IsSound a → IsSound b
  Grows-IsSound a b g s = record {
    once = g.installed_once s.once;
    known = g.installed_known s.known;
    falling = rw (g.made_kept, g.frames_kept) s.falling;
  }

  push-IsSound :
      (proxymap : M) (targets : Option (List Text)) (st : Patching M)
      → IsSound st
      → IsSound (push (new_patch proxymap targets st) st)
  unfolding push
  push-IsSound proxymap targets st s = record {
    once = s.once;
    known = s.known;
    falling = (omega arith, s.falling);
  }

  undo_with :
      (p : Patch M) (ps : List (Patch M)) (st : Patching M)
      → IsSound (record st { frames = ps })
      → IsSound (undo p (record st { frames = ps })).1
  unfolding undo in_effect
  undo_with p [] st s = s
  undo_with p (top ∷ rest) st s = elim (Bool-cases (in_effect p.number (top ∷ rest))) [
    | inr out ↦ rw out s
    | inl on ↦ rw on (elim (Bool-cases (eqb top.number p.number)) [
      | inr covered ↦ rw covered s
      | inl last ↦ rw last (record {
        once = s.once;
        known = s.known;
        falling = Falling-weaken top.number st.made rest s.falling.1 s.falling.0;
      })
    ])
  ]

  undo-IsSound : (p : Patch M) (st : Patching M) → IsSound st → IsSound (undo p st).1
  undo-IsSound p st s = undo_with p st.frames st s

  uninstall-IsSound :
      (removes : Text → Bool) (st : Patching M) → IsSound st → IsSound (uninstall removes st).1
  unfolding uninstall
  uninstall-IsSound removes st s =
      elim (Result-cases (uninstall_each removes st.registry st.installed)) [
        | inl (u, e) ↦ rw (uninstall, e) (record { once = tt; known = refl; falling = tt })
        | inr (x, e) ↦ rw (uninstall, e) s
      ]

  module _ (variables : Variables) (installs spec loads : Text → Bool) where
    register-IsSound :
        (name : Text) (t : Registered) (replace : Bool) (st : Patching M)
        → IsSound st
        → IsSound (register_patcher variables installs spec loads name t replace st).1
    unfolding register_patcher
    register-IsSound name t replace st s =
        elim (Bool-cases (Dict.has ◌==◌ st.registry name && not replace)) [
          | inl e ↦ rw e s
          | inr e ↦ rw e (
              Grows-IsSound _ _ (hook-Grows variables installs spec loads name _) (record {
                once = s.once;
                known = has-set st.registry name t st.installed s.known;
                falling = s.falling;
              }))
        ]

    patch-IsSound :
        (proxymap : M) (targets : Option (List Text)) (st : Patching M)
        → IsSound st
        → IsSound (patch variables installs spec loads proxymap targets st).1
    unfolding patch
    patch-IsSound proxymap none st s =
        Grows-IsSound _ _
          (Grows-trans _ _ _
            (hook_all-Grows variables installs spec loads (map (λ e. e.0) st.registry)
              (push (new_patch proxymap none st) st))
            (install_ready-Grows variables installs spec loads _))
          (push-IsSound proxymap none st s)
    patch-IsSound proxymap (some names) st s =
        let grown =
          import_and_hook-Grows variables installs spec loads names
            (push (new_patch proxymap (some names) st) st) in
        let sound = push-IsSound proxymap (some names) st s in
        elim (Result-cases (check_targets spec st.registry st.imported names)) [
          | inr (x, e) ↦ rw e s
          | inl (u, e) ↦
              elim (Result-cases
                (import_and_hook variables installs spec loads names
                  (push (new_patch proxymap (some names) st) st)).0) [
                    | inr (x, f) ↦ rw (e, f) (Grows-IsSound _ _ grown sound)
                    | inl (v, f) ↦
                        rw (e, f)
                          (Grows-IsSound _ _
                            (Grows-trans _ _ _ grown
                              (install_ready-Grows variables installs spec loads _))
                            sound)
                  ]
        ]

  Step-IsSound : {a b : Patching M} → Step a b → IsSound a → IsSound b
  unfolding unpatch
  Step-IsSound (registered v i p l name t replace) s = register-IsSound v i p l name t replace _ s
  Step-IsSound (patched v i p l proxymap targets) s = patch-IsSound v i p l proxymap targets _ s
  Step-IsSound (imported_module v i p l name) s =
      Grows-IsSound _ _ (import_module-Grows v i p l name _) s
  Step-IsSound (undone p) s = undo-IsSound p _ s
  Step-IsSound unpatched s = record { once = s.once; known = s.known; falling = tt }
  Step-IsSound (uninstalled removes) s = uninstall-IsSound removes _ s

  fresh-IsSound : (imported : List Text) → IsSound (fresh {M = M} imported)
  fresh-IsSound imported = record { once = tt; known = refl; falling = tt }

  -- In every state that a program can bring about, no integration is installed twice, every installed
  -- one is registered, and the patches in effect have different numbers, the newest the highest.
  pub Reach-IsSound :
      {imported : List Text} {st : Patching M} → Reach (fresh imported) st → IsSound st
  Reach-IsSound here = fresh-IsSound _
  Reach-IsSound (next r step) = Step-IsSound step (Reach-IsSound r)
