-- ===== src/Patching/Stack.antt =====
-- src/proxylib/patching.py: `patch`, `undo` and `active` together.
use proxylib.Prelude.{
  ◌≡◌, ◌∙◌, sym, ap, suc, Bool, false, List, ◌∷◌, arith, if◌then◌else◌, Option, none, some, inl,
  inr, map, eqb,
}
use proxylib.Python.Exec.{ok, raise, runtime_error, Result-cases}
use proxylib.Python.Text.{Text}
use proxylib.Patching.{
  Patch, Patching, Variables, covers, newest_covering, default_map, active, in_effect, undo, push,
  patch, new_patch, hook_all, import_and_hook, check_targets,
}
use proxylib.Patching.Keeping.{
  Once, Grows, Grows-trans, install_ready-Grows, hook_all-Grows, import_and_hook-Grows,
}

module _ {M : Type 0} (variables : Variables) (installs spec loads : Text → Bool) where
  patch-push :
      (proxymap : M) (targets : Option (List Text)) (st : Patching M) (p : Patch M)
      → (patch variables installs spec loads proxymap targets st).0 ≡ ok p
      → (p ≡ new_patch proxymap targets st)
        × Grows
            (push (new_patch proxymap targets st) st)
            (patch variables installs spec loads proxymap targets st).1
  unfolding patch
  patch-push proxymap none st p h =
      let st' = push (new_patch proxymap none st) st in
      (
        ground (arith, h),
        Grows-trans _ _ _
            (hook_all-Grows variables installs spec loads (map (λ e. e.0) st.registry) st')
            (install_ready-Grows variables installs spec loads
              (hook_all variables installs spec loads (map (λ e. e.0) st.registry) st')),
      )
  patch-push proxymap (some names) st p h =
      elim (Result-cases (check_targets spec st.registry st.imported names)) [
        | inr (x, e) ↦ absurd (ground (arith, e, h))
        | inl (u, e) ↦
            elim (Result-cases
              (import_and_hook variables installs spec loads names
                (push (new_patch proxymap (some names) st) st)).0) [
                  | inr (x, f) ↦ absurd (ground (arith, e, f, h))
                  | inl (v, f) ↦ (
                    ground (arith, e, f, h),
                    rw (e, f)
                        (Grows-trans _ _ _
                          (import_and_hook-Grows variables installs spec loads names
                            (push (new_patch proxymap (some names) st) st))
                          (install_ready-Grows variables installs spec loads _)),
                  )
                ]
      ]

  patch-frames :
      (proxymap : M) (targets : Option (List Text)) (st : Patching M) (p : Patch M)
      → (patch variables installs spec loads proxymap targets st).0 ≡ ok p
      → ((patch variables installs spec loads proxymap targets st).1.frames ≡ p ∷ st.frames)
        × ((patch variables installs spec loads proxymap targets st).1.registry ≡ st.registry)
        × (p ≡ new_patch proxymap targets st)
        × ((patch variables installs spec loads proxymap targets st).1.made ≡ suc st.made)
  unfolding push
  patch-frames proxymap targets st p h =
      let (e, g) = patch-push proxymap targets st p h in
      (g.frames_kept ∙ ap (λ (q : Patch M). q ∷ st.frames) (sym e), g.registry_kept, e, g.made_kept)

  -- While a patch is the newest, a client that it covers asks its map, and any other asks what it
  -- asked before.
  pub active-patch :
      (auto_proxy no_opinion : M) (proxymap : M) (targets : Option (List Text)) (st : Patching M)
      (p : Patch M) (client : Text)
      → (patch variables installs spec loads proxymap targets st).0 ≡ ok p
      → active auto_proxy no_opinion variables
          (patch variables installs spec loads proxymap targets st).1
          client
        ≡ (if covers client p then proxymap else active auto_proxy no_opinion variables st client)
  unfolding active newest_covering default_map
  active-patch auto_proxy no_opinion proxymap targets st p client h =
      let (f, r, e, m) = patch-frames proxymap targets st p h in rw (f, r) (ground (arith, e))

  -- Undoing the newest patch succeeds, and every client then asks what it asked before that patch.
  pub undo-patch :
      (auto_proxy no_opinion : M) (proxymap : M) (targets : Option (List Text)) (st : Patching M)
      (p : Patch M) (client : Text)
      → (patch variables installs spec loads proxymap targets st).0 ≡ ok p
      → ((undo p (patch variables installs spec loads proxymap targets st).1).0 ≡ ok tt)
        × (active auto_proxy no_opinion variables
              (undo p (patch variables installs spec loads proxymap targets st).1).1
              client
            ≡ active auto_proxy no_opinion variables st client)
  unfolding undo in_effect active default_map
  undo-patch auto_proxy no_opinion proxymap targets st p client h =
      let (f, r, e, m) = patch-frames proxymap targets st p h in
      (rw f (ground arith), rw (f, r) (ground arith))

  undo_covered :
      (st : Patching M) (p q : Patch M) (rest : List (Patch M))
      → st.frames ≡ q ∷ p ∷ rest
      → eqb q.number p.number ≡ false
      → undo p st ≡ (raise runtime_error, st)
  unfolding undo in_effect
  undo_covered st p q rest f n = rw f (ground (arith, n))

  -- A patch that a later one covers cannot be undone: `undo` raises `RuntimeError` and changes nothing.
  pub undo-out_of_order :
      (first second : M) (targets more : Option (List Text)) (st : Patching M) (p q : Patch M)
      → (patch variables installs spec loads first targets st).0 ≡ ok p
      → (patch variables installs spec loads second more
          (patch variables installs spec loads first targets st).1).0
        ≡ ok q
      → undo p
          (patch variables installs spec loads second more
            (patch variables installs spec loads first targets st).1).1
        ≡ (
          raise runtime_error,
          (patch variables installs spec loads second more
              (patch variables installs spec loads first targets st).1).1,
        )
  undo-out_of_order first second targets more st p q h k =
      let (f, r, e, m) = patch-frames first targets st p h in
      let (g, r', e', m') = patch-frames second more _ q k in
      undo_covered _ p q st.frames (g ∙ ap (λ (ps : List (Patch M)). q ∷ ps) f)
        (rw (e, e', m) (ground arith))

  -- Making a patch never installs a client's integration twice.
  pub patch-Once :
      (proxymap : M) (targets : Option (List Text)) (st : Patching M) (p : Patch M)
      → (patch variables installs spec loads proxymap targets st).0 ≡ ok p
      → Once st.installed
      → Once (patch variables installs spec loads proxymap targets st).1.installed
  unfolding push
  patch-Once proxymap targets st p h once =
      let (e, g) = patch-push proxymap targets st p h in g.installed_once once
