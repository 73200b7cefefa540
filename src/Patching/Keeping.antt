-- ===== src/Patching/Keeping.antt =====
-- What installing, importing and hooking clients leaves as it was.
use proxylib.Prelude.{
  ◌≡◌, refl, ◌∙◌, all, Bool, true, false, not, ◌&&◌, ◌||◌, List, [], ◌∷◌, arith, Option-cases,
  Bool-cases, inl, inr,
}
use proxylib.Python.Exec.{Result-cases}
use proxylib.Python.Text.{Text, ◌==◌}
use proxylib.Python.Dict
use proxylib.Python.Dict.{Dict}
use proxylib.Patching.{
  Registered, Patching, Variables, in_names, install, install_wanted, is_wanted, on_import,
  install_ready, hook, hook_all, import_module, import_target, import_and_hook, is_hooked,
}

-- no name stands twice
abbrev pub Once : List Text → Type 0
Once [] = Unit
Once (n ∷ ns) = (in_names n ns ≡ false) × Once ns

-- every installed target is registered
abbrev pub Known : {M : Type 0} → Patching M → Type 0
Known st = all (λ n. Dict.has ◌==◌ st.registry n) st.installed ≡ true

-- `b` has the patches and the registry of `a`, and more clients installed at most
pub record Grows {M : Type 0} (a b : Patching M) : Type 0 where
  pub frames_kept : b.frames ≡ a.frames
  pub made_kept : b.made ≡ a.made
  pub registry_kept : b.registry ≡ a.registry
  pub installed_kept : (n : Text) → in_names n a.installed ≡ true → in_names n b.installed ≡ true
  pub installed_once : Once a.installed → Once b.installed
  pub installed_known : Known a → Known b

in_names_more : (n m : Text) (ns : List Text) → in_names n ns ≡ true → in_names n (m ∷ ns) ≡ true
unfolding in_names
in_names_more n m ns h = ground (arith, h)

module _ {M : Type 0} where
  pub Grows-refl : (a : Patching M) → Grows a a
  Grows-refl a = record {
    frames_kept = refl;
    made_kept = refl;
    registry_kept = refl;
    installed_kept = λ n h. h;
    installed_once = λ h. h;
    installed_known = λ h. h;
  }

  pub Grows-trans : (a b c : Patching M) → Grows a b → Grows b c → Grows a c
  Grows-trans a b c k l = record {
    frames_kept = l.frames_kept ∙ k.frames_kept;
    made_kept = l.made_kept ∙ k.made_kept;
    registry_kept = l.registry_kept ∙ k.registry_kept;
    installed_kept = λ n h. l.installed_kept n (k.installed_kept n h);
    installed_once = λ h. l.installed_once (k.installed_once h);
    installed_known = λ h. l.installed_known (k.installed_known h);
  }

  module _ (variables : Variables) (installs spec loads : Text → Bool) where
    install-Grows :
        (name : Text) (st : Patching M) → Grows st (install variables installs spec loads name st)
    unfolding install
    install-Grows name st = record {
      frames_kept = ground arith;
      made_kept = ground arith;
      registry_kept = ground arith;
      installed_kept = λ n h.
          elim (Bool-cases (
            in_names name st.installed
            || not (Dict.has ◌==◌ st.registry name)
            || not (installs name))) [
              | inl e ↦ rw e h
              | inr e ↦ rw e (in_names_more n name st.installed h)
            ];
      installed_once = λ h.
          elim (Bool-cases (
            in_names name st.installed
            || not (Dict.has ◌==◌ st.registry name)
            || not (installs name))) [ inl e ↦ rw e h | inr e ↦ rw e (ground arith, h) ];
      installed_known = λ h.
          elim (Bool-cases (
            in_names name st.installed
            || not (Dict.has ◌==◌ st.registry name)
            || not (installs name))) [ inl e ↦ rw e h | inr e ↦ rw e (ground (arith, e, h)) ];
    }

    install_wanted-Grows :
        (ready : Registered → Bool) (es : Dict Text Registered) (st : Patching M)
        → Grows st (install_wanted variables installs spec loads ready es st)
    unfolding install_wanted
    install_wanted-Grows ready [] st = Grows-refl st
    install_wanted-Grows ready ((name, t) ∷ es) st =
        elim (Bool-cases (ready t && is_wanted variables st name)) [
          | inl e ↦ rw e (
              Grows-trans _ _ _ (install-Grows name st)
                (install_wanted-Grows ready es (install variables installs spec loads name st)))
          | inr e ↦ rw e (install_wanted-Grows ready es st)
        ]

    on_import-Grows :
        (m : Text) (st : Patching M) → Grows st (on_import variables installs spec loads m st)
    unfolding on_import
    on_import-Grows m st = install_wanted-Grows _ st.registry st

    pub install_ready-Grows :
        (st : Patching M) → Grows st (install_ready variables installs spec loads st)
    unfolding install_ready
    install_ready-Grows st = install_wanted-Grows _ st.registry st

    -- a change of what is hooked or imported
    Grows-beside :
        (a b c : Patching M)
        → Grows b c
        → b.frames ≡ a.frames
        → b.made ≡ a.made
        → b.registry ≡ a.registry
        → b.installed ≡ a.installed
        → Grows a c
    Grows-beside a b c g f m r i =
        Grows-trans a b c
          (record {
            frames_kept = f;
            made_kept = m;
            registry_kept = r;
            installed_kept = λ n h. rw i h;
            installed_once = λ h. rw i h;
            installed_known = λ h. rw (i, r) h;
          })
          g

    pub hook-Grows :
        (name : Text) (st : Patching M) → Grows st (hook variables installs spec loads name st)
    unfolding hook
    hook-Grows name st = elim (Bool-cases (in_names name st.hooked)) [
      | inl e ↦ rw e (Grows-refl st)
      | inr e ↦ rw e (elim (Option-cases (Dict.get ◌==◌ st.registry name)) [
        | inl n ↦ rw n (
            Grows-beside st _ _ (Grows-refl (record st { hooked = name ∷ st.hooked })) refl refl
              refl refl)
        | inr (t, g) ↦ rw g (elim (Bool-cases (in_names t.module_name st.imported)) [
          | inl i ↦ rw i (
              Grows-beside st _ _
                (on_import-Grows t.module_name (record st { hooked = name ∷ st.hooked })) refl refl
                refl refl)
          | inr i ↦ rw i (
              Grows-beside st _ _ (Grows-refl (record st { hooked = name ∷ st.hooked })) refl refl
                refl refl)
        ])
      ])
    ]

    pub hook_all-Grows :
        (names : List Text) (st : Patching M)
        → Grows st (hook_all variables installs spec loads names st)
    unfolding hook_all
    hook_all-Grows [] st = Grows-refl st
    hook_all-Grows (n ∷ ns) st =
        Grows-trans _ _ _ (hook-Grows n st)
          (hook_all-Grows ns (hook variables installs spec loads n st))

    pub import_module-Grows :
        (m : Text) (st : Patching M) → Grows st (import_module variables installs spec loads m st).1
    unfolding import_module
    import_module-Grows m st = elim (Bool-cases (in_names m st.imported)) [
      | inl e ↦ rw e (Grows-refl st)
      | inr e ↦ rw e (elim (Bool-cases (loads m)) [
        | inr l ↦ rw l (Grows-refl st)
        | inl l ↦ rw l (elim (Bool-cases (is_hooked variables installs spec loads m st)) [
          | inl i ↦ rw i (
              Grows-beside st _ _ (on_import-Grows m (record st { imported = m ∷ st.imported }))
                refl refl refl refl)
          | inr i ↦ rw i (
              Grows-beside st _ _ (Grows-refl (record st { imported = m ∷ st.imported })) refl refl
                refl refl)
        ])
      ])
    ]

    import_target-Grows :
        (name : Text) (st : Patching M)
        → Grows st (import_target variables installs spec loads name st).1
    unfolding import_target
    import_target-Grows name st = elim (Option-cases (Dict.get ◌==◌ st.registry name)) [
      | inl n ↦ rw (n, import_target) (Grows-refl st)
      | inr (t, g) ↦ rw (g, import_target) (import_module-Grows t.module_name st)
    ]

    pub import_and_hook-Grows :
        (names : List Text) (st : Patching M)
        → Grows st (import_and_hook variables installs spec loads names st).1
    unfolding import_and_hook
    import_and_hook-Grows [] st = Grows-refl st
    import_and_hook-Grows (n ∷ ns) st =
        elim (Result-cases (import_target variables installs spec loads n st).0) [
          | inl (u, e) ↦ rw e (
              Grows-trans _ _ _ (import_target-Grows n st) (
                Grows-trans _ _ _
                  (hook-Grows n (import_target variables installs spec loads n st).1)
                  (import_and_hook-Grows ns (
                    hook variables installs spec loads n
                      (import_target variables installs spec loads n st).1))))
          | inr (x, e) ↦ rw e (import_target-Grows n st)
        ]
