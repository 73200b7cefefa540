-- ===== src/Patching.antt =====
-- src/proxylib/patching.py: the stack of patches and the targets that get an integration. Importing a
-- client and calling its installer run code outside the repository: what they come to is an argument.
-- The locks, the warnings and the removal of an integration are left out.
pub mod Keeping
pub mod Stack
pub mod Steps
pub mod Sound
pub mod Ending
pub mod Integrating
use proxylib.Prelude.{
  ℕ, suc, ◌+◌, Bool, true, false, not, ◌&&◌, ◌||◌, Option, none, some, List, [], ◌∷◌, map, eqb,
  if◌then◌else◌, any, is_some, or_else, keep,
}
use proxylib.Python.Exec.{
  Error, Result, ok, raise, value_error, runtime_error, missing_extra_error, import_error, Exec,
  bind, lift, continue,
}
use proxylib.Python.Text.{Text, text, strip, lower, is_empty, split, cut, ◌==◌}
use proxylib.Python.Dict
use proxylib.Python.Dict.{Dict}

-- `_Target`, less the two functions of the client
pub record Registered : Type 0 where
  pub module_name : Text
  pub unnamed : Bool

-- `Patch`; `number` stands for the identity of the object
pub record Patch (M : Type 0) : Type 0 where
  pub number : ℕ
  pub proxymap : M
  pub targets : Option (List Text)

-- the module's globals, with the newest patch first and the clients that are imported
pub record Patching (M : Type 0) : Type 0 where
  pub registry : Dict Text Registered
  pub installed : List Text
  pub hooked : List Text
  pub frames : List (Patch M)
  pub made : ℕ
  pub imported : List Text

-- the two environment variables, `""` where they are not set
pub record Variables : Type 0 where
  pub importpatch : Text
  pub autoproxy : Text

unfoldable pub in_names : Text → List Text → Bool
in_names name names = any (λ n. n == name) names

-- `raw.lower() in _TRUE` and `in _FALSE`
unfoldable pub is_true : Text → Bool
is_true raw = in_names (lower raw) (text "1" ∷ text "true" ∷ text "yes" ∷ text "on" ∷ [])

unfoldable pub is_false : Text → Bool
is_false raw = in_names (lower raw) (text "0" ∷ text "false" ∷ text "no" ∷ text "off" ∷ [])

-- `by_module`
unfoldable pub by_module : Dict Text Registered → Dict Text Text
by_module registry =
    Dict.set ◌==◌ (Dict.set ◌==◌ (modules [] registry) (text "urllib.request") (text "urllib"))
      (text "pip._vendor.requests") (text "pip")
  where
    modules : Dict Text Text → Dict Text Registered → Dict Text Text
    modules found [] = found
    modules found ((name, target) ∷ rest) =
        modules (Dict.set ◌==◌ found target.module_name name) rest

unfoldable pub parts_of : Dict Text Registered → List Text → List Text
parts_of registry [] = []
parts_of registry (part ∷ parts) =
    let rest = parts_of registry parts in
    let word = strip part in
    let name = or_else (Dict.get ◌==◌ (by_module registry) word) word in
    if is_empty word || not (Dict.has ◌==◌ registry name) then rest else name ∷ rest

-- `_names`
unfoldable pub names_of : Dict Text Registered → Text → List Text
names_of registry raw =
    if is_true raw then map (λ e. e.0) registry else parts_of registry (split b':' raw)

-- `_Setting`
pub record Setting : Type 0 where
  pub off : Bool
  pub named : Option (List Text)

-- `_setting` and `_autoproxy`
unfoldable pub setting : Dict Text Registered → Text → Setting
setting registry value =
    let raw = strip value in
    if is_empty raw
    then record { off = false; named = none }
    else if is_false raw
    then record { off = true; named = some [] }
    else record { off = false; named = some (names_of registry raw) }

unfoldable pub autoproxy_names : Dict Text Registered → Text → List Text
autoproxy_names registry value =
    let raw = strip value in if is_empty raw || is_false raw then [] else names_of registry raw

-- the first loop of `patch`; `spec package`: whether the package can be found
top_package : Text → Text
top_package s = elim (cut (text ".") s) [ none ↦ s | some (a, _) ↦ a ]

unfoldable pub check_targets :
    (Text → Bool) → Dict Text Registered → List Text → List Text → Result (Unit {0})
unfolding top_package
check_targets spec registry imported [] = ok tt
check_targets spec registry imported (name ∷ names) = elim (Dict.get ◌==◌ registry name) [
  | none ↦ raise value_error
  | some t ↦
      let rest = check_targets spec registry imported names in
      if in_names (top_package t.module_name) imported || spec (top_package t.module_name)
      then rest
      else raise missing_extra_error
]

module _ {M : Type 0} where
  -- `handle.targets is None or target in handle.targets`
  unfoldable pub covers : Text → Patch M → Bool
  covers target p = elim p.targets [ none ↦ true | some names ↦ in_names target names ]

  unfoldable pub newest_covering : Text → List (Patch M) → Option M
  newest_covering target [] = none
  newest_covering target (p ∷ ps) =
      let rest = newest_covering target ps in if covers target p then some p.proxymap else rest

  module _ (auto_proxy no_opinion : M) (variables : Variables) where
    -- `_default_map`
    unfoldable pub default_map : Patching M → Text → M
    default_map st target =
        if in_names target (autoproxy_names st.registry variables.autoproxy)
        then auto_proxy
        else no_opinion

    unfoldable pub active : Patching M → Text → M
    active st target = or_else (newest_covering target st.frames) (default_map st target)

  -- `Patch.active` and `Patch.undo`
  unfoldable pub in_effect : ℕ → List (Patch M) → Bool
  in_effect number ps = any (λ p. eqb p.number number) ps

  unfoldable pub undo : Patch M → Exec (Patching M) (Unit {0})
  undo p st = if not (in_effect p.number st.frames) then (ok tt, st) else elim st.frames [
    | [] ↦ (ok tt, st)
    | top ∷ rest ↦
        if eqb top.number p.number
        then (ok tt, record st { frames = rest })
        else (raise runtime_error, st)
  ]

  unfoldable pub unpatch : Patching M → Patching M
  unpatch st = record st { frames = [] }

  -- `_wanted`; it is asked about registered names only
  unfoldable pub is_wanted : Variables → Patching M → Text → Bool
  is_wanted variables st name =
      let chosen = setting st.registry variables.importpatch in
      if any (covers name) st.frames
      then true
      else if chosen.off
      then false
      else if in_names name (autoproxy_names st.registry variables.autoproxy)
      then true
      else elim chosen.named [
        | none ↦ elim (Dict.get ◌==◌ st.registry name) [ none ↦ false | some t ↦ t.unnamed ]
        | some names ↦ in_names name names
      ]

  unfoldable pub push : Patch M → Patching M → Patching M
  push p st = record st { frames = p ∷ st.frames; made = suc st.made }

  abbrev pub new_patch : M → Option (List Text) → Patching M → Patch M
  new_patch proxymap targets st = record {
    number = st.made;
    proxymap = proxymap;
    targets = targets;
  }

  -- `installs name`: whether the client's installer returns; `spec package`: whether it can be found;
  -- `loads module`: whether importing it succeeds
  module _ (variables : Variables) (installs spec loads : Text → Bool) where
    -- `_install`
    unfoldable pub install : Text → Patching M → Patching M
    install name st =
        if in_names name st.installed || not (Dict.has ◌==◌ st.registry name) || not (installs name)
        then st
        else record st { installed = name ∷ st.installed }

    install_if : Bool → Text → Patching M → Patching M
    install_if true name st = install name st
    install_if false name st = st

    -- the loop of `_on_import` and of `_install_ready` over a copy of the registry
    unfoldable pub install_wanted :
        (Registered → Bool) → Dict Text Registered → Patching M → Patching M
    unfolding install_if
    install_wanted ready [] st = st
    install_wanted ready ((name, target) ∷ rest) st =
        install_wanted ready rest (install_if (ready target && is_wanted variables st name) name st)

    unfoldable pub on_import : Text → Patching M → Patching M
    on_import module_name st = install_wanted (λ t. t.module_name == module_name) st.registry st

    unfoldable pub install_ready : Patching M → Patching M
    install_ready st = install_wanted (λ t. in_names t.module_name st.imported) st.registry st

    -- `_hook`; importpatch calls `_on_import` at once for a client that is imported
    unfoldable pub hook : Text → Patching M → Patching M
    hook name st = if in_names name st.hooked then st else elim (Dict.get ◌==◌ st.registry name) [
      | none ↦ record st { hooked = name ∷ st.hooked }
      | some target ↦
          let st' = record st { hooked = name ∷ st.hooked } in
          if in_names target.module_name st.imported then on_import target.module_name st' else st'
    ]

    -- importing a client; importpatch then calls `_on_import` for a module that was hooked
    is_hooked : Text → Patching M → Bool
    is_hooked module_name st =
        any (λ e. e.1.module_name == module_name && in_names e.0 st.hooked) st.registry

    unfoldable pub import_module : Text → Exec (Patching M) (Unit {0})
    unfolding is_hooked
    import_module module_name st =
        if in_names module_name st.imported
        then (ok tt, st)
        else if not (loads module_name)
        then (raise import_error, st)
        else (
          ok tt,
          (let st' = record st { imported = module_name ∷ st.imported } in
              if is_hooked module_name st then on_import module_name st' else st'),
        )

    import_target : Text → Exec (Patching M) (Unit {0})
    unfolding import_module
    import_target name st = elim (Dict.get ◌==◌ st.registry name) [
      | none ↦ (ok tt, st)
      | some t ↦ import_module t.module_name st
    ]

    -- the second loop of `patch`, over the names given and over every registered one
    unfoldable pub import_and_hook : List Text → Exec (Patching M) (Unit {0})
    unfolding import_target
    import_and_hook [] st = (ok tt, st)
    import_and_hook (name ∷ names) st =
        bind (import_target name) (λ _ s. import_and_hook names (hook name s)) st

    unfoldable pub hook_all : List Text → Patching M → Patching M
    hook_all [] st = st
    hook_all (name ∷ names) st = hook_all names (hook name st)

    -- `patch(proxymap, targets=targets)`
    unfoldable pub patch : M → Option (List Text) → Exec (Patching M) (Patch M)
    patch proxymap none st =
        let p = new_patch proxymap none st in
        (ok p, install_ready (hook_all (map (λ e. e.0) st.registry) (push p st)))
    patch proxymap (some names) st =
        let p = new_patch proxymap (some names) st in
        continue (check_targets spec st.registry st.imported names)
          (λ _. bind (λ s. import_and_hook names (push p s)) (λ _ s. (ok p, install_ready s))) st

    -- `register_patcher(name, …)`
    unfoldable pub register_patcher : Text → Registered → Bool → Exec (Patching M) (Unit {0})
    register_patcher name target replace st =
        if Dict.has ◌==◌ st.registry name && not replace then (raise value_error, st) else (
          ok tt,
          hook name (record st {
            registry = Dict.set ◌==◌ st.registry name target;
            hooked = keep (λ n. not (n == name)) st.hooked;
          }),
        )
