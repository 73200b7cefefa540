-- ===== src/Patching/Steps.antt =====
-- src/proxylib/patching.py: `_uninstall`, the built-in targets, and the steps by which a program changes
-- the module's state. Each step chooses what the code outside the repository comes to in it.
use proxylib.Prelude.{Bool, true, false, Option, none, some, List, [], ◌∷◌, map}
use proxylib.Python.Exec.{Result, ok, raise, exception, key_error, Exec}
use proxylib.Python.Text.{Text, text, ◌==◌}
use proxylib.Python.Dict
use proxylib.Python.Dict.{Dict}
use proxylib.Patching.{
  Registered, Patch, Patching, Variables, undo, unpatch, patch, import_module, register_patcher,
}

-- `_registry[name].uninstall()` of each name; `removes name`: whether the client's function returns
unfoldable pub uninstall_each : (Text → Bool) → Dict Text Registered → List Text → Result (Unit {0})
uninstall_each removes registry [] = ok tt
uninstall_each removes registry (name ∷ names) = elim (Dict.get ◌==◌ registry name) [
  | none ↦ raise key_error
  | some _ ↦ elim (removes name) [
    | true ↦ uninstall_each removes registry names
    | false ↦ raise exception
  ]
]

-- `targets`
unfoldable pub target_names : {M : Type 0} → Patching M → List Text
target_names st = map (λ e. e.0) st.registry

module _ {M : Type 0} where
  -- `_uninstall`
  unfoldable pub uninstall : (Text → Bool) → Exec (Patching M) (Unit {0})
  uninstall removes st = elim (uninstall_each removes st.registry st.installed) [
    | raise e ↦ (raise e, st)
    | ok _ ↦ (ok tt, record st { installed = []; frames = [] })
  ]

  -- the module before its `register_patcher` calls, where the clients `imported` are imported
  abbrev pub fresh : List Text → Patching M
  fresh imported = record {
    registry = [];
    installed = [];
    hooked = [];
    frames = [];
    made = 0;
    imported = imported;
  }

  pub data Step (st : Patching M) : Patching M → Type 0 where
    registered :
        (variables : Variables) (installs spec loads : Text → Bool) (name : Text) (t : Registered)
        (replace : Bool)
        → Step st (register_patcher variables installs spec loads name t replace st).1
    patched :
        (variables : Variables) (installs spec loads : Text → Bool) (proxymap : M)
        (targets : Option (List Text))
        → Step st (patch variables installs spec loads proxymap targets st).1
    imported_module :
        (variables : Variables) (installs spec loads : Text → Bool) (name : Text)
        → Step st (import_module variables installs spec loads name st).1
    undone : (p : Patch M) → Step st (undo p st).1
    unpatched : Step st (unpatch st)
    uninstalled : (removes : Text → Bool) → Step st (uninstall removes st).1

  pub data Reach (s : Patching M) : Patching M → Type 0 where
    here : Reach s s
    next : {t u : Patching M} → Reach s t → Step t u → Reach s u

-- the built-in targets, in the order in which they are registered
unfoldable pub builtins : Dict Text Registered
builtins =
    (text "requests", record { module_name = text "requests.sessions"; unnamed = true })
    ∷ (text "urllib", record { module_name = text "urllib.request"; unnamed = true })
    ∷ (text "httpx", record { module_name = text "httpx"; unnamed = true })
    ∷ (text "aiohttp", record { module_name = text "aiohttp"; unnamed = true })
    ∷ (text "pip", record { module_name = text "pip._vendor.requests.sessions"; unnamed = true })
    ∷ []

unfoldable pub register_all :
    {M : Type 0}
    → Variables
    → (installs spec loads : Text → Bool) → Dict Text Registered
    → Patching M
    → Patching M
register_all variables installs spec loads [] st = st
register_all variables installs spec loads ((name, t) ∷ more) st =
    register_all variables installs spec loads more
      (register_patcher variables installs spec loads name t false st).1
