-- ===== src/Examples/Steps.antt =====
-- Steps of the module that patches clients, at concrete inputs.
use proxylib.Prelude.{ℕ, ◌≡◌, refl, true, false, none, [], ◌∷◌, Bool}
use proxylib.Python.Exec.{ok}
use proxylib.Python.Text.{Text, text}
use proxylib.Patching.{
  Registered, Patch, Patching, Variables, undo, patch, in_effect, register_patcher,
}
use proxylib.Patching.Stack.{undo-patch}
use proxylib.Patching.Steps.{fresh, uninstall, registered, patched, Reach, here, next}
use proxylib.Patching.Sound.{IsSound, Reach-IsSound}
use proxylib.Patching.Ending.{uninstall-succeeds, undo-ends}

abbrev no_variables : Variables
no_variables = record { importpatch = []; autoproxy = [] }

abbrev yes_always : Text → Bool
yes_always s = true

abbrev requests_target : Registered
requests_target = record { module_name = text "requests.sessions"; unnamed = true }

abbrev loaded : Patching ℕ
loaded =
    (register_patcher no_variables yes_always yes_always yes_always (text "requests")
      requests_target false (fresh (text "requests.sessions" ∷ []))).1

abbrev one_patch : Patching ℕ
one_patch = (patch no_variables yes_always yes_always yes_always 7 none loaded).1

abbrev newest : Patch ℕ
newest = record { number = 0; proxymap = 7; targets = none }

one_patch-Reach : Reach (fresh (text "requests.sessions" ∷ [])) one_patch
one_patch-Reach =
    next
      (next here (
        registered no_variables yes_always yes_always yes_always (text "requests") requests_target
          false))
      (patched no_variables yes_always yes_always yes_always 7 none)

Reach-IsSound_example : IsSound one_patch
Reach-IsSound_example = Reach-IsSound one_patch-Reach

uninstall-succeeds_example :
    uninstall yes_always one_patch ≡ (ok tt, record one_patch { installed = []; frames = [] })
uninstall-succeeds_example =
    uninstall-succeeds (text "requests.sessions" ∷ []) one_patch yes_always one_patch-Reach
      (λ n. refl)

-- a patch before any client is registered
abbrev early : Patching ℕ
early = (patch no_variables yes_always yes_always yes_always 7 none (fresh [])).1

early_made : (patch no_variables yes_always yes_always yes_always 7 none (fresh [])).0 ≡ ok newest
unfolding patch
early_made = refl

undo-ends_example : in_effect 0 (undo newest early).1.frames ≡ false
undo-ends_example =
    undo-ends [] early newest
      (next here (patched no_variables yes_always yes_always yes_always 7 none))
      (undo-patch no_variables yes_always yes_always yes_always 1 2 7 none (fresh []) newest
        (text "requests") early_made).0
