-- ===== src/Examples/Clients.antt =====
-- Patches, PAC builtins, WPAD and settings at concrete inputs.
use proxylib.Prelude.{
  inl, inr, ℕ, ◌≡◌, refl, Bool, true, false, not, ◌||◌, Option, none, some, [], ◌∷◌, is_nil, arith,
}
use proxylib.Python.Exec.{ok, raise, pac_error}
use proxylib.Python.Text.{Text, text, split, rstrip}
use proxylib.Proxy.{Proxy, is_gateway}
use proxylib.Patching.{Patch, Patching, Variables, active, undo, patch, new_patch}
use proxylib.Patching.Stack.{undo-patch}
use proxylib.Pac.Script.{PacScript, done, overran, find_proxy_for_url, find_proxy_for_url-cooldown}
use proxylib.Pac.Wpad.{is_public_suffix, parents, discover_among, candidate_domains}
use proxylib.Pac.Times.{Moment}
use proxylib.Integrations.{proxy_url_reason, refused_entry}
use proxylib.Samples.{offline}

abbrev unset_variables : Variables
unset_variables = record { importpatch = []; autoproxy = [] }

abbrev at_start : Patching ℕ
at_start = record {
  registry =
      (text "requests", record { module_name = text "requests.sessions"; unnamed = true }) ∷ [];
  installed = [];
  hooked = text "requests" ∷ [];
  frames = [];
  made = 0;
  imported = text "requests.sessions" ∷ [];
}

abbrev always : Text → Bool
always s = true

abbrev patched : Patching ℕ
patched = (patch unset_variables always always always 7 none at_start).1

abbrev handle : Patch ℕ
handle = record { number = 0; proxymap = 7; targets = none }

first_made : (patch unset_variables always always always 7 none at_start).0 ≡ ok handle
unfolding patch
first_made = refl

second_made :
    (patch unset_variables always always always 8 none patched).0 ≡ ok (new_patch 8 none patched)
unfolding patch
second_made = refl

undo-patch_example :
    ((undo handle patched).0 ≡ ok tt)
    × (active 1 2 unset_variables (undo handle patched).1 (text "requests")
        ≡ active 1 2 unset_variables at_start (text "requests"))
undo-patch_example =
    undo-patch unset_variables always always always 1 2 7 none at_start handle (text "requests")
      first_made

abbrev script : PacScript
script = record { has_runner = true; failed = false; retry_at = 0 }

abbrev failed_script : PacScript
failed_script = record { has_runner = true; failed = true; retry_at = 4 }

find_proxy_for_url-cooldown_example :
    find_proxy_for_url 20
      (done tt)
      (done none)
      (find_proxy_for_url 5 overran (done none) failed_script).1
    ≡ (raise pac_error, (find_proxy_for_url 5 overran (done none) failed_script).1)
find_proxy_for_url-cooldown_example =
    find_proxy_for_url-cooldown 5 20 overran (done tt) (done none) (done none) failed_script refl
      (inr (refl, omega arith, inl refl)) (omega arith) (omega arith)

nothing_found :
    discover_among {M = ℕ} (λ h. false) (λ u. ok 4) (candidate_domains (text "a.b.c")) ≡ ok none
unfolding discover_among candidate_domains parents split rstrip is_public_suffix
nothing_found = refl

abbrev night : Moment
night = record { year = 2024; month = 1; day = 2; hour = 23; minute = 30; second = 0; weekday = 2 }

abbrev cannot : Option Proxy → Bool
cannot none = false
cannot (some p) = is_gateway p || not (is_nil p.headers)

cannot-refused :
    (e : Option Proxy) → refused_entry proxy_url_reason (text "http://x") e ≡ ok (cannot e)
unfolding refused_entry proxy_url_reason
cannot-refused none = refl
cannot-refused (some p) = refl
