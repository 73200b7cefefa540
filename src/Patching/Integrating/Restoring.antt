-- ===== src/Patching/Integrating/Restoring.antt =====
-- src/proxylib/patching.py: removing an integration puts the client back as it was.
use proxylib.Prelude.{
  ◌≡◌, refl, ◌∙◌, ◌⊎◌, Bool, true, false, Option, none, some, [], any, Bool-cases, inl, inr,
}
use proxylib.Python.Text.{Text, text, ◌==◌}
use proxylib.Python.Dict
use proxylib.Python.Dict.{Dict, get-set, text-Lawful}
use proxylib.Integrations.Requests.Recording.{record_caller, undo_recording}
use proxylib.Patching.Integrating.{
  RequestsClient, RequestsHooks, install_requests, uninstall_requests, UrllibState, install_urllib,
  uninstall_urllib, is_ours, HttpxState, set_init, restore_inits, install_httpx, uninstall_httpx,
  HttpxClass, AiohttpState, install_aiohttp, uninstall_aiohttp, put_back, wrap_if, PipState,
  install_pip, uninstall_pip, Keywords, is_given, deciding_keys, Source, from_env, httpx_keywords,
}

-- Removing the integration of requests puts back `Session.__init__`, `request` and `send`.
pub uninstall-install_requests :
    {V G S A B O : Type 0} (mount : Text → V → V) (merge_setting : Option G → G → G)
    (bind_partial : A → Option (Option G)) (proxies_of : B → Option G)
    (c : RequestsClient V G S A B O) (hooks : RequestsHooks V G S A B O)
    → let (c', hooks') = install_requests mount merge_setting bind_partial proxies_of c hooks in
      uninstall_requests mount merge_setting bind_partial proxies_of c' hooks'
      ≡ (c, record { requests_init = none; requests_caller = none })
unfolding install_requests uninstall_requests record_caller undo_recording
uninstall-install_requests mount merge_setting bind_partial proxies_of c hooks = refl

-- Removing the integration of urllib leaves the opener that a program installed, before or after
-- proxylib's, and takes away proxylib's own.
pub uninstall-install_urllib :
    {P : Type 0} (is_same : P → P → Bool) (built : P) (found : Option P)
    → is_same built built ≡ true
    → uninstall_urllib is_same built
        (install_urllib is_same built (record { opener = found; urllib_opener = none }))
      ≡ record { opener = found; urllib_opener = none }
unfolding install_urllib uninstall_urllib is_ours
uninstall-install_urllib is_same built none same = rw same refl
uninstall-install_urllib is_same built (some own) same = refl

pub uninstall_urllib-replaced :
    {P : Type 0} (is_same : P → P → Bool) (built later : P) (s : UrllibState P)
    → is_same later built ≡ false
    → s.urllib_opener ≡ some built
    → uninstall_urllib is_same built (record s { opener = some later })
      ≡ record { opener = some later; urllib_opener = none }
unfolding uninstall_urllib is_ours
uninstall_urllib-replaced is_same built later s other ours = rw (uninstall_urllib, ours, other) refl

-- Removing the integration of httpx puts back the `__init__` of both classes.
pub uninstall-install_httpx :
    {I : Type 0} (wrap : HttpxClass → I → I) (a b : I)
    → let s : HttpxState I = record { client_init = a; async_client_init = b; httpx_inits = [] } in
      uninstall_httpx (install_httpx wrap s) ≡ s
unfolding install_httpx uninstall_httpx restore_inits set_init
uninstall-install_httpx wrap a b = refl

put_back_own :
    {F G : Type 0} (wrap_env : G → G) (request : F) (found : Option G)
    → ◌≡◌ {A = AiohttpState F G}
        (record {
          request = request;
          get_env_proxy = put_back found (wrap_if wrap_env found);
          originals = none;
        })
        (record { request = request; get_env_proxy = found; originals = none })
unfolding put_back wrap_if
put_back_own wrap_env request none = refl
put_back_own wrap_env request (some original) = refl

-- Removing the integration of aiohttp puts back `_request`, and `get_env_proxy_for_url` where there is
-- one.
pub uninstall-install_aiohttp :
    {F G : Type 0} (wrap_request : F → F) (wrap_env : G → G) (s : AiohttpState F G)
    → uninstall_aiohttp (install_aiohttp wrap_request wrap_env s) ≡ record s { originals = none }
unfolding install_aiohttp uninstall_aiohttp put_back
uninstall-install_aiohttp wrap_request wrap_env s = put_back_own wrap_env s.request s.get_env_proxy

pub uninstall-install_pip :
    {F H G S A B O : Type 0} (wrap_send : F → F) (wrap_manager : H → H)
    (merge_setting : Option G → G → G) (bind_partial : A → Option (Option G))
    (proxies_of : B → Option G) (s : PipState F H G S A B O)
    → uninstall_pip wrap_send wrap_manager merge_setting bind_partial proxies_of
        (install_pip wrap_send wrap_manager merge_setting bind_partial proxies_of s)
      ≡ record s { originals = none }
unfolding install_pip uninstall_pip record_caller undo_recording
uninstall-install_pip wrap_send wrap_manager merge_setting bind_partial proxies_of s = refl

module _ {X : Type 0} (env : Dict Text Text) (truthy : Option X → Bool)
    (make_transport : Source → Keywords X → X) where
  set_transport :
      (kwargs : Keywords X) (made : Option X) (key : Text)
      → (text "transport" == key) ≡ false
      → Dict.get ◌==◌ (Dict.set ◌==◌ kwargs (text "transport") made) key ≡ Dict.get ◌==◌ kwargs key
  set_transport kwargs made key other =
      get-set ◌==◌ text-Lawful kwargs (text "transport") key made ∙ rw other refl

  -- Of the arguments of an httpx client only `transport` is ever changed, and it is left as it was where
  -- the caller gave a `transport`, `proxy`, `proxies` or `mounts`, or where no map has an opinion and no
  -- proxy variable that the client trusts holds a PAC result or a gateway.
  pub httpx_keywords-keeps :
      (decides : Bool) (kwargs : Keywords X) (key : Text)
      → ((text "transport" == key) ≡ false)
        ⊎ ((any (is_given kwargs) deciding_keys ≡ true)
            ⊎ ((from_env env truthy make_transport kwargs ≡ false) × (decides ≡ false)))
      → Dict.get ◌==◌ (httpx_keywords env truthy make_transport decides kwargs) key
        ≡ Dict.get ◌==◌ kwargs key
  unfolding httpx_keywords
  httpx_keywords-keeps decides kwargs key (inr (inl given)) = rw (httpx_keywords, given) refl
  httpx_keywords-keeps decides kwargs key (inr (inr (no_chain, undecided))) =
      elim (Bool-cases (any (is_given kwargs) deciding_keys)) [
        | inl given ↦ rw (httpx_keywords, given) refl
        | inr free ↦ rw (httpx_keywords, free, no_chain, undecided) refl
      ]
  httpx_keywords-keeps decides kwargs key (inl other) =
      elim (Bool-cases (any (is_given kwargs) deciding_keys)) [
        | inl given ↦ rw (httpx_keywords, given) refl
        | inr free ↦ elim (Bool-cases (from_env env truthy make_transport kwargs)) [
          | inl chain ↦ rw (httpx_keywords, free, chain) (set_transport kwargs _ key other)
          | inr no_chain ↦ elim (Bool-cases decides) [
            | inl d ↦ rw (httpx_keywords, free, no_chain, d) (set_transport kwargs _ key other)
            | inr d ↦ rw (httpx_keywords, free, no_chain, d) refl
          ]
        ]
      ]
