-- ===== src/Patching/Integrating.antt =====
-- src/proxylib/patching.py: the built-in targets, which put proxylib's functions in the place of a
-- client's and put the client's back. The clients are not in the repository: their functions are
-- arguments, and `proxylib`'s replacements are made of them as the source makes them.
pub mod Restoring
use proxylib.Prelude.{
  ℕ, Bool, true, false, not, ◌&&◌, ◌||◌, Option, none, some, List, [], ◌∷◌, ◌++◌, if◌then◌else◌,
  any, keep, is_some, or_else,
}
use proxylib.Python.Exec.{Error, Result, ok, raise, lookup_error}
use proxylib.Python.Text.{Text, text, ◌==◌}
use proxylib.Python.Dict
use proxylib.Python.Dict.{Dict}
use proxylib.Integrations.{env_chain}
use proxylib.Integrations.Requests.Recording.{Method, SessionClass, record_caller, undo_recording}

-- requests: `Session.__init__` as what it makes of a session, and the wrapped methods
pub record RequestsClient (V G S A B O : Type 0) : Type 0 where
  pub session_init : V → V
  pub session_class : SessionClass G S A B O

-- `_requests_init` and `_requests_caller`, the latter as the methods that it puts back
pub record RequestsHooks (V G S A B O : Type 0) : Type 0 where
  pub requests_init : Option (V → V)
  pub requests_caller : Option (SessionClass G S A B O)

-- the new `__init__`; `mount prefix` mounts a `ProxyMapAdapter` of the active map
unfoldable pub patched_init : {V : Type 0} → (Text → V → V) → (V → V) → V → V
patched_init mount original session =
    mount (text "http://") (mount (text "https://") (original session))

module _ {V G S A B O : Type 0} (mount : Text → V → V) (merge_setting : Option G → G → G)
    (bind_partial : A → Option (Option G)) (proxies_of : B → Option G) where
  unfoldable pub install_requests :
      RequestsClient V G S A B O
      → RequestsHooks V G S A B O
      → RequestsClient V G S A B O × RequestsHooks V G S A B O
  install_requests client hooks = (
    record {
      session_init = patched_init mount client.session_init;
      session_class = record_caller merge_setting bind_partial proxies_of client.session_class;
    },
    record {
      requests_init = some client.session_init;
      requests_caller = some client.session_class;
    },
  )

  unfoldable pub uninstall_requests :
      RequestsClient V G S A B O
      → RequestsHooks V G S A B O
      → RequestsClient V G S A B O × RequestsHooks V G S A B O
  uninstall_requests client hooks = (
    record {
      session_init = or_else hooks.requests_init client.session_init;
      session_class = elim hooks.requests_caller [
        | none ↦ client.session_class
        | some originals ↦ undo_recording merge_setting originals client.session_class
      ];
    },
    record { requests_init = none; requests_caller = none },
  )

-- urllib: `urllib.request._opener` and `_urllib_opener`; `is_same` is `is` of two openers
pub record UrllibState (P : Type 0) : Type 0 where
  pub opener : Option P
  pub urllib_opener : Option P

module _ {P : Type 0} (is_same : P → P → Bool) (built : P) where
  unfoldable pub install_urllib : UrllibState P → UrllibState P
  install_urllib s = elim s.opener [
    | some own ↦ s
    | none ↦ record { opener = some built; urllib_opener = some built }
  ]

  unfoldable pub is_ours : Option P → Option P → Bool
  is_ours (some a) (some b) = is_same a b
  is_ours a b = false

  unfoldable pub uninstall_urllib : UrllibState P → UrllibState P
  uninstall_urllib s = record {
    opener = if is_ours s.opener s.urllib_opener then none else s.opener;
    urllib_opener = none;
  }

-- httpx: the two classes' `__init__`, as what they make of the keyword arguments
pub data HttpxClass : Type 0 where
  client : HttpxClass
  async_client : HttpxClass

pub record HttpxState (I : Type 0) : Type 0 where
  pub client_init : I
  pub async_client_init : I
  pub httpx_inits : List (HttpxClass × I)

unfoldable pub set_init : {I : Type 0} → HttpxClass → I → HttpxState I → HttpxState I
set_init client original s = record s { client_init = original }
set_init async_client original s = record s { async_client_init = original }

-- the newest of `_httpx_inits` first
unfoldable pub restore_inits : {I : Type 0} → List (HttpxClass × I) → HttpxState I → HttpxState I
restore_inits [] s = record s { httpx_inits = [] }
restore_inits ((cls, original) ∷ inits) s = restore_inits inits (set_init cls original s)

unfoldable pub uninstall_httpx : {I : Type 0} → HttpxState I → HttpxState I
uninstall_httpx s = restore_inits s.httpx_inits s

-- a value of the keyword arguments; `none` is `None`
abbrev pub Keywords : Type 0 → Type 0
Keywords X = Dict Text (Option X)

-- the keyword arguments that decide, and those that the inner transports get
abbrev pub deciding_keys : List Text
deciding_keys = text "transport" ∷ text "proxy" ∷ text "proxies" ∷ text "mounts" ∷ []

abbrev pub inner_keys : List Text
inner_keys =
    text "verify"
    ∷ text "cert"
    ∷ text "http1"
    ∷ text "http2"
    ∷ text "limits"
    ∷ text "trust_env"
    ∷ []

-- `kwargs.get(key) is not None`
unfoldable pub is_given : {X : Type 0} → Keywords X → Text → Bool
is_given kwargs key = elim (Dict.get ◌==◌ kwargs key) [ none ↦ false | some value ↦ is_some value ]

unfoldable pub inner_of : {X : Type 0} → List Text → Keywords X → Keywords X
inner_of [] kwargs = []
inner_of (key ∷ keys) kwargs = elim (Dict.get ◌==◌ kwargs key) [
  | none ↦ inner_of keys kwargs
  | some value ↦ (key, value) ∷ inner_of keys kwargs
]

-- the map that a transport asks: `ChainProxyMap(proxymap, EnvProxyConfig())`, or the active one
pub data Source : Type 0 where
  active_then_env : Source
  active_only : Source

module _ {X : Type 0} (env : Dict Text Text) (truthy : Option X → Bool)
    (make_transport : Source → Keywords X → X) where
  -- `kwargs.get("trust_env", True)`
  unfoldable pub trusts_env : Keywords X → Bool
  trusts_env kwargs = elim (Dict.get ◌==◌ kwargs (text "trust_env")) [
    | none ↦ true
    | some value ↦ truthy value
  ]

  unfoldable pub from_env : Keywords X → Bool
  from_env kwargs =
      trusts_env kwargs
      && any (λ s. is_some (env_chain env s)) (text "http" ∷ text "https" ∷ text "all" ∷ [])

  -- the arguments that the client's own `__init__` gets; `decides` is that of the active map
  unfoldable pub httpx_keywords : Bool → Keywords X → Keywords X
  httpx_keywords decides kwargs =
      if any (is_given kwargs) deciding_keys
      then kwargs
      else if from_env kwargs
      then Dict.set ◌==◌ kwargs (text "transport")
          (some (make_transport active_then_env (inner_of inner_keys kwargs)))
      else if decides
      then Dict.set ◌==◌ kwargs (text "transport")
          (some (make_transport active_only (inner_of inner_keys kwargs)))
      else kwargs

-- `wrap cls original` is the new `__init__` of a class
unfoldable pub install_httpx : {I : Type 0} → (HttpxClass → I → I) → HttpxState I → HttpxState I
install_httpx wrap s = record {
  client_init = wrap client s.client_init;
  async_client_init = wrap async_client s.async_client_init;
  httpx_inits = (async_client, s.async_client_init) ∷ (client, s.client_init) ∷ s.httpx_inits;
}

-- aiohttp: `ClientSession._request`, and `get_env_proxy_for_url` where the version has one
pub record AiohttpState (F G : Type 0) : Type 0 where
  pub request : F
  pub get_env_proxy : Option G
  pub originals : Option (F × Option G)

-- the new `get_env_proxy_for_url`; `routed` is `_ROUTED.get()`
unfoldable pub unless_routed : {P : Type 0} → (Text → Result P) → Bool → Text → Result P
unless_routed original routed url = if routed then raise lookup_error else original url

unfoldable pub wrap_if : {G : Type 0} → (G → G) → Option G → Option G
wrap_if wrap_env none = none
wrap_if wrap_env (some original) = some (wrap_env original)

module _ {F G : Type 0} (wrap_request : F → F) (wrap_env : G → G) where
  unfoldable pub install_aiohttp : AiohttpState F G → AiohttpState F G
  install_aiohttp s = record {
    request = wrap_request s.request;
    get_env_proxy = wrap_if wrap_env s.get_env_proxy;
    originals = some (s.request, s.get_env_proxy);
  }

-- `client_module.get_env_proxy_for_url = original_env`, where there was one
unfoldable pub put_back : {G : Type 0} → Option G → Option G → Option G
put_back none found = found
put_back (some original) found = some original

unfoldable pub uninstall_aiohttp : {F G : Type 0} → AiohttpState F G → AiohttpState F G
uninstall_aiohttp s = elim s.originals [
  | none ↦ s
  | some (original, original_env) ↦ record {
    request = original;
    get_env_proxy = put_back original_env s.get_env_proxy;
    originals = none;
  }
]

-- pip: the methods of its adapter class, and its session's
pub record PipState (F H G S A B O : Type 0) : Type 0 where
  pub send : F
  pub manager : H
  pub session_class : SessionClass G S A B O
  pub originals : Option (F × H × SessionClass G S A B O)

module _ {F H G S A B O : Type 0} (wrap_send : F → F) (wrap_manager : H → H)
    (merge_setting : Option G → G → G) (bind_partial : A → Option (Option G))
    (proxies_of : B → Option G) where
  unfoldable pub install_pip : PipState F H G S A B O → PipState F H G S A B O
  install_pip s = record {
    send = wrap_send s.send;
    manager = wrap_manager s.manager;
    session_class = record_caller merge_setting bind_partial proxies_of s.session_class;
    originals = some (s.send, s.manager, s.session_class);
  }

  unfoldable pub uninstall_pip : PipState F H G S A B O → PipState F H G S A B O
  uninstall_pip s = elim s.originals [
    | none ↦ s
    | some (original_send, original_manager, originals) ↦ record {
      send = original_send;
      manager = original_manager;
      session_class = undo_recording merge_setting originals s.session_class;
      originals = none;
    }
  ]
