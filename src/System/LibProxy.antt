-- ===== src/System/LibProxy.antt =====
-- src/proxylib/system/_posix/_libproxy.py: `LibProxyMap`, with the factory that it makes on the first
-- lookup and the array that each lookup is given. libproxy is an argument.
pub mod Releasing
use proxylib.Prelude.{ℕ, Bool, true, false, Option, none, some, List, [], ◌∷◌, if◌then◌else◌}
use proxylib.Python.Exec.{Result, ok, raise, key_error, ◌>>=◌, Exec}
use proxylib.Python.Text.{Text, text, starts_with}
use proxylib.Proxy.Parse.{parse, or_direct}
use proxylib.Lookup.{Proxies}
use proxylib.System.Owned.{Owned, acquire, release, Use, use_all}

-- the loop of `LibProxyMap.__getitem__`, over the texts of libproxy's array
unfoldable pub libproxy_entries : List Text → Result Proxies
libproxy_entries [] = ok []
libproxy_entries (entry ∷ entries) = do
  p ← (if starts_with entry (text "direct://") then ok none else (do p ← parse entry; ok (some p)))
  ps ← libproxy_entries entries
  ok (p ∷ ps)

-- `tuple(results) or (None,)`
unfoldable pub libproxy_answer : List Text → Result Proxies
libproxy_answer entries = do ps ← libproxy_entries entries; ok (or_direct ps)

-- the library: a factory or none; the array of texts, by the factory, or none
pub record LibProxy (S : Type 0) : Type 0 where
  pub factory_new : S → Bool × S
  pub get_proxies : ℕ → Text → S → Option (List Text) × S
  pub factory_free : ℕ → S → S

module _ {S : Type 0} (lib : LibProxy S) where
  -- `if not self._factory: self._factory = lib.px_proxy_factory_new()`
  unfoldable pub make_factory : Option ℕ → Owned S → Option ℕ × Owned S
  make_factory (some factory) w = (some factory, w)
  make_factory none w =
      let (made, s) = lib.factory_new w.rest in
      let (factory, w') = acquire (record w { rest = s }) in
      if made then (some factory, w') else (none, record w { rest = s })

  -- the array is freed, also where reading an entry raises
  unfoldable pub read_array : Option (List Text) → Exec (Owned S) Proxies
  read_array none w = (raise key_error, w)
  read_array (some entries) w =
      let (array, w') = acquire w in (libproxy_answer entries, release array w')

  unfoldable pub ask_factory : Option ℕ → Text → Exec (Owned S) Proxies
  ask_factory none uri w = (raise key_error, w)
  ask_factory (some factory) uri w =
      let (found, s) = lib.get_proxies factory uri w.rest in
      read_array found (record w { rest = s })

  -- `LibProxyMap.__getitem__`; `is_loaded`: libproxy is installed. The map's factory is part of the state
  unfoldable pub getitem : Bool → Text → Exec (Option ℕ × Owned S) Proxies
  getitem false uri l = (raise key_error, l)
  getitem true uri (factory, w) =
      let (factory', w') = make_factory factory w in
      let (answer, w'') = ask_factory factory' uri w' in (answer, (factory', w''))

  -- `close`
  unfoldable pub close : Bool → Option ℕ → Owned S → Option ℕ × Owned S
  close is_loaded none w = (none, w)
  close false (some factory) w = (none, w)
  close true (some factory) w =
      (none, release factory (record w { rest = lib.factory_free factory w.rest }))

  -- a lookup as a use of the map
  unfoldable pub look : Bool → Text → Option ℕ → Owned S → Option ℕ × Owned S
  look is_loaded uri factory w = (getitem is_loaded uri (factory, w)).1

  -- a map from `__init__`, which makes no factory, to `__del__`, which closes it
  unfoldable pub lifetime : Bool → List Use → Owned S → Owned S
  lifetime is_loaded uses w =
      let (factory, w') = use_all (look is_loaded) (close is_loaded) uses none w in
      (close is_loaded factory w').1
