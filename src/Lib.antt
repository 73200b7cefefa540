-- ===== src/Lib.antt =====
-- proxylib: which proxies to try for a URL, from proxy texts, PAC results, environment variables,
-- bypass lists and an OS's settings. The whole library is src/proxylib/ of the repository.
--
-- The program's unit is a proxy map: given a URL it answers a list of proxies (or DIRECT) or has no
-- opinion, which is a `KeyError`. Maps wrap and chain other maps. Here a map over a state `S` is the
-- record `ProxyMap S` of Lookup, whose lookup takes the state before and gives a result and the state
-- after (`Exec S`); an exception is its class (`Error` of Python/Exec).
--
-- The files, and the code they are about:
--   Prelude            lists, options and Boolean tests that the rest shares
--   Python             exceptions and results, text, dictionaries, URLs, addresses, %-quoting: what
--                      the program uses of Python's standard library, and src/proxylib/exceptions.py
--   Net                src/proxylib/_net.py over the netimps library, which is the parameter `Netimps`
--   Health             src/proxylib/_net.py, the circuit breaker: `mark_bad`, `order_by_health`,
--                      `first_working_proxy`
--   Proxy              src/proxylib/proxy.py, the class `Proxy`: `init` is `Proxy.__init__`, Key is
--                      `Proxy.__eq__`, Parse is `Proxy.parse` and `Proxy.parse_pac_result`
--   Lookup             src/proxylib/proxy.py, `lookup`, `_normalise`, `SimpleProxyMap` (`simple_map`),
--                      `ChainProxyMap` (`chain_lookup`, `chain_map`)
--   Source             src/proxylib/proxy.py, `ProxyMap(src)`, and Lazy, the maps that are made on the
--                      first lookup (`_LazyPacMap`, and `_AutoProxy` of patching.py)
--   Glob               the glob matchers of src/proxylib/bypass.py and src/proxylib/pac/_functions.py
--   BypassEntry        src/proxylib/bypass.py, one entry of a bypass list and the rule it makes
--   BypassRules        src/proxylib/bypass.py, the class `BypassRules`
--   Wrappers           src/proxylib/wrappers.py, `Bypass`, `Cached`, `RoundRobin`, `Probed`, `configure`
--   Env                src/proxylib/env.py
--   SystemConfig       src/proxylib/system/_config.py, `ProxyConfig.to_proxymap` and what it builds
--     SystemConfig/Settings  `proxy_from`, `proxy_at` and `parse_proxy_list` of the same file
--   System             src/proxylib/system/__init__.py (`auto_proxy`) and system/_posix/_kde.py
--     System/Posix       system/_posix/__init__.py, the readers in turn; Gsettings and NetworkManager
--                      are two of them
--     System/Scutil, System/Windows  the settings of macOS and of Windows, and the map of WinHTTP
--     System/Resolvers   what CFNetwork answers, as proxies
--     System/Owned       the objects of an OS library that the program must release: References is what
--                      a lookup holds of CoreFoundation, WinHttp is _nt.py's calls of winhttp.dll, and
--                      LibProxy is system/_posix/_libproxy.py
--     System/Dbus        NetworkManager over D-Bus, and system/_run.py
--   Pac                src/proxylib/pac/: Hosts and Times are the builtins of _functions.py, Wpad is
--                      wpad.py, Script is the cool-down of a script in script.py and
--                      Runner is the life of its helper processes, Child is _child.py, the helper
--                      process a script runs in, Map is map.py, Download is how script.py downloads a script, and
--                      Engines is engines/__init__.py and the constructor of `PacScript`,
--                      Loading is __init__.py, and Addresses is the builtins that write addresses out
--   Patching           src/proxylib/patching.py, the stack of patches and the choice of targets; Steps is
--                      what a program can do with the module, and Integrating is what the built-in
--                      targets put in the place of a client's functions
--   Integrations       src/proxylib/integrations/_support.py and dict.py
--     Integrations/Failover  the loop over the entries of an answer, which httpx.py, requests.py and
--                      aiohttp.py each write out; `Sender` is what one of them makes of an entry
--     Integrations/Httpx, Requests, Aiohttp, Urllib  the clients, over the client library as an argument
--     Integrations/Requests/Recording, Managers; Aiohttp/Session; Httpx/Closing  what these hold between
--                      requests
-- Samples and Examples run the theorems at concrete inputs.
--
-- Bounds and simplifications. A text is a list of character codes, and `lower`, `strip` and the like
-- act on the ASCII ones; %-escapes are decoded below 0x80. Numbers are natural numbers: a clock counts
-- whole units, and `now - then` is 0 where the clock would have gone back. Every loop is structural
-- recursion on the list it runs over, so nothing needs fuel except `is_a`, whose fuel 3 is the depth of
-- the class hierarchy, the reader of scutil's nested blocks, whose fuel is the number of lines (it also
-- takes how deep Python lets a function call itself), and the run loop of System/References, whose fuel is
-- above the time to the deadline. A
-- lookup reads one clock value, except in the clients and for gsettings, where each reading is one of
-- the state; a TCP probe answers the same during one call. URL splitting is that of CPython 3.12.
--
-- Not modelled: warnings, logging and `repr`; threads and locks, so that each call runs to its end before
-- the next; object identity (a patch has a number instead); the JavaScript engines, starting the helper
-- process, opening a URL, running a program and the answers of the OS's libraries (what they come to is an
-- argument); and the bindings of ctypes.
pub mod Prelude
pub mod Python
pub mod Net
pub mod Proxy
pub mod Lookup
pub mod Glob
pub mod BypassEntry
pub mod BypassRules
pub mod Health
pub mod Wrappers
pub mod Source
pub mod Env
pub mod SystemConfig
pub mod Patching
pub mod Pac
pub mod Integrations
pub mod System
pub mod Samples
pub mod Examples
