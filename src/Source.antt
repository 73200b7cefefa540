-- ===== src/Source.antt =====
-- src/proxylib/proxy.py: `ProxyMap(src)`, which makes a map from a configured value. What the map of a
-- PAC location answers is an argument, `pac`: it runs a script in an engine that is not in the
-- repository.
pub mod Lazy
use proxylib.Prelude.{Bool, true, false, not, ◌||◌, List, if◌then◌else◌}
use proxylib.Python.Exec.{Result, ok, ◌>>=◌}
use proxylib.Python.Text.{Text, text, lower, strip, is_empty, starts_with, contains, ◌==◌}
use proxylib.Python.Url.{urlsplit}
use proxylib.Net.{Netimps}
use proxylib.Proxy.{Proxy}
use proxylib.Lookup.{Item, nothing, proxy, str, one, many, ProxyMap, simple_map}

unfoldable pub is_pac_location : Text → Result Bool
is_pac_location s =
    if contains s (text "FindProxyForURL") || starts_with (lower (strip s)) (text "file:")
    then ok true
    else if starts_with (lower (strip s)) (text "http://")
        || starts_with (lower (strip s)) (text "https://")
    then (do
      parts ← urlsplit (strip s)
      ok (not (is_empty parts.path || parts.path == text "/") || not (is_empty parts.query)))
    else ok false

-- a configured value: `None`, a text, a `Proxy`, an object that is already a map, or a list or tuple
pub data Src (S : Type 0) : Type 0 where
  no_source : Src S
  source_text : Text → Src S
  source_proxy : Proxy → Src S
  source_map : ProxyMap S → Src S
  source_list : List Item → Src S

module _ {S : Type 0} ⦃net : Netimps⦄ (pac : Text → ProxyMap S) where
  unfoldable pub from_source : Src S → Result (ProxyMap S)
  from_source no_source = simple_map (one nothing)
  from_source (source_text s) = do
    location ← is_pac_location s
    if location then ok (pac s) else simple_map (one (str s))
  from_source (source_proxy p) = simple_map (one (proxy p))
  from_source (source_map m) = ok m
  from_source (source_list items) = simple_map (many items)
