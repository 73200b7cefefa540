-- ===== src/Net.antt =====
-- src/proxylib/_net.py, the part over the `netimps` library. `netimps` is not in the repository: it
-- is a parameter, and every definition that reaches it takes it as an instance argument.
use proxylib.Prelude.{ℕ, zero, suc, Bool, Option, none, some, List, [], if◌then◌else◌, drop}
use proxylib.Python.Text.{Text, text, starts_with, is_empty}
use proxylib.Python.Ip.{Address, Network}

-- What proxylib calls of `netimps`, as its answers while one lookup runs. `none` stands for a call
-- that raises one of the exceptions that `_net.py` catches, or that returns `None`.
pub record Netimps : Type 0 where
  pub netimps_join_host : Text → Option ℕ → Text
  pub netimps_split_host : Text → Option (Text × Option ℕ)
  pub get_default_port : Text → Option ℕ
  pub host_ip : Text → Option Bool → Option Address
  pub resolve_system : Text → List Address
  pub interface_networks : List Network
  pub link_scoped : Address → Bool

module _ ⦃net : Netimps⦄ where
  open net use {
    netimps_join_host, netimps_split_host, get_default_port, host_ip, resolve_system,
    interface_networks, link_scoped,
  }

  -- `port or None`
  abbrev or_none : Option ℕ → Option ℕ
  or_none none = none
  or_none (some zero) = none
  or_none (some (suc n)) = some (suc n)

  unfoldable pub join_host : Text → Option ℕ → Text
  join_host host port = netimps_join_host host (or_none port)

  unfoldable pub split_host_port : Text → Option (Text × Option ℕ)
  split_host_port s = netimps_split_host s

  unfoldable pub local_networks : List Network
  local_networks = interface_networks

  unfoldable pub resolve_ip : Text → Option Bool → Option Address
  resolve_ip host ipv6 = if is_empty host then none else host_ip host ipv6

  unfoldable pub resolve_all : Text → List Address
  resolve_all host = if is_empty host then [] else resolve_system host

  unfoldable pub default_port : Text → Option ℕ
  default_port scheme =
      get_default_port (if starts_with scheme (text "prefix+") then drop 7 scheme else scheme)

  unfoldable pub is_link_scoped : Address → Bool
  is_link_scoped ip = link_scoped ip
