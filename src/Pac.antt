-- ===== src/Pac.antt =====
-- src/proxylib/pac/: the builtins of a PAC script, WPAD, and the life of a running script.
pub mod Child
pub mod Map
pub mod Download
pub mod Loading
pub mod Addresses
pub mod Engines
pub mod Timed
pub mod Hosts
pub mod Times
pub mod Circular
pub mod Wpad
pub mod Script
pub mod Runner
