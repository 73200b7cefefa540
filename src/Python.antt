-- ===== src/Python.antt =====
-- What the program uses of Python and its standard library.
pub mod Text
pub mod Exec
pub mod Dict
pub mod Url
pub mod Ip
pub mod Quote
