-- ===== src/Conf.antt =====
-- The configuration of crinit: the entries of a file by src/confparse.c, the conversions of values in
-- src/confconv.c, the tables of src/confmap.c, the handlers of src/confhdl.c and the tasks made from them
-- by src/task.c.
pub mod Text
pub mod Lex
pub mod StrArr
pub mod Map
pub mod Value
pub mod EnvVar
pub mod Handler
pub mod Ini
pub mod Ids
pub mod Load
mod Tests
