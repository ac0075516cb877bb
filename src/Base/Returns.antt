-- ===== src/Base/Returns.antt =====
-- The `int` results of the C functions: 0 is `ok`, -1 is `err`.
pub data Status : Type 0 where
  ok err : Status
