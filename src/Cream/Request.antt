-- ===== src/Cream/Request.antt =====
-- `request_codes` of hw5/include/cream.h.
use cse320_projects.Common.{ℕ}

abbrev pub put_code : ℕ
put_code = 0x01

abbrev pub get_code : ℕ
get_code = 0x02

abbrev pub evict_code : ℕ
evict_code = 0x04

abbrev pub clear_code : ℕ
clear_code = 0x08
