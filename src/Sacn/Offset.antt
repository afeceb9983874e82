-- ===== src/Sacn/Offset.antt =====
-- The `OFF_*` constants of src/sacn/sacn_internal.h.
use sn.Base.{ℕ}

abbrev pub preamble : ℕ
preamble = 0

abbrev pub postamble : ℕ
postamble = 2

abbrev pub acn_id : ℕ
acn_id = 4

abbrev pub root_flags_len : ℕ
root_flags_len = 16

abbrev pub root_vector : ℕ
root_vector = 18

abbrev pub cid : ℕ
cid = 22

abbrev pub frame_flags_len : ℕ
frame_flags_len = 38

abbrev pub frame_vector : ℕ
frame_vector = 40

abbrev pub source_name : ℕ
source_name = 44

abbrev pub priority : ℕ
priority = 108

abbrev pub sync_addr : ℕ
sync_addr = 109

abbrev pub sequence : ℕ
sequence = 111

abbrev pub options : ℕ
options = 112

abbrev pub universe : ℕ
universe = 113

abbrev pub dmp_flags_len : ℕ
dmp_flags_len = 115

abbrev pub dmp_vector : ℕ
dmp_vector = 117

abbrev pub dmp_addr_data : ℕ
dmp_addr_data = 118

abbrev pub dmp_first_addr : ℕ
dmp_first_addr = 119

abbrev pub dmp_addr_inc : ℕ
dmp_addr_inc = 121

abbrev pub dmp_prop_count : ℕ
dmp_prop_count = 123

abbrev pub dmp_start_code : ℕ
dmp_start_code = 125

abbrev pub dmp_dmx_data : ℕ
dmp_dmx_data = 126
