-- ===== src/Sacn/Rx.antt =====
-- src/sacn/sacn.c: `sacn_parse` and `sacn_receive`. The counters are those of
-- `sacn_dump_recv_stats`; the files that it and `sacn_receive` write for debugging are left out.
pub mod Accept
pub mod Total
use sn.Base.{
  ℕ, ◌+◌, ◌-◌, ◌%◌, ◌^◌, Bool, true, not, Option, some, Array, load, store, memcpy, memcmp, ltb,
  ◌==◌, if◌then◌else◌, ◌>>=◌, ℤ, pos, negsuc, success, failure, is_zero,
}
use sn.Sacn.Offset
use sn.Sacn.{
  SacnPacket, read_u16_be, read_u32_be, sacn_min_packet_len, sacn_preamble_size,
  sacn_acn_identifier, sacn_acn_identifier_len, vector_root_e131_data, vector_dmp_set_property,
  dmx_universe_size,
}

-- The number of channels that is copied out of a packet of `len` bytes. `(uint16_t)len` wraps.
unfoldable pub clamp_dmx_len : ℕ → ℕ → ℕ
clamp_dmx_len prop_count len =
    let dmx_len = prop_count - 1 in
    let dmx_len' = if ltb dmx_universe_size dmx_len then dmx_universe_size else dmx_len in
    if ltb (len % 2 ^ 16) (Offset.dmp_dmx_data + dmx_len')
    then (len - Offset.dmp_dmx_data) % 2 ^ 16
    else dmx_len'

-- From the DMP layer on; `pkt` already holds the fields of the framing layer.
unfoldable pub parse_dmp : (n : ℕ) → Array n → ℕ → SacnPacket → Option (ℤ × SacnPacket)
parse_dmp n buf len pkt = do
  vector ← load n buf Offset.dmp_vector
  if not (vector == vector_dmp_set_property) then some (failure, pkt) else do
    prop_count ← read_u16_be n buf Offset.dmp_prop_count
    if ltb prop_count 1 then some (failure, pkt) else do
      start_code ← load n buf Offset.dmp_start_code
      let dmx_len = clamp_dmx_len prop_count len
      dmx_data ← memcpy 512 pkt.dmx_data 0 n buf Offset.dmp_dmx_data dmx_len
      some (
        success,
        record pkt { start_code = start_code; dmx_data = dmx_data; dmx_length = dmx_len },
      )

-- The CID, the framing layer, and the rest. `pkt` keeps what is written before an error.
unfoldable pub parse_framing : (n : ℕ) → Array n → ℕ → SacnPacket → Option (ℤ × SacnPacket)
parse_framing n buf len pkt = do
  cid ← memcpy 16 pkt.cid 0 n buf Offset.cid 16
  name ← memcpy 64 pkt.source_name 0 n buf Offset.source_name 64
  source_name ← store 64 name 63 0
  priority ← load n buf Offset.priority
  sequence ← load n buf Offset.sequence
  options ← load n buf Offset.options
  universe ← read_u16_be n buf Offset.universe
  parse_dmp n buf len (record pkt {
    cid = cid;
    source_name = source_name;
    priority = priority;
    sequence = sequence;
    options = options;
    universe = universe;
  })

-- `sacn_parse(buf, len, pkt)` for a buffer of n bytes: the return code and the packet.
unfoldable pub sacn_parse : (n : ℕ) → Array n → ℤ → SacnPacket → Option (ℤ × SacnPacket)
sacn_parse n buf (negsuc _) pkt = some (failure, pkt)
sacn_parse n buf (pos len) pkt = if ltb len sacn_min_packet_len then some (failure, pkt) else do
  preamble ← read_u16_be n buf Offset.preamble
  if not (preamble == sacn_preamble_size) then some (failure, pkt) else do
    order ← memcmp n buf Offset.acn_id 12 sacn_acn_identifier 0 sacn_acn_identifier_len
    if not (is_zero order) then some (failure, pkt) else do
      root_vector ← read_u32_be n buf Offset.root_vector
      if not (root_vector == vector_root_e131_data)
          then some (failure, pkt)
          else parse_framing n buf len pkt

-- The `s_recv_*` and `s_parse_*` counters.
pub record RecvStats : Type 0 where
  pub recv_pos : ℕ
  pub recv_neg : ℕ
  pub recv_err : ℕ
  pub parse_ok : ℕ
  pub parse_fail : ℕ

-- What `recv` gave, counted.
pub count_recv : ℤ → RecvStats → RecvStats
count_recv (pos n) s =
    if ltb 0 n
    then record s { recv_pos = s.recv_pos + 1 }
    else record s { recv_err = s.recv_err + 1 }
count_recv (negsuc n) s = record s { recv_neg = s.recv_neg + 1 }

-- `n < SACN_MIN_PACKET_LEN`
unfoldable pub is_short : ℤ → Bool
is_short (pos n) = ltb n sacn_min_packet_len
is_short (negsuc n) = true

pub count_parse : ℤ → RecvStats → RecvStats
count_parse rc s =
    if is_zero rc
    then record s { parse_ok = s.parse_ok + 1 }
    else record s { parse_fail = s.parse_fail + 1 }

-- `sacn_receive`, given what `recv` returned and put into the 638 bytes of the buffer.
unfoldable pub sacn_receive :
    ℤ → Array 638 → RecvStats → SacnPacket → Option (ℤ × SacnPacket × RecvStats)
sacn_receive n buf stats pkt =
    let stats' = count_recv n stats in
    if is_short n
    then some (failure, pkt, stats')
    else do (rc, pkt') ← sacn_parse 638 buf n pkt; some (rc, pkt', count_parse rc stats')
