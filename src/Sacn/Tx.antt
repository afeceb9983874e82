-- ===== src/Sacn/Tx.antt =====
-- src/sacn/sacn_tx.c: the transmitter. Log output is left out. Lengths are not negative: the
-- callers pass a count that `read` returned and tested, or a stored length.
use sn.Base.{
  ℕ, ◌+◌, ◌*◌, ◌/◌, ◌%◌, ◌^◌, List, [], ◌∷◌, Option, none, some, Array, store, memcpy, memset,
  strncpy, take, get_or, ltb, if◌then◌else◌, ◌>>=◌, ℤ, pos, negsuc, success, failure, is_negative,
}
use sn.Sacn.Offset
use sn.Sacn.{
  write_u16_be, write_u32_be, htons, sacn_multicast_addr, sacn_port, sacn_preamble_size,
  sacn_acn_identifier, sacn_acn_identifier_len, vector_root_e131_data, vector_e131_data_packet,
  vector_dmp_set_property, sacn_default_priority, dmx_universe_size, sacn_max_packet_len,
}

pub record SacnTx : Type 0 where
  pub sock_fd : ℤ
  pub sequence : ℕ
  pub universe : ℕ
  pub cid : Array 16
  pub source_name : Array 64
  pub priority : ℕ

-- The loop of `generate_cid`, over at most 64 characters.
pub hash_name : List ℕ → ℕ → ℕ
hash_name [] hash = hash
hash_name (c ∷ name) hash = hash_name name ((hash * 31 + c) % 2 ^ 32)

pub generate_cid : List ℕ → Array 16
unfolding hash_name
generate_cid name i =
    let hash = hash_name (take 64 name) 0x534E3131 in
    get_or
      (0x53
        ∷ 0x4E
        ∷ 0x31
        ∷ 0x31
        ∷ 0x30
        ∷ (hash / 2 ^ 24 % 256)
        ∷ (hash / 2 ^ 16 % 256)
        ∷ (hash / 2 ^ 8 % 256)
        ∷ (hash % 256)
        ∷ 0
        ∷ 0
        ∷ 0
        ∷ (hash / 2 ^ 12 % 256)
        ∷ (hash / 2 ^ 4 % 256)
        ∷ 0
        ∷ 1
        ∷ [])
      i 0

-- `sacn_tx_init`, given what `socket` returned; the TTL option's result is ignored by the code.
unfoldable pub sacn_tx_init : ℤ → ℕ → List ℕ → Option (ℤ × SacnTx)
sacn_tx_init sock universe source_name = do
  copied ← strncpy 64 (λ _. 0) source_name 63
  name ← store 64 copied 63 0
  let tx : SacnTx = record {
    sock_fd = sock;
    sequence = 0;
    universe = universe;
    cid = generate_cid source_name;
    source_name = name;
    priority = sacn_default_priority;
  }
  some (if is_negative sock then failure else success, tx)

abbrev pub dmp_pdu_len : ℕ → ℕ
dmp_pdu_len dmx_with_start_len = 10 + dmx_with_start_len

abbrev pub framing_pdu_len : ℕ → ℕ
framing_pdu_len dmx_with_start_len = 77 + dmp_pdu_len dmx_with_start_len

abbrev pub root_pdu_len : ℕ → ℕ
root_pdu_len dmx_with_start_len = 22 + framing_pdu_len dmx_with_start_len

abbrev pub total_len : ℕ → ℕ
total_len dmx_with_start_len = 16 + root_pdu_len dmx_with_start_len

-- The root layer. The lengths are below 0x1000, so `0x7000 | len` is a sum.
unfoldable pub write_root_layer : SacnTx → ℕ → (n : ℕ) → Array n → Option (Array n)
write_root_layer tx dmx_with_start_len n buf = do
  b₁ ← write_u16_be n buf Offset.preamble sacn_preamble_size
  b₂ ← write_u16_be n b₁ Offset.postamble 0
  b₃ ← memcpy n b₂ Offset.acn_id 12 sacn_acn_identifier 0 sacn_acn_identifier_len
  b₄ ← write_u16_be n b₃ Offset.root_flags_len (0x7000 + root_pdu_len dmx_with_start_len)
  b₅ ← write_u32_be n b₄ Offset.root_vector vector_root_e131_data
  memcpy n b₅ Offset.cid 16 tx.cid 0 16

unfoldable pub write_framing_layer : SacnTx → ℕ → (n : ℕ) → Array n → Option (Array n)
write_framing_layer tx dmx_with_start_len n buf = do
  b₁ ← write_u16_be n buf Offset.frame_flags_len (0x7000 + framing_pdu_len dmx_with_start_len)
  b₂ ← write_u32_be n b₁ Offset.frame_vector vector_e131_data_packet
  b₃ ← memcpy n b₂ Offset.source_name 64 tx.source_name 0 64
  b₄ ← store n b₃ Offset.priority tx.priority
  b₅ ← write_u16_be n b₄ Offset.sync_addr 0
  b₆ ← store n b₅ Offset.sequence tx.sequence
  b₇ ← store n b₆ Offset.options 0
  write_u16_be n b₇ Offset.universe tx.universe

-- The DMP layer up to the start code.
unfoldable pub write_dmp_header : ℕ → (n : ℕ) → Array n → Option (Array n)
write_dmp_header dmx_len n buf = do
  b₁ ← write_u16_be n buf Offset.dmp_flags_len (0x7000 + dmp_pdu_len (1 + dmx_len))
  b₂ ← store n b₁ Offset.dmp_vector vector_dmp_set_property
  b₃ ← store n b₂ Offset.dmp_addr_data 0xA1
  b₄ ← write_u16_be n b₃ Offset.dmp_first_addr 0
  b₅ ← write_u16_be n b₄ Offset.dmp_addr_inc 1
  b₆ ← write_u16_be n b₅ Offset.dmp_prop_count (1 + dmx_len)
  store n b₆ Offset.dmp_start_code 0

unfoldable pub write_dmp_layer : (m : ℕ) → Array m → ℕ → (n : ℕ) → Array n → Option (Array n)
write_dmp_layer m dmx_data dmx_len n buf = do
  b ← write_dmp_header dmx_len n buf
  memcpy n b Offset.dmp_dmx_data m dmx_data 0 dmx_len

-- `dmx_len` after the clamp.
abbrev pub clamp_tx_len : ℕ → ℕ
clamp_tx_len dmx_len = if ltb dmx_universe_size dmx_len then dmx_universe_size else dmx_len

-- `sacn_tx_build_packet` on data of m bytes and a buffer of n bytes.
unfoldable pub sacn_tx_build_packet :
    SacnTx → (m : ℕ) → Array m → ℕ → (n : ℕ) → Array n → ℕ → Option (ℤ × Array n)
sacn_tx_build_packet tx m dmx_data dmx_len n buf buf_size =
    let len = clamp_tx_len dmx_len in
    if ltb buf_size (total_len (1 + len)) then some (failure, buf) else do
      b₁ ← memset n buf 0 (total_len (1 + len))
      b₂ ← write_root_layer tx (1 + len) n b₁
      b₃ ← write_framing_layer tx (1 + len) n b₂
      b₄ ← write_dmp_layer m dmx_data len n b₃
      some (pos (total_len (1 + len)), b₄)

-- What is handed to `sendto`.
pub record Datagram : Type 0 where
  pub address : ℕ
  pub port : ℕ
  pub payload : Array 638
  pub size : ℕ

-- The branch of `sacn_tx_send` on what `sendto` returned.
unfoldable pub after_sendto : SacnTx → ℤ → ℤ × SacnTx
after_sendto tx sent =
    if is_negative sent
    then (failure, tx)
    else (success, record tx { sequence = (tx.sequence + 1) % 256 })

-- `sacn_tx_send`, given what `sendto` returns and what the stack buffer holds at first. The
-- datagram is `none` if the packet could not be built.
unfoldable pub sacn_tx_send :
    SacnTx → (m : ℕ) → Array m → ℕ → Array 638 → ℤ → Option (ℤ × SacnTx × Option Datagram)
sacn_tx_send tx m dmx_data dmx_len stack sent = do
  (pkt_len, buf) ← sacn_tx_build_packet tx m dmx_data dmx_len 638 stack sacn_max_packet_len
  elim pkt_len [
    | negsuc _ ↦ some (failure, tx, none)
    | pos len ↦
        let (rc, tx') = after_sendto tx sent in
        some (
          rc,
          tx',
          some (record {
            address = sacn_multicast_addr tx.universe;
            port = htons sacn_port;
            payload = buf;
            size = len;
          }),
        )
  ]
