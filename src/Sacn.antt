-- ===== src/Sacn.antt =====
-- src/sacn: the E1.31 packet, its wire format and the byte-order helpers that the receiver (`Rx`)
-- and the transmitter (`Tx`) share; from sacn.h, sacn_internal.h and netinet/in.h.
pub mod Offset
pub mod Rx
pub mod Tx
pub mod RoundTrip
pub mod Send
mod Tests
use sn.Base.{
  ℕ, ◌+◌, ◌*◌, ◌/◌, ◌%◌, ◌^◌, Option, some, Array, load, store, codes, get_or, ◌>>=◌, ◌<◌, ◌≡◌,
  arith,
}

abbrev pub dmx_universe_size : ℕ
dmx_universe_size = 512

abbrev pub sacn_min_packet_len : ℕ
sacn_min_packet_len = 126

abbrev pub sacn_max_packet_len : ℕ
sacn_max_packet_len = 638

abbrev pub sacn_port : ℕ
sacn_port = 5568

abbrev pub sacn_preamble_size : ℕ
sacn_preamble_size = 0x0010

abbrev pub sacn_acn_identifier : Array 12
sacn_acn_identifier i = get_or (codes "ASC-E1.17") i 0

abbrev pub sacn_acn_identifier_len : ℕ
sacn_acn_identifier_len = 12

abbrev pub vector_root_e131_data : ℕ
vector_root_e131_data = 4

abbrev pub vector_e131_data_packet : ℕ
vector_e131_data_packet = 2

abbrev pub vector_dmp_set_property : ℕ
vector_dmp_set_property = 2

abbrev pub sacn_default_priority : ℕ
sacn_default_priority = 100

abbrev pub sacn_timeout_ms : ℕ
sacn_timeout_ms = 2500

pub record SacnPacket : Type 0 where
  pub cid : Array 16
  pub source_name : Array 64
  pub priority : ℕ
  pub sequence : ℕ
  pub universe : ℕ
  pub options : ℕ
  pub start_code : ℕ
  pub dmx_data : Array 512
  pub dmx_length : ℕ

-- `htons` and `htonl` of the little-endian ARM7TDMI, from netinet/in.h.
unfoldable pub htons : ℕ → ℕ
htons x = x / 2 ^ 8 % 2 ^ 8 + x % 2 ^ 8 * 2 ^ 8

unfoldable pub htonl : ℕ → ℕ
htonl x =
    x / 2 ^ 24 % 2 ^ 8
    + x / 2 ^ 16 % 2 ^ 8 * 2 ^ 8
    + x / 2 ^ 8 % 2 ^ 8 * 2 ^ 16
    + x % 2 ^ 8 * 2 ^ 24

-- 239.255.0.0; its low 16 bits are zero, so `|` with a universe is a sum.
abbrev pub sacn_multicast_base : ℕ
sacn_multicast_base = 0xEFFF0000

unfoldable pub sacn_multicast_addr : ℕ → ℕ
unfolding htonl
sacn_multicast_addr universe = htonl (sacn_multicast_base + universe)

-- `(p[0] << 8) | p[1]`: the two bytes share no bit, so `|` is a sum.
unfoldable pub read_u16_be : (n : ℕ) → Array n → ℕ → Option ℕ
read_u16_be n p i = do hi ← load n p i; lo ← load n p (i + 1); some (hi * 256 + lo)

unfoldable pub read_u32_be : (n : ℕ) → Array n → ℕ → Option ℕ
read_u32_be n p i = do
  a ← load n p i
  b ← load n p (i + 1)
  c ← load n p (i + 2)
  d ← load n p (i + 3)
  some (a * 2 ^ 24 + b * 2 ^ 16 + c * 2 ^ 8 + d)

-- A byte keeps the low eight bits of what is stored.
unfoldable pub write_u16_be : (n : ℕ) → Array n → ℕ → ℕ → Option (Array n)
write_u16_be n p i v = do p' ← store n p i (v / 2 ^ 8 % 256); store n p' (i + 1) (v % 256)

unfoldable pub write_u32_be : (n : ℕ) → Array n → ℕ → ℕ → Option (Array n)
write_u32_be n p i v = do
  p₁ ← store n p i (v / 2 ^ 24 % 256)
  p₂ ← store n p₁ (i + 1) (v / 2 ^ 16 % 256)
  p₃ ← store n p₂ (i + 2) (v / 2 ^ 8 % 256)
  store n p₃ (i + 3) (v % 256)

pub read_u16_be_within :
    (n : ℕ) (p : Array n) (i : ℕ) → i + 1 < n → read_u16_be n p i ≡ some (p i * 256 + p (i + 1))
unfolding read_u16_be
read_u16_be_within n p i h = ground arith

pub read_u32_be_within :
    (n : ℕ) (p : Array n) (i : ℕ)
    → i + 3 < n
    → read_u32_be n p i ≡ some (p i * 2 ^ 24 + p (i + 1) * 2 ^ 16 + p (i + 2) * 2 ^ 8 + p (i + 3))
unfolding read_u32_be
read_u32_be_within n p i h = ground arith
