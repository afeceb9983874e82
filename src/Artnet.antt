-- ===== src/Artnet.antt =====
-- src/artnet: the ArtDmx receiver and the ArtPollReply that it sends, from artnet.h and artnet.c.
pub mod Receive
pub mod Total
mod Tests
use sn.Base.{
  ℕ, ◌+◌, ◌-◌, ◌*◌, ◌/◌, ◌%◌, ◌^◌, ◌<◌, ◌≡◌, Bool, true, not, Option, none, some, Array, load,
  store, memcpy, memset, memcmp, codes, get_or, ltb, ◌==◌, if◌then◌else◌, ◌>>=◌, ℤ, pos, negsuc,
  success, failure, is_zero, arith,
}
use sn.Sacn.{htons, dmx_universe_size}

abbrev pub artnet_port : ℕ
artnet_port = 6454

-- "Art-Net" with its terminator.
abbrev pub artnet_magic : Array 8
artnet_magic i = get_or (codes "Art-Net") i 0

abbrev pub artnet_magic_len : ℕ
artnet_magic_len = 8

abbrev pub artnet_op_poll : ℕ
artnet_op_poll = 0x2000

abbrev pub artnet_op_poll_reply : ℕ
artnet_op_poll_reply = 0x2100

abbrev pub artnet_op_dmx : ℕ
artnet_op_dmx = 0x5000

abbrev pub artnet_min_dmx_len : ℕ
artnet_min_dmx_len = 18

abbrev pub off_opcode : ℕ
off_opcode = 8

abbrev pub off_sequence : ℕ
off_sequence = 12

abbrev pub off_physical : ℕ
off_physical = 13

abbrev pub off_universe : ℕ
off_universe = 14

abbrev pub off_length_hi : ℕ
off_length_hi = 16

abbrev pub off_length_lo : ℕ
off_length_lo = 17

abbrev pub off_dmx_data : ℕ
off_dmx_data = 18

pub record ArtnetDmxPacket : Type 0 where
  pub sequence : ℕ
  pub physical : ℕ
  pub universe : ℕ
  pub dmx_data : Array 512
  pub dmx_length : ℕ

-- `p[0] | (p[1] << 8)`: the two bytes share no bit.
unfoldable pub read_u16_le : (n : ℕ) → Array n → ℕ → Option ℕ
read_u16_le n p i = do lo ← load n p i; hi ← load n p (i + 1); some (lo + hi * 256)

pub read_u16_le_within :
    (n : ℕ) (p : Array n) (i : ℕ) → i + 1 < n → read_u16_le n p i ≡ some (p i + p (i + 1) * 256)
unfolding read_u16_le
read_u16_le_within n p i h = ground arith

-- An internet address and port, in network byte order.
pub record SockAddr : Type 0 where
  pub address : ℕ
  pub port : ℕ

pub record PollReply : Type 0 where
  pub dest : SockAddr
  pub payload : Array 239

abbrev short_name : Array 12
short_name i = get_or (codes "SN110-OpenFW") i 0

abbrev long_name : Array 35
long_name i = get_or (codes "Strand SN110 Open Firmware DMX Node") i 0

-- `artnet_send_poll_reply` as `artnet_receive` calls it, with address 0 and no MAC.
unfoldable pub artnet_send_poll_reply : SockAddr → Option PollReply
unfolding htons
artnet_send_poll_reply dest = do
  r₀ ← memset 239 (λ _. 0) 0 239
  r₁ ← memcpy 239 r₀ 0 8 artnet_magic 0 artnet_magic_len
  r₂ ← store 239 r₁ 8 (artnet_op_poll_reply % 256)
  r₃ ← store 239 r₂ 9 (artnet_op_poll_reply / 2 ^ 8 % 256)
  r₄ ← memcpy 239 r₃ 10 4 (λ _. 0) 0 4
  r₅ ← store 239 r₄ 14 (artnet_port % 256)
  r₆ ← store 239 r₅ 15 (artnet_port / 2 ^ 8 % 256)
  r₇ ← store 239 r₆ 16 0
  r₈ ← store 239 r₇ 17 1
  r₉ ← memcpy 239 r₈ 26 12 short_name 0 12
  r₁₀ ← memcpy 239 r₉ 44 35 long_name 0 35
  r₁₁ ← store 239 r₁₀ 173 2
  r₁₂ ← store 239 r₁₁ 174 0x80
  r₁₃ ← store 239 r₁₂ 175 0x80
  some (record { dest = record dest { port = htons artnet_port }; payload = r₁₃ })

-- The channels copied from a packet of n bytes that announces `announced`.
unfoldable pub clamp_dmx_len : ℕ → ℕ → ℕ
clamp_dmx_len announced n =
    let dmx_len = if ltb dmx_universe_size announced then dmx_universe_size else announced in
    if ltb (n % 2 ^ 16) (off_dmx_data + dmx_len) then (n - off_dmx_data) % 2 ^ 16 else dmx_len

-- The return code, the packet, and the reply that was sent.
abbrev pub Received : Type 0
Received = ℤ × ArtnetDmxPacket × Option PollReply

-- An ArtDmx packet of n bytes; the protocol version is not looked at.
unfoldable pub parse_dmx : Array 530 → ℕ → ArtnetDmxPacket → Option Received
parse_dmx buf n pkt = do
  sequence ← load 530 buf off_sequence
  physical ← load 530 buf off_physical
  universe ← read_u16_le 530 buf off_universe
  hi ← load 530 buf off_length_hi
  lo ← load 530 buf off_length_lo
  let dmx_len = clamp_dmx_len (hi * 256 + lo) n
  dmx_data ← memcpy 512 pkt.dmx_data 0 530 buf off_dmx_data dmx_len
  let pkt' : ArtnetDmxPacket = record {
    sequence = sequence;
    physical = physical;
    universe = universe;
    dmx_data = dmx_data;
    dmx_length = dmx_len;
  }
  some (success, pkt', none)

-- `artnet_receive`, given what `recvfrom` returned, the buffer and the sender.
unfoldable pub artnet_receive : ℤ → Array 530 → SockAddr → ArtnetDmxPacket → Option Received
artnet_receive (negsuc _) buf from pkt = some (failure, pkt, none)
artnet_receive (pos n) buf from pkt =
    if ltb n artnet_min_dmx_len then some (failure, pkt, none) else do
      order ← memcmp 530 buf 0 8 artnet_magic 0 artnet_magic_len
      if not (is_zero order) then some (failure, pkt, none) else do
        opcode ← read_u16_le 530 buf off_opcode
        if opcode == artnet_op_poll
            then (do reply ← artnet_send_poll_reply from; some (failure, pkt, some reply))
            else if not (opcode == artnet_op_dmx)
            then some (failure, pkt, none)
            else parse_dmx buf n pkt
