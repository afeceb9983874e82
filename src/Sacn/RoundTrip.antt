-- ===== src/Sacn/RoundTrip.antt =====
-- The transmitter's packets are read back by the receiver.
use Prim.Native.Nat.{min}
use sn.Base.{
  ltb-false, ℕ, ◌+◌, ◌*◌, ◌/◌, ◌%◌, ◌^◌, ◌≤◌, ◌<◌, ◌≡◌, refl, ap, some, Array, ltb, pos, success,
  arith, memcmp, le→leb, copied, if◌then◌else◌,
}
use sn.Sacn.{SacnPacket, write_u16_be, write_u32_be, read_u16_be, read_u32_be}
use sn.Sacn.Tx.{
  SacnTx, write_root_layer, write_framing_layer, write_dmp_header, write_dmp_layer,
  sacn_tx_build_packet, total_len, clamp_tx_len,
}
use sn.Sacn.Rx.{sacn_parse, parse_framing, parse_dmp, clamp_dmx_len}

clamp_tx_len-min : (len : ℕ) → clamp_tx_len len ≡ min len 512
clamp_tx_len-min len = ground arith

-- Each layer is written without a fault, at once, since its offsets are constants.
writes_root :
    (tx : SacnTx) (k : ℕ) (buf : Array 638)
    → (buf' : Array 638) × (write_root_layer tx k 638 buf ≡ some buf')
unfolding write_root_layer write_u16_be write_u32_be
writes_root tx k buf = (_, refl)

writes_framing :
    (tx : SacnTx) (k : ℕ) (buf : Array 638)
    → (buf' : Array 638) × (write_framing_layer tx k 638 buf ≡ some buf')
unfolding write_framing_layer write_u16_be write_u32_be
writes_framing tx k buf = (_, refl)

writes_dmp_header :
    (c : ℕ) (buf : Array 638) → (buf' : Array 638) × (write_dmp_header c 638 buf ≡ some buf')
unfolding write_dmp_header write_u16_be write_u32_be
writes_dmp_header c buf = (_, refl)

-- The packet of c channels.
abbrev header : SacnTx → ℕ → Array 638 → Array 638
header tx c stack =
    let b₁ = λ (i : ℕ). if ltb i (total_len (1 + c)) then 0 else stack i in
    let b₂ = (writes_root tx (1 + c) b₁).0 in
    (writes_dmp_header c (writes_framing tx (1 + c) b₂).0).0

abbrev packet : SacnTx → (m : ℕ) → Array m → ℕ → Array 638 → Array 638
packet tx m dmx_data c stack = copied (header tx c stack) 126 dmx_data 0 c

-- The packet holds what the transmitter and the DMX input held.
pub record Carries (tx : SacnTx) (m : ℕ) (sent : Array m) (c : ℕ) (pkt : SacnPacket) : Type 0 where
  pub cid : (i : ℕ) → i < 16 → pkt.cid i ≡ tx.cid i
  pub source_name : (i : ℕ) → i < 63 → pkt.source_name i ≡ tx.source_name i
  pub priority : pkt.priority ≡ tx.priority
  pub sequence : pkt.sequence ≡ tx.sequence
  pub universe : pkt.universe ≡ tx.universe % 2 ^ 16
  pub start_code : pkt.start_code ≡ 0
  pub dmx_length : pkt.dmx_length ≡ c
  pub dmx_data : (i : ℕ) → i < c → pkt.dmx_data i ≡ sent i

module _ (tx : SacnTx) (m : ℕ) (dmx_data : Array m) (stack : Array 638) (c : ℕ) (small : c ≤ 512)
    (fits : c ≤ m) where
  prop_count : ℕ
  prop_count = (1 + c) / 256 % 256 * 256 + (1 + c) % 256

  clamp_back : clamp_dmx_len prop_count (126 + c) ≡ c
  unfolding clamp_dmx_len prop_count
  clamp_back = ground arith

  parses :
      (pkt : SacnPacket)
      → (pkt' : SacnPacket) × (sacn_parse 638 (packet tx m dmx_data c stack) (pos (126 + c)) pkt
          ≡ some (success, pkt'))
        × Carries tx m dmx_data c pkt'
  unfolding sacn_parse parse_framing parse_dmp writes_root writes_framing writes_dmp_header
      write_root_layer write_framing_layer write_dmp_header write_u16_be write_u32_be read_u16_be
      read_u32_be memcmp prop_count
  parses pkt =
      rw
        (
          ltb-false (126 + c) 126 (omega arith),
          ltb-false prop_count 1 (omega arith),
          clamp_back,
          le→leb (126 + c) 638 (omega arith),
          le→leb (0 + c) 512 (omega arith),
        )
        (
          _,
          refl,
          record {
            cid = λ i h. ground arith;
            source_name = λ i h. ground arith;
            priority = refl;
            sequence = refl;
            universe = omega arith;
            start_code = refl;
            dmx_length = refl;
            dmx_data = λ i h. ground arith;
          },
        )

build-eq-packet :
    (tx : SacnTx) (m : ℕ) (dmx_data : Array m) (dmx_len : ℕ) (stack : Array 638)
    → min dmx_len 512 ≤ m
    → sacn_tx_build_packet tx m dmx_data dmx_len 638 stack 638
      ≡ some (pos (126 + min dmx_len 512), packet tx m dmx_data (min dmx_len 512) stack)
unfolding sacn_tx_build_packet write_dmp_layer
build-eq-packet tx m dmx_data dmx_len stack fits =
    let c = min dmx_len 512 in
    let size : total_len (1 + c) ≡ 126 + c = omega arith in
    rw
      (
        clamp_tx_len-min dmx_len,
        ltb-false 638 (total_len (1 + c)) (omega arith),
        le→leb (total_len (1 + c)) 638 (omega arith),
        (writes_root tx (1 + c) _).1,
        (writes_framing tx (1 + c) _).1,
        (writes_dmp_header c _).1,
        le→leb (126 + c) 638 (omega arith),
        le→leb (0 + c) m (omega arith),
      )
      (ap (λ n. some (pos n, packet tx m dmx_data c stack)) size)

-- Whatever the receive buffer and the old packet hold, `sacn_parse` accepts the packet that
-- `sacn_tx_build_packet` builds in a 638-byte buffer from an array of at least min(dmx_len, 512)
-- channels, and gives back the CID, the source name up to 63 bytes, the priority, the sequence number, the
-- universe modulo 65536 and the first min(dmx_len, 512) channels.
pub sacn_parse-build :
    (tx : SacnTx) (m : ℕ) (dmx_data : Array m) (dmx_len : ℕ) (stack : Array 638) (pkt : SacnPacket)
    → min dmx_len 512 ≤ m
    → (len : ℕ) × (buf : Array 638) × (pkt' : SacnPacket) × (sacn_tx_build_packet tx m dmx_data
          dmx_len 638 stack 638
        ≡ some (pos len, buf))
      × (sacn_parse 638 buf (pos len) pkt ≡ some (success, pkt'))
      × Carries tx m dmx_data (min dmx_len 512) pkt'
sacn_parse-build tx m dmx_data dmx_len stack pkt fits =
    let c = min dmx_len 512 in
    let (pkt', parsed, carried) = parses tx m dmx_data stack c (omega arith) fits pkt in
    (
      126 + c,
      packet tx m dmx_data c stack,
      pkt',
      build-eq-packet tx m dmx_data dmx_len stack fits,
      parsed,
      carried,
    )
