-- ===== src/Artnet/Receive.antt =====
-- What `artnet_receive` does with every datagram.
use Prim.Native.Nat.{min}
use native.Mathlib.Decide.{dec_lt}
use sn.Base.{
  ltb-false, Bool-cases, inl, inr, ℕ, ◌+◌, ◌-◌, ◌*◌, ◌≤◌, ◌<◌, ◌≡◌, ◌≢◌, refl, none, some, Array, ℤ,
  pos, negsuc, success, failure, arith, AtMost, is_zero, memcpy_within, memcmp_within, Agree,
  memcmp, ◌==◌, not, if◌then◌else◌, true, ◌↔◌,
}
use sn.Sacn.{htons}
use sn.Artnet.{
  ArtnetDmxPacket, SockAddr, PollReply, artnet_magic, artnet_receive, artnet_send_poll_reply,
  parse_dmx, clamp_dmx_len, read_u16_le,
}

abbrev pub opcode : (ℕ → ℕ) → ℕ
opcode buf = buf 8 + buf 9 * 256

-- An Art-Net packet of `n` bytes, by its length and magic.
pub record IsArtnet (buf : ℕ → ℕ) (n : ℕ) : Type 0 where
  pub long_enough : 18 ≤ n
  pub magic : Agree buf 0 artnet_magic 0 8

abbrev pub announced : (ℕ → ℕ) → ℕ
announced buf = buf 16 * 256 + buf 17

pub record Holds (buf : ℕ → ℕ) (n : ℕ) (pkt : ArtnetDmxPacket) : Type 0 where
  pub sequence : pkt.sequence ≡ buf 12
  pub physical : pkt.physical ≡ buf 13
  pub universe : pkt.universe ≡ buf 14 + buf 15 * 256
  pub dmx_length : pkt.dmx_length ≡ min (announced buf) (min 512 (n - 18))
  pub dmx_data : (i : ℕ) → i < pkt.dmx_length → pkt.dmx_data i ≡ buf (18 + i)

-- The reply of a node with two output ports, for the sender.
pub record Describes (from : SockAddr) (reply : PollReply) : Type 0 where
  pub address : reply.dest.address ≡ from.address
  pub port : reply.dest.port ≡ htons 6454
  pub magic : Agree reply.payload 0 artnet_magic 0 8
  pub opcode : reply.payload 8 + reply.payload 9 * 256 ≡ 0x2100
  pub udp_port : reply.payload 14 + reply.payload 15 * 256 ≡ 6454
  pub ports : reply.payload 173 ≡ 2
  pub port_types : (reply.payload 174 ≡ 0x80) × (reply.payload 175 ≡ 0x80)

replies : (from : SockAddr) → (reply : PollReply) × (artnet_send_poll_reply from ≡ some reply)
unfolding artnet_send_poll_reply
replies from = (_, refl)

replies-Describes : (from : SockAddr) → Describes from (replies from).0
unfolding replies
replies-Describes from = record {
  address = refl;
  port = unfold htons in refl;
  magic = λ i h. ground arith;
  opcode = refl;
  udp_port = refl;
  ports = refl;
  port_types = (refl, refl);
}

clamp_dmx_len-min : (a n : ℕ) → 18 ≤ n → n ≤ 530 → clamp_dmx_len a n ≡ min a (min 512 (n - 18))
unfolding clamp_dmx_len
clamp_dmx_len-min a n h k = ground arith

module _ (buf : Array 530) (n : ℕ) (from : SockAddr) (pkt : ArtnetDmxPacket) where
  parses :
      18 ≤ n
      → n ≤ 530
      → (pkt' : ArtnetDmxPacket) × (parse_dmx buf n pkt ≡ some (success, pkt', none))
        × Holds buf n pkt'
  unfolding parse_dmx read_u16_le
  parses h k =
      rw
        (
          clamp_dmx_len-min (announced buf) n h k,
          memcpy_within 512 pkt.dmx_data 0 530 buf 18 (min (announced buf) (min 512 (n - 18)))
              (omega arith) (omega arith),
        )
        (
          _,
          refl,
          record {
            sequence = refl;
            physical = refl;
            universe = refl;
            dmx_length = refl;
            dmx_data = λ i lt. ground arith;
          },
        )

  compares :
      (order : ℤ) × (memcmp 530 buf 0 8 artnet_magic 0 8 ≡ some order)
      × ((is_zero order ≡ true) ↔ Agree buf 0 artnet_magic 0 8)
  compares = memcmp_within 530 buf 0 8 artnet_magic 0 8 (omega arith) (omega arith)

  receives_artnet :
      n ≤ 530
      → IsArtnet buf n
      → artnet_receive (pos n) buf from pkt ≡ (
          if opcode buf == 0x2000
          then some (failure, pkt, some (replies from).0)
          else if not (opcode buf == 0x5000)
          then some (failure, pkt, none)
          else parse_dmx buf n pkt)
  unfolding artnet_receive read_u16_le
  receives_artnet k g =
      let (order, runs, same) = compares in
      rw (runs, (replies from).1, same.1 g.magic, ltb-false n 18 g.long_enough) refl

ignores_foreign :
    (buf : Array 530) (n : ℕ) (from : SockAddr) (pkt : ArtnetDmxPacket)
    → ¬ IsArtnet buf n
    → artnet_receive (pos n) buf from pkt ≡ some (failure, pkt, none)
unfolding artnet_receive
ignores_foreign buf n from pkt g =
    let (order, runs, same) = compares buf n from pkt in
    elim (dec_lt n 18) [
      | yes short ↦ ground arith
      | no long ↦ rw runs (elim (Bool-cases (is_zero order)) [
        | inl e ↦ absurd (g (record { long_enough = omega arith; magic = same.0 e }))
        | inr e ↦ rw (e, ltb-false n 18 (omega arith))
      ])
    ]

-- A datagram of at most 530 bytes that is an ArtDmx packet is accepted: the fields are read at
-- their offsets, and min(announced, 512, n - 18) channels are copied; nothing is sent.
pub artnet_receive_dmx :
    (buf : Array 530) (n : ℕ) (from : SockAddr) (pkt : ArtnetDmxPacket)
    → n ≤ 530
    → IsArtnet buf n
    → opcode buf ≡ 0x5000
    → (pkt' : ArtnetDmxPacket) × (artnet_receive (pos n) buf from pkt ≡ some (success, pkt', none))
      × Holds buf n pkt'
artnet_receive_dmx buf n from pkt k g e =
    let (pkt', parsed, held) = parses buf n from pkt g.long_enough k in
    (pkt', (rw (receives_artnet buf n from pkt k g, e) parsed), held)

-- An ArtPoll of 18 to 530 bytes, longer than the 14 bytes of the standard's, is answered by one ArtPollReply to the sender's address, port
-- 6454, which announces two DMX512 outputs; the result is -1 and the packet is unchanged.
pub artnet_receive_poll :
    (buf : Array 530) (n : ℕ) (from : SockAddr) (pkt : ArtnetDmxPacket)
    → n ≤ 530
    → IsArtnet buf n
    → opcode buf ≡ 0x2000
    → (reply : PollReply) × (artnet_receive (pos n) buf from pkt ≡ some (failure, pkt, some reply))
      × Describes from reply
artnet_receive_poll buf n from pkt k g e =
    ((replies from).0, rw (receives_artnet buf n from pkt k g, e), replies-Describes from)

-- What `recvfrom` gives that is neither: an error, a short or foreign datagram, another opcode.
pub data IsIgnored (buf : ℕ → ℕ) : ℤ → Type 0 where
  error : (e : ℕ) → IsIgnored buf (negsuc e)
  foreign : (n : ℕ) → ¬ IsArtnet buf n → IsIgnored buf (pos n)
  other :
      (n : ℕ) → IsArtnet buf n → opcode buf ≢ 0x2000 → opcode buf ≢ 0x5000 → IsIgnored buf (pos n)

-- An error of `recvfrom`, fewer than 18 bytes, an ArtPoll of the standard's 14 bytes among them, up
-- to 530 bytes without the Art-Net identifier, and any other opcode than those of ArtPoll and
-- ArtDmx give -1, change no packet and send nothing.
pub artnet_receive_ignores :
    (buf : Array 530) (n : ℤ) (from : SockAddr) (pkt : ArtnetDmxPacket)
    → AtMost n 530
    → IsIgnored buf n
    → artnet_receive n buf from pkt ≡ some (failure, pkt, none)
artnet_receive_ignores buf n from pkt k (error e) = unfold artnet_receive in refl
artnet_receive_ignores buf n from pkt k (other m g p q) =
    rw (receives_artnet buf m from pkt k g) (ground arith)
artnet_receive_ignores buf n from pkt k (foreign m g) = ignores_foreign buf m from pkt g
