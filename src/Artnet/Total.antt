-- ===== src/Artnet/Total.antt =====
-- `artnet_receive` on every result of `recvfrom`.
use sn.Base.{
  ℕ, ◌≤◌, ◌≡◌, true, Option, some, Array, memcmp_within, ==_decides, Agree, ℤ, pos, negsuc, is_zero,
  AtMost, arith, Bool-cases, inl, inr,
}
use native.Mathlib.Decide.{dec_lt}
use sn.Artnet.{ArtnetDmxPacket, SockAddr, PollReply, Received, artnet_receive, artnet_magic}
use sn.Artnet.Receive.{
  IsArtnet, opcode, IsIgnored, error, foreign, other, artnet_receive_dmx, artnet_receive_poll,
  artnet_receive_ignores,
}

-- A packet that is accepted has at most 512 channels.
abbrev pub Gives : Option Received → Type 0
Gives r =
    (rc : ℤ) × (pkt' : ArtnetDmxPacket) × (reply : Option PollReply) × (r ≡ some (rc, pkt', reply))
    × (is_zero rc ≡ true → pkt'.dmx_length ≤ 512)

magic_decides : (buf : ℕ → ℕ) → Dec (Agree buf 0 artnet_magic 0 8)
magic_decides buf =
    let (order, _, same) = memcmp_within 8 buf 0 8 artnet_magic 0 8 (omega arith) (omega arith) in
    elim (Bool-cases (is_zero order)) [
      | inl e ↦ yes (same.0 e)
      | inr e ↦ no (λ h. absurd (cc (e, same.1 h)))
    ]

IsArtnet_dec : (buf : ℕ → ℕ) (n : ℕ) → Dec (IsArtnet buf n)
IsArtnet_dec buf n = elim (dec_lt n 18) [
  | yes short ↦ no (λ g. absurd (omega (arith, g.long_enough)))
  | no long ↦ elim (magic_decides buf) [
    | no x ↦ no (λ g. x g.magic)
    | yes magic ↦ yes (record { long_enough = omega arith; magic = magic })
  ]
]

ignored :
    (buf : Array 530) (n : ℤ) (from : SockAddr) (pkt : ArtnetDmxPacket)
    → AtMost n 530
    → IsIgnored buf n
    → Gives (artnet_receive n buf from pkt)
ignored buf n from pkt h i =
    (_, _, _, artnet_receive_ignores buf n from pkt h i, (λ z. absurd (cc z)))

-- Whatever `recvfrom` returns, up to the 530 bytes of the buffer, `artnet_receive` leaves no array,
-- and a packet that it accepts has at most 512 channels.
pub artnet_receive-Gives :
    (n : ℤ) (buf : Array 530) (from : SockAddr) (pkt : ArtnetDmxPacket)
    → AtMost n 530
    → Gives (artnet_receive n buf from pkt)
artnet_receive-Gives (negsuc k) buf from pkt h = ignored buf (negsuc k) from pkt h (error k)
artnet_receive-Gives (pos n) buf from pkt h = elim (IsArtnet_dec buf n) [
  | no g ↦ ignored buf (pos n) from pkt h (foreign n g)
  | yes g ↦ elim (==_decides (opcode buf) 0x5000) [
    | yes dmx ↦
        let (pkt', run, held) = artnet_receive_dmx buf n from pkt h g dmx in
        (_, _, _, run, (λ _. omega (arith, held.dmx_length)))
    | no x ↦ elim (==_decides (opcode buf) 0x2000) [
      | yes poll ↦
          let (reply, run, _) = artnet_receive_poll buf n from pkt h g poll in
          (_, _, _, run, (λ z. absurd (cc z)))
      | no y ↦ ignored buf (pos n) from pkt h (other n g y x)
    ]
  ]
]
