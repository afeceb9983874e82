-- ===== src/Artnet/Tests.antt =====
-- The theorems on Art-Net at concrete datagrams, and runs of the receiver.
use sn.Base.{
  ◌≡◌, refl, none, some, [], ◌∷◌, ◌++◌, Array, codes, get_or, arith, pos, success, failure,
}
use sn.Artnet.{ArtnetDmxPacket, SockAddr, PollReply, artnet_receive}
use sn.Artnet.Receive.{
  IsArtnet, Holds, Describes, foreign, artnet_receive_dmx, artnet_receive_poll,
  artnet_receive_ignores,
}

abbrev dmx_bytes : Array 530
dmx_bytes i =
    get_or (codes "Art-Net" ++ 0 ∷ 0x00 ∷ 0x50 ∷ 0 ∷ 14 ∷ 7 ∷ 0 ∷ 3 ∷ 0 ∷ 0 ∷ 2 ∷ 255 ∷ 128 ∷ []) i
      0

abbrev poll_bytes : Array 530
poll_bytes i = get_or (codes "Art-Net" ++ 0 ∷ 0x00 ∷ 0x20 ∷ []) i 0

abbrev old_packet : ArtnetDmxPacket
old_packet = record { sequence = 0; physical = 0; universe = 0; dmx_data = λ _. 9; dmx_length = 0 }

abbrev sender : SockAddr
sender = record { address = 0x0100000A; port = 0x3619 }

dmx_bytes-IsArtnet : IsArtnet dmx_bytes 20
dmx_bytes-IsArtnet = record { long_enough = omega arith; magic = λ i h. ground arith }

artnet_receive_dmx_example :
    (pkt' : ArtnetDmxPacket) × (artnet_receive (pos 20) dmx_bytes sender old_packet
      ≡ some (success, pkt', none))
    × Holds dmx_bytes 20 pkt'
artnet_receive_dmx_example =
    artnet_receive_dmx dmx_bytes 20 sender old_packet (omega arith) dmx_bytes-IsArtnet refl

artnet_receive_poll_example :
    (reply : PollReply) × (artnet_receive (pos 18) poll_bytes sender old_packet
      ≡ some (failure, old_packet, some reply))
    × Describes sender reply
artnet_receive_poll_example =
    artnet_receive_poll poll_bytes 18 sender old_packet (omega arith)
      (record { long_enough = omega arith; magic = λ i h. ground arith }) refl

artnet_receive_ignores_example :
    artnet_receive (pos 10) poll_bytes sender old_packet ≡ some (failure, old_packet, none)
artnet_receive_ignores_example =
    artnet_receive_ignores poll_bytes (pos 10) sender old_packet (omega arith)
      (foreign 10 (λ h. absurd (omega (arith, h.long_enough))))
