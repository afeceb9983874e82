-- ===== src/Shownet/Tests.antt =====
-- The theorems on ShowNet at a concrete datagram, and runs of the decoder.
use sn.Base.{
  ℕ, ◌+◌, ◌*◌, ◌≤◌, ◌≡◌, refl, some, [], ◌∷◌, Array, get_or, slice, take, arith, pos, success,
}
use sn.Shownet.{ShownetPacket, shownet_receive, shownet_decode_rle}
use sn.Shownet.Rle.{rle}
use sn.Shownet.Decode.{shownet_decode_rle-rle}
use sn.Shownet.Receive.{channels, shownet_receive-channels}

-- Flag bit 0 is set: a run of three 7, then 5, then a 0x80 that begins no run.
abbrev bytes : Array 1500
bytes i =
    get_or
      (0x02 ∷ 0x80 ∷ 0 ∷ 0 ∷ 1 ∷ 2 ∷ 1 ∷ 2 ∷ 5 ∷ 0 ∷ 0 ∷ 1 ∷ 0 ∷ 0 ∷ 1 ∷ 0x80 ∷ 3 ∷ 7 ∷ 5 ∷ 0x80
        ∷ [])
      i 0

abbrev old_packet : ShownetPacket
old_packet = record { net_slot = 0; dmx_data = λ _. 0; dmx_length = 0 }

rle_runs : rle (slice bytes 15 5) ≡ 7 ∷ 7 ∷ 7 ∷ 5 ∷ 0x80 ∷ []
unfolding rle
rle_runs = refl

shownet_decode_rle-rle_example :
    (out : ℕ) × (decoded : Array 2) × (shownet_decode_rle 1500 bytes 15 5 2 (λ _. 0) 2
      ≡ some (out, decoded))
    × (out ≤ 2)
    × (slice decoded 0 out ≡ take 2 (rle (slice bytes 15 5)))
shownet_decode_rle-rle_example =
    shownet_decode_rle-rle 1500 bytes 15 5 2 (λ _. 0) 2 (omega arith) (omega arith)

shownet_receive-channels_example :
    (pkt' : ShownetPacket) × (shownet_receive (pos 20) bytes old_packet ≡ some (success, pkt'))
    × (pkt'.net_slot ≡ bytes 6 + bytes 7 * 256)
    × (pkt'.dmx_length ≤ 512)
    × (slice pkt'.dmx_data 0 pkt'.dmx_length ≡ channels bytes 20)
shownet_receive-channels_example =
    shownet_receive-channels bytes 20 old_packet (omega arith) (omega arith)
