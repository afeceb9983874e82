-- ===== src/Sacn/Tests.antt =====
-- The theorems on sACN at a concrete packet, and runs of the transmitter and the receiver.
use Prim.Native.Nat.{min}
use sn.Base.{
  ◌*◌, ◌+◌, ◌^◌, ◌≤◌, ◌↔◌, ◌⊎◌, Agree, ℤ, ◌-◌, ℕ, ◌≡◌, refl, some, [], ◌∷◌, Array, get_or, codes,
  arith, pos, success, failure,
}
use sn.Sacn.{SacnPacket, sacn_multicast_addr, sacn_acn_identifier}
use sn.Sacn.Tx.{SacnTx, Datagram, sacn_tx_build_packet, sacn_tx_send}
use sn.Sacn.Send.{Delivers, Reports, sacn_tx_send-Delivers}
use sn.Sacn.Rx.{sacn_parse}
use sn.Sacn.Rx.Accept.{IsDataPacket, Holds, sacn_parse-Holds, sacn_parse_decides}
use sn.Sacn.RoundTrip.{Carries, sacn_parse-build}

abbrev tx : SacnTx
tx = record {
  sock_fd = pos 5;
  sequence = 41;
  universe = 2;
  cid = λ i. i;
  source_name = λ i. get_or (codes "SN110 Port 1") i 0;
  priority = 100;
}

abbrev frame : Array 512
frame i = get_or (255 ∷ 128 ∷ 1 ∷ []) i 0

abbrev blank : SacnPacket
blank = record {
  cid = λ _. 0;
  source_name = λ _. 0;
  priority = 0;
  sequence = 0;
  universe = 0;
  options = 0;
  start_code = 0;
  dmx_data = λ _. 0;
  dmx_length = 0;
}

sacn_parse-build_example :
    (len : ℕ) × (buf : Array 638) × (pkt' : SacnPacket) × (sacn_tx_build_packet tx 512 frame 3 638
        (λ _. 9)
        638
      ≡ some (pos len, buf))
    × (sacn_parse 638 buf (pos len) blank ≡ some (success, pkt'))
    × Carries tx 512 frame (min 3 512) pkt'
sacn_parse-build_example = sacn_parse-build tx 512 frame 3 (λ _. 9) blank (omega arith)

-- A data packet of one channel, with the fields that the receiver looks at.
abbrev small_packet : Array 638
small_packet i =
    get_or
      (0 ∷ 16 ∷ 0 ∷ 0 ∷ 65 ∷ 83 ∷ 67 ∷ 45 ∷ 69 ∷ 49 ∷ 46 ∷ 49 ∷ 55 ∷ 0 ∷ 0 ∷ 0 ∷ 0 ∷ 0 ∷ 0 ∷ 0 ∷ 0
        ∷ 4 ∷ [])
      i (get_or (0 ∷ 0 ∷ 2 ∷ 0 ∷ 0 ∷ 0 ∷ 0 ∷ 0 ∷ 0 ∷ 2 ∷ 0 ∷ 77 ∷ []) (i - 115) 0)

small_packet-IsDataPacket : IsDataPacket small_packet 127
small_packet-IsDataPacket = record {
  long_enough = omega arith;
  preamble = refl;
  identifier = λ i h. ground arith;
  root_vector = refl;
  dmp_vector = refl;
  start_code = omega arith;
}

sacn_parse-Holds_example :
    (pkt' : SacnPacket) × (sacn_parse 638 small_packet (pos 127) blank ≡ some (success, pkt'))
    × Holds small_packet 127 pkt'
sacn_parse-Holds_example =
    sacn_parse-Holds 638 small_packet 127 blank (omega arith) (omega arith)
      small_packet-IsDataPacket

sacn_parse_decides_example :
    (rc : ℤ) × (pkt' : SacnPacket) × (sacn_parse 638 frame (pos 200) blank ≡ some (rc, pkt'))
    × ((rc ≡ success) ⊎ (rc ≡ failure))
    × ((rc ≡ success) ↔ (
        (126 ≤ 200)
        × (frame 0 * 256 + frame 1 ≡ 16)
        × Agree frame 4 sacn_acn_identifier 0 12
        × (frame 18 * 2 ^ 24 + frame 19 * 2 ^ 16 + frame 20 * 2 ^ 8 + frame 21 ≡ 4)
        × (frame 117 ≡ 2)
        × (1 ≤ frame 123 * 256 + frame 124)))
sacn_parse_decides_example = sacn_parse_decides 638 frame 200 blank (omega arith) (omega arith)

multicast_universe_1 : sacn_multicast_addr 1 ≡ 0x0100FFEF
unfolding sacn_multicast_addr
multicast_universe_1 = refl

sacn_tx_send-Delivers_example :
    (rc : ℤ) × (tx' : SacnTx) × (d : Datagram) × (sacn_tx_send tx 512 frame 3 (λ _. 9) (pos 129)
      ≡ some (rc, tx', some d))
    × Reports tx (pos 129) rc tx'
    × Delivers tx 512 frame (min 3 512) blank d
sacn_tx_send-Delivers_example =
    sacn_tx_send-Delivers tx 512 frame 3 (λ _. 9) (pos 129) blank (omega arith) (omega arith)
