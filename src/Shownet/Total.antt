-- ===== src/Shownet/Total.antt =====
-- `shownet_receive` on every result of `recv`.
use sn.Base.{
  ◌≤◌, ◌≡◌, refl, true, Option, some, Array, ℤ, pos, negsuc, is_zero, AtMost, arith, lt→ltb,
}
use native.Mathlib.Decide.{dec_lt}
use sn.Shownet.{ShownetPacket, shownet_receive}
use sn.Shownet.Receive.{shownet_receive-channels}

-- A packet that is accepted has at most 512 channels.
abbrev pub Gives : Option (ℤ × ShownetPacket) → Type 0
Gives r =
    (rc : ℤ) × (pkt' : ShownetPacket) × (r ≡ some (rc, pkt'))
    × (is_zero rc ≡ true → pkt'.dmx_length ≤ 512)

-- Whatever `recv` returns, up to the 1500 bytes of the buffer, `shownet_receive` leaves no array,
-- and a packet that it accepts has at most 512 channels.
pub shownet_receive-Gives :
    (n : ℤ) (buf : Array 1500) (pkt : ShownetPacket)
    → AtMost n 1500
    → Gives (shownet_receive n buf pkt)
shownet_receive-Gives (negsuc k) buf pkt h =
    unfold shownet_receive in (_, _, refl, (λ z. absurd (cc z)))
shownet_receive-Gives (pos n) buf pkt h = elim (dec_lt n 16) [
  | yes short ↦ unfold shownet_receive in rw (lt→ltb n 16 short) (_, _, refl, (λ z. absurd (cc z)))
  | no long ↦
      let (pkt', run, _, le, _) = shownet_receive-channels buf n pkt (omega arith) h in
      (_, pkt', run, (λ _. le))
]
