-- ===== src/Sacn/Rx/Total.antt =====
-- `sacn_receive` on every result of `recv`.
use sn.Base.{
  ◌≤◌, ◌≡◌, refl, true, Option, some, Array, lt→ltb, ltb-false, ℤ, pos, negsuc, is_zero, AtMost,
  arith,
}
use native.Mathlib.Decide.{dec_lt}
use sn.Sacn.{SacnPacket}
use sn.Sacn.Rx.{RecvStats, sacn_receive, is_short}
use sn.Sacn.Rx.Accept.{IsDataPacket_dec, sacn_parse-Holds, sacn_parse_rejects}

-- A result that is accepted has at most 512 channels.
abbrev pub Gives : Option (ℤ × SacnPacket × RecvStats) → Type 0
Gives r =
    (rc : ℤ) × (pkt' : SacnPacket) × (stats : RecvStats) × (r ≡ some (rc, pkt', stats))
    × (is_zero rc ≡ true → pkt'.dmx_length ≤ 512)

-- Whatever `recv` returns, up to the 638 bytes of the buffer, `sacn_receive` leaves no array, and a
-- packet that it accepts has at most 512 channels.
pub sacn_receive-Gives :
    (n : ℤ) (buf : Array 638) (stats : RecvStats) (pkt : SacnPacket)
    → AtMost n 638
    → Gives (sacn_receive n buf stats pkt)
unfolding sacn_receive is_short
sacn_receive-Gives (negsuc k) buf stats pkt h = (_, _, _, refl, (λ z. absurd (cc z)))
sacn_receive-Gives (pos n) buf stats pkt h = elim (dec_lt n 126) [
  | yes short ↦ rw (lt→ltb n 126 short) (_, _, _, refl, (λ z. absurd (cc z)))
  | no long ↦ elim (IsDataPacket_dec buf n) [
    | yes g ↦
        let (pkt', run, held) = sacn_parse-Holds 638 buf n pkt h (omega arith) g in
        rw (ltb-false n 126 (omega arith), run)
          (_, _, _, refl, (λ _. omega (arith, held.dmx_length)))
    | no g ↦
        let (pkt', run) = sacn_parse_rejects 638 buf n pkt h (omega arith) g in
        rw (ltb-false n 126 (omega arith), run) (_, _, _, refl, (λ z. absurd (cc z)))
  ]
]
