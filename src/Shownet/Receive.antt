-- ===== src/Shownet/Receive.antt =====
-- What `shownet_receive` does with every datagram.
use Prim.Native.Nat.{min}
use sn.Base.{
  true, false, ℕ, ◌+◌, ◌-◌, ◌*◌, ◌%◌, ◌≤◌, ◌≡◌, refl, sym, ◌∙◌, some, List, Array, pos, success,
  arith, ltb-false, copied, Bool-cases, inl, inr, slice, slice-eq, take, take-slice, memcpy_within,
  ◌==◌, if◌then◌else◌,
}
use sn.Artnet.{read_u16_le}
use sn.Shownet.{ShownetPacket, shownet_receive, clamp_data_len}
use sn.Shownet.Rle.{rle}
use sn.Shownet.Decode.{shownet_decode_rle-rle}

abbrev pub slot_count : (ℕ → ℕ) → ℕ
slot_count buf = buf 8 + buf 9 * 256

-- The channels that a datagram of n bytes stands for, at most 512.
pub channels : (ℕ → ℕ) → ℕ → List ℕ
channels buf n =
    let bytes = slice buf 15 (n - 15) in
    if buf 14 % 2 == 1 then take 512 (rle bytes) else take (min 512 (slot_count buf)) bytes

clamp_data_len-min : (d s : ℕ) → d ≤ 1485 → clamp_data_len d s ≡ min d (min 512 s)
unfolding clamp_data_len
clamp_data_len-min d s h = ground arith

module _ (buf : Array 1500) (n : ℕ) (pkt : ShownetPacket) (long : 16 ≤ n) (fits : n ≤ 1500) where
  Gives : Type 0
  Gives =
      (pkt' : ShownetPacket) × (shownet_receive (pos n) buf pkt ≡ some (success, pkt'))
      × (pkt'.net_slot ≡ buf 6 + buf 7 * 256)
      × (pkt'.dmx_length ≤ 512)
      × (slice pkt'.dmx_data 0 pkt'.dmx_length ≡ channels buf n)

  receives_rle : (buf 14 % 2 == 1) ≡ true → Gives
  unfolding Gives shownet_receive read_u16_le channels
  receives_rle e =
      let (out, dec, runs, le, eq) =
        shownet_decode_rle-rle 1500 buf 15 (n - 15) 512 pkt.dmx_data 512 (omega arith)
          (omega arith) in
      rw (ltb-false n 16 long, e, runs) (_, refl, refl, le, eq)

  receives_raw : (buf 14 % 2 == 1) ≡ false → Gives
  unfolding Gives shownet_receive read_u16_le channels
  receives_raw e =
      let len = min (n - 15) (min 512 (slot_count buf)) in
      rw
        (
          ltb-false n 16 long,
          e,
          clamp_data_len-min (n - 15) (slot_count buf) (omega arith),
          memcpy_within 512 pkt.dmx_data 0 1500 buf 15 len (omega arith) (omega arith),
        )
        (
          _,
          refl,
          refl,
          omega arith,
          (slice-eq (copied pkt.dmx_data 0 buf 15 len) buf 0 15 len (λ k lt. ground arith)
              ∙ sym (take-slice (min 512 (slot_count buf)) buf 15 (n - 15))),
        )

-- A datagram of 16 to 1500 bytes is accepted: the packet has the datagram's slot number, and its
-- channels are those that the datagram stands for, run-length decoded if its flag says so, cut at
-- 512 channels, and in a plain datagram at the slot count.
pub shownet_receive-channels :
    (buf : Array 1500) (n : ℕ) (pkt : ShownetPacket)
    → 16 ≤ n
    → n ≤ 1500
    → (pkt' : ShownetPacket) × (shownet_receive (pos n) buf pkt ≡ some (success, pkt'))
      × (pkt'.net_slot ≡ buf 6 + buf 7 * 256)
      × (pkt'.dmx_length ≤ 512)
      × (slice pkt'.dmx_data 0 pkt'.dmx_length ≡ channels buf n)
unfolding Gives
shownet_receive-channels buf n pkt long fits = elim (Bool-cases (buf 14 % 2 == 1)) [
  | inl e ↦ receives_rle buf n pkt long fits e
  | inr e ↦ receives_raw buf n pkt long fits e
]
