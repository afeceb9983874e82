-- ===== src/Shownet.antt =====
-- src/shownet: the ShowNet receiver with its run-length decoder, from shownet.h and shownet.c.
pub mod Rle
pub mod Decode
pub mod Receive
pub mod Total
mod Tests
use sn.Base.{
  ℕ, zero, suc, ◌+◌, ◌-◌, ◌%◌, ◌^◌, Bool, true, false, ◌&&◌, Option, none, some, Array, load, store,
  memcpy, ltb, ◌==◌, if◌then◌else◌, ◌>>=◌, ℤ, pos, negsuc, success, failure,
}
use sn.Artnet.{read_u16_le}

abbrev pub off_net_slot : ℕ
off_net_slot = 6

abbrev pub off_slot_count : ℕ
off_slot_count = 8

abbrev pub off_flags : ℕ
off_flags = 14

abbrev pub off_data : ℕ
off_data = 15

abbrev pub shownet_min_packet : ℕ
shownet_min_packet = 16

pub record ShownetPacket : Type 0 where
  pub net_slot : ℕ
  pub dmx_data : Array 512
  pub dmx_length : ℕ

-- The inner loop: `while (count > 0 && out_pos < max) decoded[out_pos++] = value`.
pub fill : (m : ℕ) → ℕ → ℕ → ℕ → ℕ → Array m → Option (ℕ × Array m)
fill m zero value max out decoded = some (out, decoded)
fill m (suc count) value max out decoded = elim (ltb out max) [
  | false ↦ some (out, decoded)
  | true ↦ do decoded' ← store m decoded out value; fill m count value max (out + 1) decoded'
]

-- The outer loop on the bytes at `base` of a buffer of n, from `in`. Running out of fuel is `none`.
pub decode_loop :
    (n : ℕ) → Array n → ℕ → ℕ → (m : ℕ) → ℕ → ℕ → ℕ → ℕ → Array m → Option (ℕ × Array m)
unfolding fill
decode_loop n encoded base len m max zero at out decoded = none
decode_loop n encoded base len m max (suc fuel) at out decoded = elim (ltb at len && ltb out max) [
  | false ↦ some (out, decoded)
  | true ↦ do
    b ← load n encoded (base + at)
    elim (b == 0x80 && ltb (at + 1 + 1) len) [
      | true ↦ do
        count ← load n encoded (base + (at + 1))
        value ← load n encoded (base + (at + 2))
        (out', decoded') ← fill m count value max out decoded
        decode_loop n encoded base len m max fuel (at + 3) out' decoded'
      | false ↦ do
        decoded' ← store m decoded out b
        decode_loop n encoded base len m max fuel (at + 1) (out + 1) decoded'
    ]
]

-- `shownet_decode_rle(encoded + base, len, decoded, max)`. Each round reads a byte at least.
unfoldable pub shownet_decode_rle :
    (n : ℕ) → Array n → ℕ → ℕ → (m : ℕ) → Array m → ℕ → Option (ℕ × Array m)
unfolding decode_loop
shownet_decode_rle n encoded base len m decoded max =
    decode_loop n encoded base len m max (suc len) 0 0 decoded

-- The length of an uncompressed packet's data.
unfoldable pub clamp_data_len : ℕ → ℕ → ℕ
clamp_data_len data_len slot_count =
    let len = if ltb 512 data_len then 512 else data_len in
    if ltb slot_count (len % 2 ^ 16) then slot_count else len

-- `shownet_receive`, given what `recv` returned and the buffer.
unfoldable pub shownet_receive : ℤ → Array 1500 → ShownetPacket → Option (ℤ × ShownetPacket)
shownet_receive (negsuc _) buf pkt = some (failure, pkt)
shownet_receive (pos n) buf pkt = if ltb n shownet_min_packet then some (failure, pkt) else do
  net_slot ← read_u16_le 1500 buf off_net_slot
  slot_count ← read_u16_le 1500 buf off_slot_count
  flags ← load 1500 buf off_flags
  let data_len = n - off_data
  if flags % 2 == 1
      then (do
        (length, decoded) ← shownet_decode_rle 1500 buf off_data data_len 512 pkt.dmx_data 512
        some (success, record pkt { net_slot = net_slot; dmx_data = decoded; dmx_length = length }))
      else do
        let copy_len = clamp_data_len data_len slot_count
        data' ← memcpy 512 pkt.dmx_data 0 1500 buf off_data copy_len
        some (success, record pkt { net_slot = net_slot; dmx_data = data'; dmx_length = copy_len })
