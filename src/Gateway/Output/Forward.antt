-- ===== src/Gateway/Output/Forward.antt =====
-- src/main.c: what `handle_sacn_packet` and then `dmx_output_cycle` do with a packet.
use sn.Base.{false, ℕ, ◌≤◌, ◌<◌, ◌≡◌, some, copied, Array, is_negative, arith}
use sn.Common.{Port}
use sn.Sacn.{SacnPacket}
use sn.Gateway.{Env, Gateway, reading}
use sn.Gateway.Handlers.{handle_sacn_packet}
use sn.Gateway.Handlers.Merge.{taken_frame, handle_sacn_packet-SacnOutcome}
use sn.Gateway.Output.{output_body}
use sn.Gateway.Output.Cycle.{
  IsActive, IsFresh, IsSilent, transmission, fresh_step, fresh_events, output_body_once,
}

-- The channels of a packet over those of a frame.
abbrev pub IsOverlay : Array 512 → Array 512 → ℕ → Array 512 → Type 0
IsOverlay old dmx_data len new =
    ((i : ℕ) → i < len → new i ≡ dmx_data i) × ((i : ℕ) → len ≤ i → new i ≡ old i)

copied-IsOverlay :
    (old dmx_data : Array 512) (len : ℕ) → IsOverlay old dmx_data len (copied old 0 dmx_data 0 len)
copied-IsOverlay old dmx_data len = ((λ i h. ground arith), (λ i h. ground arith))

-- A packet with start code 0, at most 512 channels, the universe of an open, transmitting port and
-- no lower priority than its frame is handled with no fault; if every device opens and the clock
-- does not read less than or as at the last write of the port, the next round of the output cycle
-- opens the device of the port, writes 512 channels to it, those of the packet before those that the
-- frame had beyond them, closes the device to start the transmission and opens it again; and a later
-- round changes nothing, as long as the source is not silent.
pub output_body-handle_sacn_packet :
    (e : Env) (pkt : SacnPacket) (p : Port) (g : Gateway) (t : ℕ)
    → pkt.start_code ≡ 0
    → pkt.dmx_length ≤ 512
    → IsActive p g
    → (g.config.ports p).universe ≡ pkt.universe
    → (g.dmx_out p).priority ≤ pkt.priority
    → ((k : ℕ) → g.last_write p < reading e k)
    → ((k : ℕ) → is_negative (e.open_device k) ≡ false)
    → (g' : Gateway) × (handle_sacn_packet e pkt g ≡ some g')
      × ((frame : Array 512) × IsOverlay (g.dmx_out p).channels pkt.dmx_data pkt.dmx_length frame
          × ((output_body e t p g').events ≡ transmission e p frame g'))
      × ((t' : ℕ)
          → ¬ IsSilent t' p g'
          → output_body e t' p (output_body e t p g') ≡ output_body e t p g')
output_body-handle_sacn_packet e pkt p g t start fits active universe le late opens =
    let (g', runs, setup, rule) = handle_sacn_packet-SacnOutcome e pkt g start fits in
    let (k, eq) =
      taken_frame e pkt g.config p (g.dmx_out p) (g'.dmx_out p) (rule p) (universe, active.1) le in
    let fresh : IsFresh p g' = rw (eq, setup.last_write) (late k) in
    let active' : IsActive p g' = (rw setup.fds active.0, rw setup.config active.1) in
    (
      g',
      runs,
      (
        (g'.dmx_out p).channels,
        rw eq (copied-IsOverlay (g.dmx_out p).channels pkt.dmx_data pkt.dmx_length),
        rw (fresh_step e t p g' active' fresh) (fresh_events e p g' active' (opens g'.open_calls)),
      ),
      (λ t' s. output_body_once e t t' p g' active' fresh s),
    )
