-- ===== src/Gateway/Output/Wrap.antt =====
-- The output cycle compares readings of a 32-bit millisecond clock, which starts again at 0 every
-- 2 ^ 32 ms, by `>`.
use sn.Base.{ℕ, ◌≤◌, ◌≡◌, some}
use sn.Common.{Port}
use sn.Sacn.{SacnPacket}
use sn.Gateway.{Env, Gateway, reading}
use sn.Gateway.Handlers.{handle_sacn_packet}
use sn.Gateway.Handlers.Effect.{Listens}
use sn.Gateway.Handlers.Merge.{merged, taken_frame, handle_sacn_packet-SacnOutcome}
use sn.Gateway.Output.{output_body}
use sn.Gateway.Output.Cycle.{IsSilent, idles, not_silent}

-- After the clock has wrapped, a frame is lost: where every reading is at most the time of the
-- port's last write, a packet with start code 0 and at most 512 channels that a port takes over is
-- not written by the output body, at any time at which its source is not silent.
pub output_body_loses :
    (e : Env) (pkt : SacnPacket) (p : Port) (g : Gateway)
    → pkt.start_code ≡ 0
    → pkt.dmx_length ≤ 512
    → Listens g.config p pkt.universe
    → (g.dmx_out p).priority ≤ pkt.priority
    → ((k : ℕ) → reading e k ≤ g.last_write p)
    → (g' : Gateway) × (handle_sacn_packet e pkt g ≡ some g')
      × ((k : ℕ) × (g'.dmx_out p ≡ merged pkt (g.dmx_out p) (reading e k)))
      × ((t : ℕ) → ¬ IsSilent t p g' → output_body e t p g' ≡ g')
output_body_loses e pkt p g h fits l le late =
    let (g', runs, setup, rule) = handle_sacn_packet-SacnOutcome e pkt g h fits in
    let (k, eq) = taken_frame e pkt g.config p (g.dmx_out p) (g'.dmx_out p) (rule p) l le in
    (
      g',
      runs,
      (k, eq),
      λ t s. idles e t p g' (rw (eq, setup.last_write) (late k)) (not_silent t p g' s),
    )
