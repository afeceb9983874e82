-- ===== src/Gateway/Handlers/Direct.antt =====
-- The Art-Net and ShowNet handlers, which know no priority.
use sn.Base.{ℕ, ◌+◌, ◌-◌, ◌/◌, ◌≤◌, ◌≡◌, refl, not, some, ◌==◌, arith}
use sn.Gateway.Handlers.Effect.{
  SameSetup, overlaid, Effect, Effect-keep, Effect-put, Effect-if, for_ports-Effect, fits-memcpy,
  Listens,
}
use sn.Common.{Port, DmxFrame, NodeConfig, dmx_mode_tx}
use sn.Artnet.{ArtnetDmxPacket}
use sn.Shownet.{ShownetPacket}
use sn.Gateway.{Env, Gateway, reading}
use sn.Gateway.Handlers.{
  artnet_body, handle_artnet_packet, shownet_body, shownet_universe, handle_shownet_packet,
}

-- A packet for a universe goes to every port that listens to it, and nowhere else; `merge` is the
-- frame at a time.
pub data DirectOutcome (e : Env) (universe : ℕ) (merge : DmxFrame → ℕ → DmxFrame) (c : NodeConfig)
    (p : Port) (old new : DmxFrame) : Type 0 where
  taken :
      (k : ℕ)
      → Listens c p universe
      → new ≡ merge old (reading e k)
      → DirectOutcome e universe merge c p old new
  not_for_port : ¬ Listens c p universe → new ≡ old → DirectOutcome e universe merge c p old new

abbrev pub artnet_merge : ArtnetDmxPacket → DmxFrame → ℕ → DmxFrame
artnet_merge pkt out now = record (overlaid out pkt.dmx_data pkt.dmx_length) {
  sequence = pkt.sequence;
  last_update_ms = now;
}

abbrev pub shownet_merge : ShownetPacket → DmxFrame → ℕ → DmxFrame
shownet_merge pkt out now = record (overlaid out pkt.dmx_data pkt.dmx_length) {
  last_update_ms = now;
}

artnet_body-Effect :
    (e : Env) (pkt : ArtnetDmxPacket) (p : Port) (g : Gateway)
    → pkt.dmx_length ≤ 512
    → Effect (DirectOutcome e pkt.universe (artnet_merge pkt)) p g (artnet_body e pkt p g)
unfolding artnet_body
artnet_body-Effect e pkt p g fits =
    let R = DirectOutcome e pkt.universe (artnet_merge pkt) in
    let now = reading e g.clock_calls in
    rw (fits-memcpy (g.dmx_out p) pkt.dmx_data pkt.dmx_length fits) (
      Effect-if R p g (not ((g.config.ports p).universe == pkt.universe)) _ _
        (λ u. Effect-keep R p g g.clock_calls (not_for_port (λ l. ground arith) refl))
        λ u.
          Effect-if R p g (not ((g.config.ports p).mode == dmx_mode_tx)) _ _
            (λ m. Effect-keep R p g g.clock_calls (not_for_port (λ l. ground arith) refl))
            λ m.
              Effect-put R p g (artnet_merge pkt (g.dmx_out p) now) (g.clock_calls + 1)
                (taken g.clock_calls (ground arith) refl))

shownet_body-Effect :
    (e : Env) (pkt : ShownetPacket) (p : Port) (g : Gateway)
    → pkt.dmx_length ≤ 512
    → Effect
        (DirectOutcome e (shownet_universe pkt) (shownet_merge pkt))
        p
        g
        (shownet_body e pkt p g)
unfolding shownet_body
shownet_body-Effect e pkt p g fits =
    let R = DirectOutcome e (shownet_universe pkt) (shownet_merge pkt) in
    let now = reading e g.clock_calls in
    rw (fits-memcpy (g.dmx_out p) pkt.dmx_data pkt.dmx_length fits) (
      Effect-if R p g (not ((g.config.ports p).universe == shownet_universe pkt)) _ _
        (λ u. Effect-keep R p g g.clock_calls (not_for_port (λ l. ground arith) refl))
        λ u.
          Effect-if R p g (not ((g.config.ports p).mode == dmx_mode_tx)) _ _
            (λ m. Effect-keep R p g g.clock_calls (not_for_port (λ l. ground arith) refl))
            λ m.
              Effect-put R p g (shownet_merge pkt (g.dmx_out p) now) (g.clock_calls + 1)
                (taken g.clock_calls (ground arith) refl))

-- An Art-Net packet of at most 512 channels is handled with no fault, and keeps the
-- configuration, the descriptors and the write times: every port that listens to
-- its universe takes its channels and sequence number at a reading of the clock, whatever the
-- frame's priority, and keeps that priority; every other frame stays as it was.
pub handle_artnet_packet-DirectOutcome :
    (e : Env) (pkt : ArtnetDmxPacket) (g : Gateway)
    → pkt.dmx_length ≤ 512
    → (g' : Gateway) × (handle_artnet_packet e pkt g ≡ some g')
      × SameSetup g g'
      × ((p : Port)
          → DirectOutcome e pkt.universe (artnet_merge pkt) g.config p (g.dmx_out p) (g'.dmx_out p))
unfolding handle_artnet_packet
handle_artnet_packet-DirectOutcome e pkt g fits =
    for_ports-Effect (DirectOutcome e pkt.universe (artnet_merge pkt)) (artnet_body e pkt)
      (λ p g. artnet_body-Effect e pkt p g fits) g

-- A ShowNet packet of at most 512 channels is handled with no fault, and keeps the
-- configuration, the descriptors and the write times: every port that listens to
-- the universe of its first slot, (net_slot - 1) / 512 and 0 for slot 0, takes its channels at a reading of the
-- clock, whatever the frame's priority; every other frame stays as it was.
pub handle_shownet_packet-DirectOutcome :
    (e : Env) (pkt : ShownetPacket) (g : Gateway)
    → pkt.dmx_length ≤ 512
    → (g' : Gateway) × (handle_shownet_packet e pkt g ≡ some g')
      × SameSetup g g'
      × ((p : Port)
          → DirectOutcome e
              ((pkt.net_slot - 1) / 512)
              (shownet_merge pkt)
              g.config
              p
              (g.dmx_out p)
              (g'.dmx_out p))
unfolding handle_shownet_packet
handle_shownet_packet-DirectOutcome e pkt g fits =
    for_ports-Effect (DirectOutcome e (shownet_universe pkt) (shownet_merge pkt))
      (shownet_body e pkt) (λ p g. shownet_body-Effect e pkt p g fits) g
