-- ===== src/Gateway/Handlers/Merge.antt =====
-- What the handlers do to the output frames.
use sn.Base.{true, ℕ, ◌+◌, ◌≤◌, ◌<◌, ◌≡◌, ◌⊎◌, inl, inr, refl, not, some, ltb, leb, ◌==◌, arith}
use sn.Gateway.Keeps.{KeepsInput-same}
use sn.Gateway.Handlers.Effect.{
  SameSetup, overlaid, Effect, Effect-keep, Effect-put, Effect-if, for_ports-Effect, fits-memcpy,
  Listens,
}
use sn.Common.{Port, DmxFrame, NodeConfig, dmx_mode_tx}
use sn.Sacn.{SacnPacket, sacn_timeout_ms}
use sn.Gateway.{Env, Gateway, reading, sub32, inc32}
use sn.Gateway.Handlers.{sacn_body, handle_sacn_packet}

-- The frame that takes over a sACN packet at time `now`.
abbrev pub merged : SacnPacket → DmxFrame → ℕ → DmxFrame
merged pkt out now = record (overlaid out pkt.dmx_data pkt.dmx_length) {
  priority = pkt.priority;
  sequence = pkt.sequence;
  last_update_ms = now;
}

-- The clock says that the frame is more than 2500 ms old, or that it is not.
abbrev pub IsStale : Env → ℕ → DmxFrame → Type 0
IsStale e k out = 2500 < sub32 (reading e k) out.last_update_ms

-- What a sACN packet does to the frame of a port, at some readings of the clock.
pub data SacnOutcome (e : Env) (pkt : SacnPacket) (c : NodeConfig) (p : Port) (old new : DmxFrame)
    : Type 0 where
  taken :
      (j k : ℕ)
      → Listens c p pkt.universe
      → (old.priority ≤ pkt.priority) ⊎ IsStale e j old
      → new ≡ merged pkt old (reading e k)
      → SacnOutcome e pkt c p old new
  outranked :
      (j : ℕ)
      → Listens c p pkt.universe
      → pkt.priority < old.priority
      → ¬ IsStale e j old
      → new ≡ old
      → SacnOutcome e pkt c p old new
  not_for_port : ¬ Listens c p pkt.universe → new ≡ old → SacnOutcome e pkt c p old new

sacn_body-Effect :
    (e : Env) (pkt : SacnPacket) (p : Port) (g : Gateway)
    → pkt.dmx_length ≤ 512
    → Effect (SacnOutcome e pkt) p g (sacn_body e pkt p g)
unfolding sacn_body
sacn_body-Effect e pkt p g fits =
    let R = SacnOutcome e pkt in
    let out = g.dmx_out p in
    let now = reading e g.clock_calls in
    rw (fits-memcpy out pkt.dmx_data pkt.dmx_length fits) (
      Effect-if R p g (not ((g.config.ports p).universe == pkt.universe)) _ _
        (λ u. Effect-keep R p g g.clock_calls (not_for_port (λ l. ground arith) refl))
        λ u.
          Effect-if R p g (not ((g.config.ports p).mode == dmx_mode_tx)) _ _
            (λ m. Effect-keep R p g g.clock_calls (not_for_port (λ l. ground arith) refl))
            λ m.
              Effect-if R p g (leb out.priority pkt.priority) _ _
                (λ h.
                  Effect-put R p g (merged pkt out now) (g.clock_calls + 1)
                    (taken 0 g.clock_calls (ground arith) (inl (ground arith)) refl))
                λ h.
                  Effect-if R p g (ltb sacn_timeout_ms (sub32 now out.last_update_ms)) _ _
                    (λ s.
                      Effect-put R p g (merged pkt out (reading e (g.clock_calls + 1)))
                        (g.clock_calls + 1 + 1)
                        (taken g.clock_calls (g.clock_calls + 1) (ground arith) (inr (ground arith))
                          refl))
                    λ s.
                      Effect-keep R p g (g.clock_calls + 1)
                        (outranked g.clock_calls (ground arith) (ground arith) (ground arith) refl))

-- A packet with start code 0 and at most 512 channels is handled with no fault, and keeps the
-- configuration, the descriptors and the write times. A port that listens to its universe takes its
-- channels, priority and sequence number, with a reading of the clock for its time, if the packet's
-- priority is not lower or the old frame is more than 2500 ms old; every other frame stays as it
-- was.
pub handle_sacn_packet-SacnOutcome :
    (e : Env) (pkt : SacnPacket) (g : Gateway)
    → pkt.start_code ≡ 0
    → pkt.dmx_length ≤ 512
    → (g' : Gateway) × (handle_sacn_packet e pkt g ≡ some g')
      × SameSetup g g'
      × ((p : Port) → SacnOutcome e pkt g.config p (g.dmx_out p) (g'.dmx_out p))
unfolding handle_sacn_packet
handle_sacn_packet-SacnOutcome e pkt g h fits =
    let start : (pkt.start_code == 0) ≡ true = ground arith in
    let counted = record g { sacn_rx_count = inc32 g.sacn_rx_count } in
    let (g', runs, setup, rule) =
      for_ports-Effect (SacnOutcome e pkt) (sacn_body e pkt)
        (λ p g. sacn_body-Effect e pkt p g fits) counted in
    let setup' : SameSetup g g' = record {
      config = setup.config;
      fds = setup.fds;
      last_write = setup.last_write;
      input = KeepsInput-same setup.input.dmx_in setup.input.sacn_tx setup.input.running;
    } in
    (g', (rw start runs), setup', rule)

-- A frame that a packet of sufficient priority replaced.
pub taken_frame :
    (e : Env) (pkt : SacnPacket) (c : NodeConfig) (p : Port) (old new : DmxFrame)
    → SacnOutcome e pkt c p old new
    → Listens c p pkt.universe
    → old.priority ≤ pkt.priority
    → (k : ℕ) × (new ≡ merged pkt old (reading e k))
taken_frame e pkt c p old new (taken j k l w eq) h le = (k, eq)
taken_frame e pkt c p old new (outranked j l lt st eq) h le = absurd (omega arith)
taken_frame e pkt c p old new (not_for_port l eq) h le = absurd (l h)
