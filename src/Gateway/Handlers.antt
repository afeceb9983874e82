-- ===== src/Gateway/Handlers.antt =====
-- src/main.c: the packet handlers and the signal handler.
pub mod Effect
pub mod Merge
pub mod Direct
use sn.Base.{
  ℕ, ◌+◌, ◌-◌, ◌/◌, Bool, false, not, Option, some, memcpy, ltb, leb, ◌==◌, if◌then◌else◌, ◌>>=◌,
}
use sn.Common.{Port, port0, port1, set_port, DmxFrame, dmx_mode_tx}
use sn.Sacn.{SacnPacket, sacn_timeout_ms, dmx_universe_size}
use sn.Artnet.{ArtnetDmxPacket}
use sn.Shownet.{ShownetPacket}
use sn.Gateway.{Env, Gateway, now_ms, sub32, inc32}

-- `for (port = 0; port < DMX_MAX_PORTS; port++)` over a body that may fault.
unfoldable pub for_ports : (Port → Gateway → Option Gateway) → Gateway → Option Gateway
for_ports body g = do g' ← body port0 g; body port1 g'

-- The assignments to `g_dmx_out[port]` in `handle_sacn_packet`.
unfoldable pub take_sacn : Env → SacnPacket → Port → Gateway → Option Gateway
unfolding now_ms
take_sacn e pkt port g = do
  let out = g.dmx_out port
  channels ← memcpy 512 out.channels 0 512 pkt.dmx_data 0 pkt.dmx_length
  let (now, g') = now_ms e g
  some (record g' {
    dmx_out = set_port g'.dmx_out port (record out {
      channels = channels;
      length = pkt.dmx_length;
      priority = pkt.priority;
      sequence = pkt.sequence;
      last_update_ms = now;
    });
  })

-- The body of the loop. The clock is read only if the priority does not decide.
unfoldable pub sacn_body : Env → SacnPacket → Port → Gateway → Option Gateway
unfolding take_sacn now_ms
sacn_body e pkt port g =
    if not ((g.config.ports port).universe == pkt.universe)
    then some g
    else if not ((g.config.ports port).mode == dmx_mode_tx)
    then some g
    else if leb (g.dmx_out port).priority pkt.priority
    then take_sacn e pkt port g
    else let (now, g') = now_ms e g in
      if ltb sacn_timeout_ms (sub32 now (g.dmx_out port).last_update_ms)
      then take_sacn e pkt port g'
      else some g'

unfoldable pub handle_sacn_packet : Env → SacnPacket → Gateway → Option Gateway
unfolding sacn_body for_ports
handle_sacn_packet e pkt g =
    if not (pkt.start_code == 0)
    then some g
    else for_ports (sacn_body e pkt) (record g { sacn_rx_count = inc32 g.sacn_rx_count })

unfoldable pub artnet_body : Env → ArtnetDmxPacket → Port → Gateway → Option Gateway
unfolding now_ms
artnet_body e pkt port g =
    if not ((g.config.ports port).universe == pkt.universe)
    then some g
    else if not ((g.config.ports port).mode == dmx_mode_tx)
    then some g
    else do
      let out = g.dmx_out port
      channels ← memcpy 512 out.channels 0 512 pkt.dmx_data 0 pkt.dmx_length
      let (now, g') = now_ms e g
      some (record g' {
        dmx_out = set_port g'.dmx_out port (record out {
          channels = channels;
          length = pkt.dmx_length;
          sequence = pkt.sequence;
          last_update_ms = now;
        });
      })

unfoldable pub handle_artnet_packet : Env → ArtnetDmxPacket → Gateway → Option Gateway
unfolding artnet_body for_ports
handle_artnet_packet e pkt g = for_ports (artnet_body e pkt) g

-- `(net_slot - 1) / 512` in int: 0 for slot 0 too, where C rounds -1 / 512 towards 0.
abbrev pub shownet_universe : ShownetPacket → ℕ
shownet_universe pkt = (pkt.net_slot - 1) / dmx_universe_size

unfoldable pub shownet_body : Env → ShownetPacket → Port → Gateway → Option Gateway
unfolding now_ms
shownet_body e pkt port g =
    if not ((g.config.ports port).universe == shownet_universe pkt)
    then some g
    else if not ((g.config.ports port).mode == dmx_mode_tx)
    then some g
    else do
      let out = g.dmx_out port
      channels ← memcpy 512 out.channels 0 512 pkt.dmx_data 0 pkt.dmx_length
      let (now, g') = now_ms e g
      some (record g' {
        dmx_out =
            set_port g'.dmx_out port
              (record out { channels = channels; length = pkt.dmx_length; last_update_ms = now });
      })

unfoldable pub handle_shownet_packet : Env → ShownetPacket → Gateway → Option Gateway
unfolding shownet_body for_ports
handle_shownet_packet e pkt g = for_ports (shownet_body e pkt) g

-- `signal_handler`: SIGTERM is 15.
unfoldable pub signal_handler : ℕ → Gateway → Gateway
signal_handler sig g = if sig == 15 then record g { running = false } else g
