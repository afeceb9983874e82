-- ===== src/Gateway/Tests.antt =====
-- The theorems on the gateway at concrete states, packets and answers of the system.
use sn.Base.{
  ◌≤◌, ◌++◌, List, Option, ℕ, ◌+◌, ◌^◌, ◌<◌, ◌≡◌, ◌≢◌, inr, refl, true, false, some, [], ◌∷◌, Array,
  get_or, codes, arith, pos, negsuc, Agree, is_negative, failure,
}
use sn.Common.{Port, port0, port1, set_port, NodeConfig, zero_frame, proto_sacn}
use sn.Sacn.{SacnPacket}
use sn.Sacn.Rx.{RecvStats}
use sn.Artnet.{ArtnetDmxPacket}
use sn.Shownet.{ShownetPacket}
use sn.Gateway.Sockets.{open_protocol, shutdown, open_after}
use sn.Gateway.Sockets.Closes.{device, transmitter, open_after-shutdown}
use sn.Gateway.{Env, Gateway, reading, sub32}
use sn.Gateway.Handlers.{
  handle_sacn_packet, handle_artnet_packet, handle_shownet_packet, signal_handler,
}
use sn.Gateway.Handlers.Effect.{SameSetup}
use sn.Gateway.Handlers.Merge.{SacnOutcome, merged, handle_sacn_packet-SacnOutcome}
use sn.Gateway.Handlers.Direct.{
  DirectOutcome, artnet_merge, shownet_merge, handle_artnet_packet-DirectOutcome,
  handle_shownet_packet-DirectOutcome,
}
use sn.Gateway.Output.{output_body}
use sn.Gateway.Output.Cycle.{
  IsSilent, transmission, blacked_out, output_body_once, output_body_blacks_out,
}
use sn.Gateway.Output.Forward.{IsOverlay, output_body-handle_sacn_packet}
use sn.Gateway.Output.Wrap.{output_body_loses}
use sn.Gateway.Input.{input_body}
use sn.Gateway.Input.Send.{SendsOne, Restarts}
use sn.Gateway.Input.Cycle.{IsReceiving, IsRepeat, IsDue, input_body_forwards, input_body_repeats}
use sn.Gateway.Input.Sequence.{input_body_resends, input_body_drops}
use sn.Gateway.Loop.{Sockets, Arrivals, Daemon, Fits, Runs, here, signalled, iteration}
use sn.Gateway.Loop.Start.{load_config, Devices, initial, start}
use sn.Gateway.Loop.Life.{load_config-Runs, start-Runs-iteration, signal_handler-Runs}

-- The first port transmits universe 1, the second receives for universe 2.
abbrev config : NodeConfig
config = record {
  hostname = codes "SN110";
  ip_addr = 0;
  netmask = 0;
  gateway = 0;
  mac = λ _. 0;
  ports =
      set_port (λ _. record { mode = 2; protocol = 1; universe = 2; label = codes "in" }) port0
        (record { mode = 1; protocol = 1; universe = 1; label = codes "out" });
  active_protocol = proto_sacn;
  dmx_hold_time = 2;
  addr_mode = 0;
  lcd_contrast = 50;
  lcd_backlight = 1;
  dmx_slot_monitor = λ _. 1;
}

abbrev levels : Array 512
levels i = get_or (255 ∷ 128 ∷ 64 ∷ []) i 0

-- The clock stands at 5 seconds, every device opens, three channels are read, every send works.
abbrev env : Env
env = record {
  gettimeofday = λ _. (5, 0);
  open_device = λ k. pos (3 + k);
  read_frame = λ _. (pos 3, levels);
  sendto = λ _. pos 129;
  stack = λ _ _. 9;
}

-- As `env`, with nothing to read.
abbrev quiet : Env
quiet = record env { read_frame = λ _. (negsuc 10, levels) }

abbrev opened_state : Gateway
opened_state = record (initial config) { fds = λ _. pos 7; sacn_tx_active = λ _. true }

-- A frame came at 4 s, and was not written yet.
abbrev fresh_state : Gateway
fresh_state = record opened_state {
  dmx_out = λ _. record zero_frame {
    channels = levels;
    length = 512;
    priority = 150;
    last_update_ms = 4000;
  };
}

-- The frame was written.
abbrev written_state : Gateway
written_state = record fresh_state { last_write = λ _. 4000 }

abbrev sacn_pkt : SacnPacket
sacn_pkt = record {
  cid = λ i. i;
  source_name = λ _. 0;
  priority = 100;
  sequence = 7;
  universe = 1;
  options = 0;
  start_code = 0;
  dmx_data = levels;
  dmx_length = 3;
}

abbrev artnet_pkt : ArtnetDmxPacket
artnet_pkt = record { sequence = 8; physical = 0; universe = 1; dmx_data = levels; dmx_length = 3 }

abbrev shownet_pkt : ShownetPacket
shownet_pkt = record { net_slot = 513; dmx_data = levels; dmx_length = 3 }

handle_sacn_packet-SacnOutcome_example :
    (g' : Gateway) × (handle_sacn_packet env sacn_pkt fresh_state ≡ some g')
    × SameSetup fresh_state g'
    × ((p : Port) → SacnOutcome env sacn_pkt config p (fresh_state.dmx_out p) (g'.dmx_out p))
handle_sacn_packet-SacnOutcome_example =
    handle_sacn_packet-SacnOutcome env sacn_pkt fresh_state refl (omega arith)

handle_artnet_packet-DirectOutcome_example :
    (g' : Gateway) × (handle_artnet_packet env artnet_pkt fresh_state ≡ some g')
    × SameSetup fresh_state g'
    × ((p : Port)
        → DirectOutcome env 1
            (artnet_merge artnet_pkt)
            config
            p
            (fresh_state.dmx_out p)
            (g'.dmx_out p))
handle_artnet_packet-DirectOutcome_example =
    handle_artnet_packet-DirectOutcome env artnet_pkt fresh_state (omega arith)

handle_shownet_packet-DirectOutcome_example :
    (g' : Gateway) × (handle_shownet_packet env shownet_pkt fresh_state ≡ some g')
    × SameSetup fresh_state g'
    × ((p : Port)
        → DirectOutcome env 1
            (shownet_merge shownet_pkt)
            config
            p
            (fresh_state.dmx_out p)
            (g'.dmx_out p))
handle_shownet_packet-DirectOutcome_example =
    handle_shownet_packet-DirectOutcome env shownet_pkt fresh_state (omega arith)

output_body_once_example :
    output_body env 5500 port0 (output_body env 5000 port0 fresh_state)
    ≡ output_body env 5000 port0 fresh_state
output_body_once_example =
    output_body_once env 5000 5500 port0 fresh_state (refl, refl) (omega arith)
      (λ (_, late). absurd (omega (arith, late)))

output_body_blacks_out_example :
    ((output_body env 7000 port0 written_state).dmx_out port0
      ≡ blacked_out (written_state.dmx_out port0))
    × ((q : Port)
        → q ≢ port0
        → (output_body env 7000 port0 written_state).dmx_out q ≡ written_state.dmx_out q)
    × (is_negative (env.open_device 0) ≡ false
        → (output_body env 7000 port0 written_state).events
          ≡ transmission env port0 (λ _. 0) written_state)
    × ((t' : ℕ)
        → output_body env t' port0 (output_body env 7000 port0 written_state)
          ≡ output_body env 7000 port0 written_state)
output_body_blacks_out_example =
    output_body_blacks_out env 7000 port0 written_state (refl, refl)
      (λ h. absurd (omega (arith, h))) (omega arith)

-- The last write was shortly before the clock wrapped.
abbrev before_wrap : Gateway
before_wrap = record opened_state { last_write = λ _. 4294967000 }

output_body_loses_example :
    (g' : Gateway) × (handle_sacn_packet env sacn_pkt before_wrap ≡ some g')
    × ((k : ℕ) × (g'.dmx_out port0 ≡ merged sacn_pkt zero_frame (reading env k)))
    × ((t : ℕ) → ¬ IsSilent t port0 g' → output_body env t port0 g' ≡ g')
output_body_loses_example =
    output_body_loses env sacn_pkt port0 before_wrap refl (omega arith) (refl, refl) (omega arith)
      (λ k. unfold reading in omega arith)

-- The packet came at 5 s.
output_body-handle_sacn_packet_example :
    (g' : Gateway) × (handle_sacn_packet env sacn_pkt opened_state ≡ some g')
    × ((frame : Array 512) × IsOverlay (λ _. 0) levels 3 frame
        × ((output_body env 5010 port0 g').events ≡ transmission env port0 frame g'))
    × ((t' : ℕ)
        → ¬ IsSilent t' port0 g'
        → output_body env t' port0 (output_body env 5010 port0 g') ≡ output_body env 5010 port0 g')
output_body-handle_sacn_packet_example =
    output_body-handle_sacn_packet env sacn_pkt port0 opened_state 5010 refl (omega arith)
      (refl, refl) refl (omega arith) (λ k. unfold reading in omega arith) (λ k. refl)

receiving : IsReceiving port1 opened_state
receiving = record { is_open = refl; mode = refl; transmitter = refl; universe = omega arith }

input_body_forwards_example :
    (g' : Gateway) × (input_body env 5000 port1 opened_state ≡ some g')
    × IsReceiving port1 g'
    × (IsRepeat 5000 port1 3 levels opened_state
        → (g'.dmx_in ≡ opened_state.dmx_in)
          × (g'.dmx_in_last_send ≡ opened_state.dmx_in_last_send)
          × (g'.events ≡ []))
    × (¬ IsRepeat 5000 port1 3 levels opened_state
        → SendsOne (opened_state.sacn_tx port1) levels 3 sacn_pkt [] g'.events
          × Restarts env 5000 port1 opened_state g'
          × ((g'.dmx_in port1).length ≡ 3)
          × Agree (g'.dmx_in port1).channels 0 levels 0 3
          × ((g'.dmx_in port1).last_update_ms ≡ 5000)
          × ((q : Port) → q ≢ port1 → g'.dmx_in q ≡ opened_state.dmx_in q))
input_body_forwards_example =
    input_body_forwards env 5000 port1 opened_state 3 levels sacn_pkt receiving refl (omega arith)
      (omega arith)

-- A frame of three channels was sent at 4 s.
abbrev stored_state : Gateway
stored_state = record opened_state {
  dmx_in = λ _. record zero_frame { channels = levels; length = 3; last_update_ms = 4000 };
  dmx_in_last_send = λ _. 4000;
}

input_body_repeats_example :
    (g' : Gateway) × (input_body quiet 5000 port1 stored_state ≡ some g')
    × (g'.dmx_in ≡ stored_state.dmx_in)
    × (IsDue 5000 port1 stored_state
        → SendsOne (stored_state.sacn_tx port1) levels 3 sacn_pkt [] g'.events
          × Restarts quiet 5000 port1 stored_state g')
    × (¬ IsDue 5000 port1 stored_state
        → (g'.events ≡ []) × (g'.dmx_in_last_send ≡ stored_state.dmx_in_last_send))
input_body_repeats_example =
    input_body_repeats quiet 5000 port1 stored_state (negsuc 10) levels sacn_pkt
      (record { is_open = refl; mode = refl; transmitter = refl; universe = omega arith }) refl
      (inr refl) (omega arith)

-- The three channels are new at 5 s, and nothing more is read at 5.9 s.
input_body_resends_example :
    (g' : Gateway) × (input_body env 5000 port1 opened_state ≡ some g')
    × ((g'' : Gateway) × (input_body quiet 5901 port1 g' ≡ some g'')
        × (900 < sub32 5901 5000
            → SendsOne (g'.sacn_tx port1) (g'.dmx_in port1).channels 3 sacn_pkt g'.events g''.events
              × Agree (g'.dmx_in port1).channels 0 levels 0 3)
        × (sub32 5901 5000 ≤ 900 → g''.events ≡ g'.events))
input_body_resends_example =
    input_body_resends env quiet 5000 5901 port1 opened_state 3 (negsuc 10) levels levels sacn_pkt
      receiving (λ k. refl) (inr refl) refl (omega arith) (omega arith)
      (λ (same, _, _). absurd (omega (arith, same))) refl

-- The network takes nothing.
abbrev unsent : Env
unsent = record env { sendto = λ _. negsuc 0 }

-- A datagram was taken at 4.5 s; other channels come at 5 s and again at 5.3 s.
abbrev busy_state : Gateway
busy_state = record stored_state {
  dmx_in = λ _. record zero_frame { length = 3; last_update_ms = 4500 };
  dmx_in_last_send = λ _. 4500;
}

input_body_drops_example :
    (g' : Gateway) × (input_body unsent 5000 port1 busy_state ≡ some g')
    × (g'' : Gateway) × (input_body env 5300 port1 g' ≡ some g'')
    × (g''.events ≡ g'.events)
input_body_drops_example =
    input_body_drops unsent env 5000 5300 port1 busy_state 3 levels sacn_pkt
      (record { is_open = refl; mode = refl; transmitter = refl; universe = omega arith }) refl
      (λ k. refl) (omega arith) (omega arith)
      (λ (_, same, _).
        let zero : ◌≡◌ {A = ℕ} 255 0 = same 0 (omega arith) in absurd (omega (arith, zero)))
      refl (omega arith)

abbrev sockets : Sockets
sockets = record { sacn_sock = pos 3; artnet_sock = failure; shownet_sock = failure }

abbrev devices : Devices
devices = record { device = λ _. pos 5; socket = λ _. pos 6 }

abbrev no_stats : RecvStats
no_stats = record { recv_pos = 0; recv_neg = 0; recv_err = 0; parse_ok = 0; parse_fail = 0 }

config_universes : (p : Port) → (config.ports p).universe < 2 ^ 16
config_universes port0 = omega arith
config_universes port1 = omega arith

start-Runs-iteration_example :
    (g : Gateway) × (start config devices ≡ some g)
    × ((d : Daemon)
        → Runs env sockets (record { gateway = g; stats = no_stats; replies = [] }) d
        → (a : Arrivals) → Fits a
        → (d' : Daemon) × (iteration env sockets a d ≡ some d'))
start-Runs-iteration_example =
    start-Runs-iteration env sockets config devices no_stats config_universes (λ k. omega arith)

abbrev file : Option (List ℕ)
file = some (codes "dmx_port1_mode = rx")

load_config-Runs_example :
    (g : Gateway) × (start (load_config file) devices ≡ some g)
    × ((d : Daemon)
        → Runs env sockets (record { gateway = g; stats = no_stats; replies = [] }) d
        → (a : Arrivals) → Fits a
        → (d' : Daemon) × (iteration env sockets a d ≡ some d'))
load_config-Runs_example = load_config-Runs env sockets file devices no_stats (λ k. omega arith)

abbrev daemon : Daemon
daemon = record { gateway = opened_state; stats = no_stats; replies = [] }

signal_handler-Runs_example :
    record daemon { gateway = signal_handler 2 (signal_handler 15 opened_state) }
    ≡ record daemon { gateway = signal_handler 15 opened_state }
signal_handler-Runs_example =
    signal_handler-Runs env sockets daemon
      (record daemon { gateway = signal_handler 2 (signal_handler 15 opened_state) })
      (signalled 2 (here _))

-- Both devices are open, and the receiving port has a transmitter.
abbrev held_state : Gateway
held_state = record opened_state {
  fds = set_port (λ _. pos 4) port1 (pos 5);
  sacn_tx_active = set_port (λ _. false) port1 true;
  sacn_tx = λ p. record (opened_state.sacn_tx p) { sock_fd = pos 6 };
}

open_after-shutdown_example :
    open_after
      ((open_protocol (pos 7) true config).1
        ++ shutdown (open_protocol (pos 7) true config).0 held_state)
      (pos 4 ∷ pos 5 ∷ pos 6 ∷ [])
    ≡ []
open_after-shutdown_example =
    open_after-shutdown (pos 7) true config held_state (pos 4 ∷ pos 5 ∷ pos 6 ∷ [])
      (device port0 refl refl, (device port1 refl refl, (transmitter port1 refl refl refl, tt)))
