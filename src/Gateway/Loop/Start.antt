-- ===== src/Gateway/Loop/Start.antt =====
-- src/main.c: the state of `main` when the event loop begins.
use sn.Base.{
  ℕ, ◌==◌, true, false, Option, some, List, [], codes, ◌>>=◌, if◌then◌else◌, ℤ, pos, failure,
  is_negative, is_zero, not,
}
use sn.Common.{Port, port0, port1, set_port, NodeConfig, zero_frame, dmx_mode_off, dmx_mode_rx}
use sn.Config.{config_load, config_defaults}
use sn.Sacn.Tx.{SacnTx, sacn_tx_init}
use sn.Gateway.{Gateway}
use sn.Gateway.Handlers.{for_ports}

-- The configuration that `main` runs with, from the contents of the file.
unfoldable pub load_config : Option (List ℕ) → NodeConfig
load_config s = let (rc, c) = config_load s in if is_negative rc then config_defaults else c

-- What `ops->open` and the `socket` of `sacn_tx_init` return for each port.
pub record Devices : Type 0 where
  pub device : Port → ℤ
  pub socket : Port → ℤ

abbrev zero_tx : SacnTx
zero_tx = record {
  sock_fd = pos 0;
  sequence = 0;
  universe = 0;
  cid = λ _. 0;
  source_name = λ _. 0;
  priority = 0;
}

-- The static variables and the arrays of `main`, zeroed; `dmx_fds` is set for every port below.
abbrev pub initial : NodeConfig → Gateway
initial config = record {
  config = config;
  dmx_out = λ _. zero_frame;
  dmx_in = λ _. zero_frame;
  sacn_tx = λ _. zero_tx;
  sacn_tx_active = λ _. false;
  dmx_in_last_send = λ _. 0;
  running = true;
  sacn_rx_count = 0;
  dmx_tx_count = 0;
  dmx_in_zero_count = 0;
  sacn_tx_count = 0;
  dmx_in_last_read = pos 0;
  fds = λ _. failure;
  last_write = λ _. 0;
  clock_calls = 0;
  open_calls = 0;
  read_calls = 0;
  send_calls = 0;
  events = [];
}

-- `snprintf(src_name, sizeof(src_name), "SN110 Port %d", i)`
abbrev pub src_name : Port → List ℕ
src_name port0 = codes "SN110 Port 0"
src_name port1 = codes "SN110 Port 1"

-- The transmitter of a receiving port.
unfoldable pub start_tx : Devices → Port → Gateway → Option Gateway
start_tx o port g = do
  (rc, tx) ← sacn_tx_init (o.socket port) (g.config.ports port).universe (src_name port)
  let g' = record g { sacn_tx = set_port g.sacn_tx port tx }
  some (
      if is_zero rc
      then record g' { sacn_tx_active = set_port g'.sacn_tx_active port true }
      else g')

-- The body of the loop that opens the ports; the result of `set_mode` is only logged.
unfoldable pub start_port : Devices → Port → Gateway → Option Gateway
unfolding start_tx
start_port o port g =
    if (g.config.ports port).mode == dmx_mode_off
    then some (record g { fds = set_port g.fds port failure })
    else let g' = record g { fds = set_port g.fds port (o.device port) } in
      if is_negative (o.device port)
      then some g'
      else if not ((g.config.ports port).mode == dmx_mode_rx)
      then some g'
      else start_tx o port g'

unfoldable pub start : NodeConfig → Devices → Option Gateway
unfolding start_port for_ports
start config o = for_ports (start_port o) (initial config)
