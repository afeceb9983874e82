-- ===== src/Gateway.antt =====
-- src/main.c: the state of the daemon and the calls that it makes of the system. What the system
-- answers is an `Env`: the k-th answer of each call. The state counts the calls, and lists what was
-- written to the devices and the network, the newest first.
pub mod Keeps
pub mod Handlers
pub mod Output
pub mod Input
pub mod Loop
pub mod Sockets
mod Tests
use sn.Base.{ℕ, ◌+◌, ◌-◌, ◌*◌, ◌/◌, ◌%◌, ◌^◌, Bool, List, ◌∷◌, Array, ℤ}
use sn.Common.{Port, DmxFrame, NodeConfig}
use sn.Sacn.Tx.{SacnTx, Datagram}

pub record Env : Type 0 where
  -- The seconds and the microseconds of `gettimeofday`.
  pub gettimeofday : ℕ → ℕ × ℕ
  -- The descriptor or the error of `open`.
  pub open_device : ℕ → ℤ
  -- The byte count of `ops->read_frame`, and the frame buffer behind it.
  pub read_frame : ℕ → ℤ × Array 512
  -- The byte count or the error of `sendto`.
  pub sendto : ℕ → ℤ
  -- What a packet buffer on the stack holds at first.
  pub stack : ℕ → Array 638

pub data Event : Type 0 where
  closed : ℤ → Event
  opened : Port → ℤ → Event
  wrote : ℤ → Array 512 → ℕ → Event
  sent : Datagram → Event

pub record Gateway : Type 0 where
  pub config : NodeConfig
  pub dmx_out : Port → DmxFrame
  pub dmx_in : Port → DmxFrame
  pub sacn_tx : Port → SacnTx
  pub sacn_tx_active : Port → Bool
  pub dmx_in_last_send : Port → ℕ
  pub running : Bool
  pub sacn_rx_count : ℕ
  pub dmx_tx_count : ℕ
  pub dmx_in_zero_count : ℕ
  pub sacn_tx_count : ℕ
  pub dmx_in_last_read : ℤ
  -- `dmx_fds` and `dmx_last_write` of `main`
  pub fds : Port → ℤ
  pub last_write : Port → ℕ
  pub clock_calls : ℕ
  pub open_calls : ℕ
  pub read_calls : ℕ
  pub send_calls : ℕ
  pub events : List Event

abbrev pub u32 : ℕ
u32 = 2 ^ 32

-- `a - b` in uint32_t.
abbrev pub sub32 : ℕ → ℕ → ℕ
sub32 a b = (a + u32 - b) % u32

-- `++counter` in uint32_t.
abbrev pub inc32 : ℕ → ℕ
inc32 n = (n + 1) % u32

-- The k-th reading of `now_ms`.
pub reading : Env → ℕ → ℕ
reading e k = let (sec, usec) = e.gettimeofday k in (sec * 1000 + usec / 1000) % u32

-- `now_ms()`: the reading and the state after the call.
unfoldable pub now_ms : Env → Gateway → ℕ × Gateway
now_ms e g = (reading e g.clock_calls, record g { clock_calls = g.clock_calls + 1 })

abbrev pub emit : Event → Gateway → Gateway
emit ev g = record g { events = ev ∷ g.events }
