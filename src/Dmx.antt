-- ===== src/Dmx.antt =====
-- src/dmx/dmx_mock.c: the devices of a host build. A descriptor is 100 more than the index of a port.
pub mod RoundTrip
mod Tests
use sn.Base.{
  ℕ, ◌+◌, ◌-◌, ◌==◌, Bool, true, false, Option, none, some, Array, memcpy, ltb, if◌then◌else◌,
  ◌>>=◌, ℤ, pos, negsuc, success, failure, zero, suc,
}
use sn.Common.{dmx_mode_off}

abbrev pub mock_max_ports : ℕ
mock_max_ports = 4

pub record MockPort : Type 0 where
  pub in_use : Bool
  pub mode : ℕ
  pub tx_buf : Array 512
  pub rx_buf : Array 512
  pub tx_len : ℕ
  pub rx_len : ℕ

-- `mock_ports`, by index.
abbrev pub MockPorts : Type 0
MockPorts = ℕ → MockPort

abbrev pub set_mock : MockPorts → ℕ → MockPort → MockPorts
set_mock ports idx v i = if i == idx then v else ports i

abbrev pub empty_port : MockPort
empty_port = record {
  in_use = false;
  mode = 0;
  tx_buf = λ _. 0;
  rx_buf = λ _. 0;
  tx_len = 0;
  rx_len = 0;
}

-- The test of every operation: the index of an open port.
unfoldable pub mock_index : ℤ → MockPorts → Option ℕ
mock_index (negsuc _) ports = none
mock_index (pos fd) ports =
    if ltb fd 100
    then none
    else if ltb (fd - 100) mock_max_ports
    then (if (ports (fd - 100)).in_use then some (fd - 100) else none)
    else none

unfoldable pub mock_dmx_reset : MockPorts
mock_dmx_reset i = empty_port

-- The loop of `dmx_mock_open` from index i, with `left` ports to try.
unfoldable pub open_from : ℕ → ℕ → MockPorts → ℤ × MockPorts
open_from zero i ports = (failure, ports)
open_from (suc left) i ports = elim (ports i).in_use [
  | true ↦ open_from left (i + 1) ports
  | false ↦
      (pos (100 + i), set_mock ports i (record empty_port { in_use = true; mode = dmx_mode_off }))
]

unfoldable pub dmx_mock_open : MockPorts → ℤ × MockPorts
dmx_mock_open ports = open_from mock_max_ports 0 ports

unfoldable pub dmx_mock_set_mode : ℤ → ℕ → MockPorts → ℤ × MockPorts
dmx_mock_set_mode fd mode ports = elim (mock_index fd ports) [
  | none ↦ (failure, ports)
  | some idx ↦ (success, set_mock ports idx (record (ports idx) { mode = mode }))
]

-- `len` after the clamp.
abbrev pub clamp_frame_len : ℕ → ℕ
clamp_frame_len len = if ltb 512 len then 512 else len

unfoldable pub dmx_mock_write_frame : ℤ → (m : ℕ) → Array m → ℕ → MockPorts → Option (ℤ × MockPorts)
dmx_mock_write_frame fd m frame len ports = elim (mock_index fd ports) [
  | none ↦ some (failure, ports)
  | some idx ↦ do
    let len' = clamp_frame_len len
    buf ← memcpy 512 (ports idx).tx_buf 0 m frame 0 len'
    some (pos len', set_mock ports idx (record (ports idx) { tx_buf = buf; tx_len = len' }))
]

unfoldable pub mock_dmx_inject_rx : ℤ → (m : ℕ) → Array m → ℕ → MockPorts → Option MockPorts
mock_dmx_inject_rx fd m frame len ports = elim (mock_index fd ports) [
  | none ↦ some ports
  | some idx ↦ do
    let len' = clamp_frame_len len
    buf ← memcpy 512 (ports idx).rx_buf 0 m frame 0 len'
    some (set_mock ports idx (record (ports idx) { rx_buf = buf; rx_len = len' }))
]

-- The count and the contents of the caller's array of m bytes.
unfoldable pub dmx_mock_read_frame : ℤ → (m : ℕ) → Array m → ℕ → MockPorts → Option (ℤ × Array m)
dmx_mock_read_frame fd m frame max_len ports = elim (mock_index fd ports) [
  | none ↦ some (failure, frame)
  | some idx ↦
      let port = ports idx in
      if port.rx_len == 0 then some (pos 0, frame) else do
        let len = if ltb port.rx_len max_len then port.rx_len else max_len
        frame' ← memcpy m frame 0 512 port.rx_buf 0 len
        some (pos len, frame')
]

-- `dmx_mock_close` does not ask whether the port is open.
unfoldable pub dmx_mock_close : ℤ → MockPorts → MockPorts
dmx_mock_close (negsuc _) ports = ports
dmx_mock_close (pos fd) ports =
    if ltb fd 100
    then ports
    else if ltb (fd - 100) mock_max_ports
    then set_mock ports (fd - 100) (record (ports (fd - 100)) { in_use = false })
    else ports
