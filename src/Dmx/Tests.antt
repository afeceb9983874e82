-- ===== src/Dmx/Tests.antt =====
-- The theorem on the devices of a host build, at a device that was just opened.
use Prim.Native.Nat.{min}
use sn.Base.{◌≡◌, refl, some, Array, Agree, pos, arith}
use sn.Dmx.{
  open_from, MockPorts, mock_dmx_reset, dmx_mock_open, mock_index, mock_dmx_inject_rx,
  dmx_mock_read_frame,
}
use sn.Dmx.RoundTrip.{dmx_mock_read_frame-inject}

abbrev opened : MockPorts
opened = (dmx_mock_open mock_dmx_reset).1

opened_index : mock_index (pos 100) opened ≡ some 0
unfolding mock_index dmx_mock_open open_from mock_dmx_reset
opened_index = refl

abbrev ramp : Array 512
ramp i = i

dmx_mock_read_frame-inject_example :
    (ports' : MockPorts) × (mock_dmx_inject_rx (pos 100) 512 ramp 600 opened ≡ some ports')
    × (out' : Array 512) × (dmx_mock_read_frame (pos 100) 512 (λ _. 0) 512 ports'
        ≡ some (pos (min 600 512), out'))
    × Agree out' 0 ramp 0 (min 600 512)
dmx_mock_read_frame-inject_example =
    dmx_mock_read_frame-inject (pos 100) 0 512 600 ramp (λ _. 0) opened opened_index (omega arith)
      (omega arith)
