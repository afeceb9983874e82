-- ===== src/Gateway/Output.antt =====
-- src/main.c: `dmx_tx_write` and `dmx_output_cycle`. A copy of all 512 bytes of an array into one
-- of the same size is the array.
pub mod Cycle
pub mod Wrap
pub mod Forward
pub mod Safe
use sn.Base.{
  ℕ, ◌+◌, ◌-◌, ◌*◌, ◌%◌, Bool, not, ◌&&◌, Array, ltb, ◌==◌, if◌then◌else◌, ℤ, is_negative,
}
use sn.Common.{Port, port0, port1, set_port, DmxFrame, dmx_mode_tx}
use sn.Gateway.{Env, Gateway, Event, closed, opened, wrote, emit, now_ms, sub32, inc32, u32}

-- `open(dev, O_RDWR)` on the device of a port.
unfoldable pub open_port : Env → Port → Gateway → ℤ × Gateway
open_port e port g =
    let fd = e.open_device g.open_calls in
    (fd, emit (opened port fd) (record g { open_calls = g.open_calls + 1 }))

-- `close(fds[port])`, if it is open.
unfoldable pub close_previous : Port → Gateway → Gateway
close_previous port g = if is_negative (g.fds port) then g else emit (closed (g.fds port)) g

unfoldable pub dmx_tx_write : Env → Port → Array 512 → ℕ → Gateway → Gateway
dmx_tx_write e port frame len g =
    let (fd, g₁) = open_port e port (close_previous port g) in
    if is_negative fd
    then g₁
    else let g₂ = emit (closed fd) (emit (wrote fd frame len) g₁) in
      let (fd', g₃) = open_port e port g₂ in record g₃ { fds = set_port g₃.fds port fd' }

-- The branch for fresh data.
unfoldable pub send_fresh : Env → Port → Gateway → Gateway
send_fresh e port g =
    let out = g.dmx_out port in
    let g₁ = record g { last_write = set_port g.last_write port out.last_update_ms } in
    let g₂ = dmx_tx_write e port out.channels 512 g₁ in
    record g₂ { dmx_tx_count = inc32 g₂.dmx_tx_count }

abbrev pub timed_out : ℕ → Port → Gateway → Bool
timed_out t port g =
    let last = (g.dmx_out port).last_update_ms in
    ltb 0 last && ltb (g.config.dmx_hold_time * 1000 % u32) (sub32 t last)

-- The branch for a source that is gone: zeros are stored and written.
unfoldable pub black_out : Env → Port → Gateway → Gateway
black_out e port g =
    let out = g.dmx_out port in
    let g₁ = record g {
      dmx_out =
          set_port g.dmx_out port
            (record out { channels = λ _. 0; last_update_ms = 0; priority = 0 });
    } in
    dmx_tx_write e port (λ _. 0) 512 g₁

-- The body of the loop, at the time that the cycle began.
unfoldable pub output_body : Env → ℕ → Port → Gateway → Gateway
output_body e t port g =
    if is_negative (g.fds port)
    then g
    else if not ((g.config.ports port).mode == dmx_mode_tx)
    then g
    else if ltb (g.last_write port) (g.dmx_out port).last_update_ms
    then send_fresh e port g
    else if timed_out t port g
    then black_out e port g
    else g

unfoldable pub dmx_output_cycle : Env → Gateway → Gateway
dmx_output_cycle e g = let (t, g') = now_ms e g in output_body e t port1 (output_body e t port0 g')
