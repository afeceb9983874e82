-- ===== src/Gateway/Input.antt =====
-- src/main.c: `dmx_input_cycle`.
pub mod Send
pub mod Cycle
pub mod Sequence
pub mod Safe
use sn.Base.{
  ℕ, ◌+◌, ◌-◌, ◌%◌, Bool, true, false, not, ◌&&◌, ◌||◌, Option, none, some, Array, memcpy, memcmp,
  ltb, ◌==◌, if◌then◌else◌, ◌>>=◌, ℤ, pos, negsuc, is_zero,
}
use sn.Common.{Port, set_port, DmxFrame, dmx_mode_rx}
use sn.Sacn.Tx.{sacn_tx_send, SacnTx, Datagram}
use sn.Gateway.{Env, Gateway, Event, sent, emit, now_ms, sub32, inc32}
use sn.Gateway.Handlers.{for_ports}
use sn.Base.{is_negative}

abbrev pub sacn_keepalive_ms : ℕ
sacn_keepalive_ms = 900

-- The datagram goes on record; the built packet is `none` only if the buffer is too small.
abbrev pub emit_datagram : Option Datagram → Gateway → Gateway
emit_datagram none g = g
emit_datagram (some d) g = emit (sent d) g

-- `sacn_tx_send(&g_sacn_tx[i], data, len)` and the updates where it returns 0.
unfoldable pub send_port : Env → ℕ → Port → Array 512 → ℕ → Gateway → Option Gateway
send_port e t port frame len g = do
  (rc, tx, datagram) ←
      sacn_tx_send (g.sacn_tx port) 512 frame len (e.stack g.send_calls) (e.sendto g.send_calls)
  let g' =
      emit_datagram datagram
        (record g { sacn_tx = set_port g.sacn_tx port tx; send_calls = g.send_calls + 1 })
  some (
      if is_zero rc
      then record g' {
        dmx_in_last_send = set_port g'.dmx_in_last_send port t;
        sacn_tx_count = inc32 g'.sacn_tx_count;
      }
      else g')

-- Nothing was read: the last frame is sent again if it is old enough.
unfoldable pub keep_alive : Env → ℕ → Port → Gateway → Option Gateway
unfolding send_port
keep_alive e t port g =
    let g' = record g { dmx_in_zero_count = inc32 g.dmx_in_zero_count } in
    let old = g'.dmx_in port in
    if ltb 0 old.length && ltb sacn_keepalive_ms (sub32 t (g'.dmx_in_last_send port))
    then send_port e t port old.channels old.length g'
    else some g'

-- `n == length && memcmp(frame, data, n) == 0 && t - last_send < 900`; memcmp is called only if
-- the lengths are equal.
unfoldable pub is_unchanged : ℕ → Port → Array 512 → ℕ → Gateway → Option Bool
is_unchanged t port frame n g = if not (n == (g.dmx_in port).length) then some false else do
  order ← memcmp 512 frame 0 512 (g.dmx_in port).channels 0 n
  some (is_zero order && ltb (sub32 t (g.dmx_in_last_send port)) sacn_keepalive_ms)

-- A frame of n channels was read.
unfoldable pub new_frame : Env → ℕ → Port → Array 512 → ℕ → Gateway → Option Gateway
unfolding send_port is_unchanged
new_frame e t port frame n g = do
  same ← is_unchanged t port frame n g
  if same then some g else do
    let old = g.dmx_in port
    channels ← memcpy 512 old.channels 0 512 frame 0 n
    send_port e t port frame n (record g {
      dmx_in =
          set_port g.dmx_in port
            (record old { channels = channels; length = n; last_update_ms = t });
    })

-- What `read_frame` returned.
unfoldable pub dispatch_read : Env → ℕ → Port → ℤ → Array 512 → Gateway → Option Gateway
unfolding keep_alive new_frame
dispatch_read e t port (negsuc _) frame g = keep_alive e t port g
dispatch_read e t port (pos n) frame g =
    if ltb 0 n then new_frame e t port frame n g else keep_alive e t port g

unfoldable pub input_body : Env → ℕ → Port → Gateway → Option Gateway
unfolding dispatch_read
input_body e t port g =
    if is_negative (g.fds port)
    then some g
    else if not ((g.config.ports port).mode == dmx_mode_rx)
    then some g
    else if not (g.sacn_tx_active port)
    then some g
    else let (n, frame) = e.read_frame g.read_calls in
      dispatch_read e t port n frame
        (record g { read_calls = g.read_calls + 1; dmx_in_last_read = n })

unfoldable pub dmx_input_cycle : Env → Gateway → Option Gateway
unfolding input_body now_ms for_ports
dmx_input_cycle e g = let (t, g') = now_ms e g in for_ports (input_body e t) g'
