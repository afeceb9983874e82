-- ===== src/Gateway/Loop.antt =====
-- src/main.c: the start and the event loop of `main`. Left out are the log, the debug output with its
-- readings of the clock, the pid file, the pause, and the release of resources at the end.
pub mod Start
pub mod Safe
pub mod Life
use sn.Base.{
  ℕ, ◌≡◌, Bool, true, false, Option, some, List, ◌∷◌, none, Array, ◌>>=◌, if◌then◌else◌, ℤ,
  is_negative, is_zero, AtMost,
}
use sn.Sacn.{SacnPacket}
use sn.Sacn.Rx.{RecvStats, sacn_receive}
use sn.Artnet.{ArtnetDmxPacket, SockAddr, PollReply, artnet_receive}
use sn.Shownet.{ShownetPacket, shownet_receive}
use sn.Gateway.{Env, Gateway}
use sn.Gateway.Handlers.{
  handle_sacn_packet, handle_artnet_packet, handle_shownet_packet, signal_handler,
}
use sn.Gateway.Output.{dmx_output_cycle}
use sn.Gateway.Input.{dmx_input_cycle}

-- The descriptors of the protocol sockets, negative if closed.
pub record Sockets : Type 0 where
  pub sacn_sock : ℤ
  pub artnet_sock : ℤ
  pub shownet_sock : ℤ

-- What the receiving calls of one iteration give, and what its packets on the stack hold at first.
pub record Arrivals : Type 0 where
  pub sacn_len : ℤ
  pub sacn_buf : Array 638
  pub artnet_len : ℤ
  pub artnet_buf : Array 530
  pub artnet_from : SockAddr
  pub shownet_len : ℤ
  pub shownet_buf : Array 1500
  pub sacn_pkt : SacnPacket
  pub artnet_pkt : ArtnetDmxPacket
  pub shownet_pkt : ShownetPacket

-- The state with the receive counters of sacn.c and the poll replies sent, the newest first.
pub record Daemon : Type 0 where
  pub gateway : Gateway
  pub stats : RecvStats
  pub replies : List PollReply

unfoldable pub poll_sacn : Env → Sockets → Arrivals → Daemon → Option Daemon
poll_sacn e s a d = if is_negative s.sacn_sock then some d else do
  (rc, pkt, stats) ← sacn_receive a.sacn_len a.sacn_buf d.stats a.sacn_pkt
  if is_zero rc
      then (do
        g ← handle_sacn_packet e pkt d.gateway
        some (record d { gateway = g; stats = stats }))
      else some (record d { stats = stats })

abbrev add_reply : Option PollReply → List PollReply → List PollReply
add_reply none replies = replies
add_reply (some reply) replies = reply ∷ replies

unfoldable pub poll_artnet : Env → Sockets → Arrivals → Daemon → Option Daemon
poll_artnet e s a d = if is_negative s.artnet_sock then some d else do
  (rc, pkt, reply) ← artnet_receive a.artnet_len a.artnet_buf a.artnet_from a.artnet_pkt
  let replies' = add_reply reply d.replies
  if is_zero rc
      then (do
        g ← handle_artnet_packet e pkt d.gateway
        some (record d { gateway = g; replies = replies' }))
      else some (record d { replies = replies' })

unfoldable pub poll_shownet : Env → Sockets → Arrivals → Daemon → Option Daemon
poll_shownet e s a d = if is_negative s.shownet_sock then some d else do
  (rc, pkt) ← shownet_receive a.shownet_len a.shownet_buf a.shownet_pkt
  if is_zero rc
      then (do g ← handle_shownet_packet e pkt d.gateway; some (record d { gateway = g }))
      else some d

-- The body of the event loop.
unfoldable pub iteration : Env → Sockets → Arrivals → Daemon → Option Daemon
iteration e s a d = do
  d₁ ← poll_sacn e s a d
  d₂ ← poll_artnet e s a d₁
  d₃ ← poll_shownet e s a d₂
  g ← dmx_input_cycle e (dmx_output_cycle e d₃.gateway)
  some (record d₃ { gateway = g })

-- A receiving call gives no more bytes than it has room for.
pub record Fits (a : Arrivals) : Type 0 where
  pub sacn : AtMost a.sacn_len 638
  pub artnet : AtMost a.artnet_len 530
  pub shownet : AtMost a.shownet_len 1500

-- `while (g_running)`: the states that the loop comes to, by iterations and by signals between them.
-- A signal within an iteration only sets `running`, which the iteration does not read.
pub data Runs (e : Env) (s : Sockets) : Daemon → Daemon → Type 0 where
  here : (d : Daemon) → Runs e s d d
  iterates :
      {d₁ d₂ d₃ : Daemon} (a : Arrivals)
      → d₁.gateway.running ≡ true
      → Fits a
      → iteration e s a d₁ ≡ some d₂
      → Runs e s d₂ d₃
      → Runs e s d₁ d₃
  signalled :
      {d₁ d₃ : Daemon} (sig : ℕ)
      → Runs e s (record d₁ { gateway = signal_handler sig d₁.gateway }) d₃
      → Runs e s d₁ d₃
