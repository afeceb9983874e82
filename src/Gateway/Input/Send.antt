-- ===== src/Gateway/Input/Send.antt =====
-- src/main.c: what one send of `dmx_input_cycle` hands to the network, and what it changes.
use Prim.Native.Nat.{min}
use sn.Base.{
  ℕ, ◌^◌, ◌≤◌, ◌<◌, ◌≡◌, ◌≢◌, inl, inr, refl, ap, subst, true, false, some, List, ◌∷◌, Array, ℤ,
  is_zero, is_negative, arith, Bool-cases,
}
use sn.Common.{Port, set_port-part}
use sn.Sacn.{SacnPacket}
use sn.Sacn.Tx.{SacnTx, Datagram}
use sn.Sacn.Send.{Delivers, Reports, sacn_tx_send-Delivers}
use sn.Gateway.{Env, Gateway, Event, sent}
use sn.Gateway.Handlers.Effect.{set_port_self, set_port_other}
use sn.Gateway.Input.{send_port}

-- One datagram was handed to the network, which carries `len` channels of `frame` for the
-- transmitter's universe.
pub record SendsOne (tx : SacnTx) (frame : Array 512) (len : ℕ) (pkt : SacnPacket)
    (before after : List Event) : Type 0 where
  pub datagram : Datagram
  pub events : after ≡ sent datagram ∷ before
  pub delivers : Delivers tx 512 frame len pkt datagram

Delivers-exactly :
    (tx : SacnTx) (frame : Array 512) (len : ℕ) (pkt : SacnPacket) (d : Datagram)
    → len ≤ 512
    → Delivers tx 512 frame (min len 512) pkt d
    → Delivers tx 512 frame len pkt d
Delivers-exactly tx frame len pkt d h x =
    let e : min len 512 ≡ len = omega arith in subst (λ k. Delivers tx 512 frame k pkt d) e x

Reports-universe :
    (tx : SacnTx) (n rc : ℤ) (tx' : SacnTx) → Reports tx n rc tx' → tx'.universe ≡ tx.universe
Reports-universe tx n rc tx' r = elim (Bool-cases (is_negative n)) [
  | inl e ↦ ap SacnTx.universe (r.on_error e).1
  | inr e ↦ ap SacnTx.universe (r.on_success e).1
]

-- A send keeps the frames, the universes and whether the daemon runs.
pub record KeepsFrames (g g' : Gateway) : Type 0 where
  pub dmx_in : g'.dmx_in ≡ g.dmx_in
  pub universe : (q : Port) → (g'.sacn_tx q).universe ≡ (g.sacn_tx q).universe
  pub running : g'.running ≡ g.running
  pub fds : g'.fds ≡ g.fds
  pub config : g'.config ≡ g.config
  pub sacn_tx_active : g'.sacn_tx_active ≡ g.sacn_tx_active

-- The next send of the state restarts the keep-alive interval of the port, and of no other, if the
-- network takes the datagram.
pub record Restarts (e : Env) (t : ℕ) (p : Port) (g g' : Gateway) : Type 0 where
  pub on_success : is_negative (e.sendto g.send_calls) ≡ false → g'.dmx_in_last_send p ≡ t
  pub on_error :
      is_negative (e.sendto g.send_calls) ≡ true → g'.dmx_in_last_send p ≡ g.dmx_in_last_send p
  pub others : (q : Port) → q ≢ p → g'.dmx_in_last_send q ≡ g.dmx_in_last_send q

-- Up to 512 channels for a 16-bit universe are sent as one datagram, which changes no frame and
-- restarts the keep-alive interval if the network takes it.
pub send_port_sends :
    (e : Env) (t : ℕ) (p : Port) (frame : Array 512) (len : ℕ) (pkt : SacnPacket) (g : Gateway)
    → len ≤ 512
    → (g.sacn_tx p).universe < 2 ^ 16
    → (g' : Gateway) × (send_port e t p frame len g ≡ some g')
      × SendsOne (g.sacn_tx p) frame len pkt g.events g'.events
      × KeepsFrames g g'
      × Restarts e t p g g'
unfolding send_port
send_port_sends e t p frame len pkt g h small =
    let tx = g.sacn_tx p in
    let (rc, tx', d, run, reports, delivers) =
      sacn_tx_send-Delivers tx 512 frame len (e.stack g.send_calls) (e.sendto g.send_calls) pkt
        (omega arith) small in
    let one : SendsOne tx frame len pkt g.events (sent d ∷ g.events) = record {
      datagram = d;
      events = refl;
      delivers = Delivers-exactly tx frame len pkt d h delivers;
    } in
    let same =
      set_port-part SacnTx.universe g.sacn_tx p tx'
        (Reports-universe tx (e.sendto g.send_calls) rc tx' reports) in
    elim (Bool-cases (is_zero rc)) [
      | inl ok ↦
          rw (run, ok)
            (
              _,
              refl,
              one,
              record {
                dmx_in = refl;
                universe = same;
                running = refl;
                fds = refl;
                config = refl;
                sacn_tx_active = refl;
              },
              record {
                on_success = λ _. set_port_self g.dmx_in_last_send p t;
                on_error = λ bad. absurd (cc (ok, ap is_zero (reports.on_error bad).0));
                others = λ q h. set_port_other g.dmx_in_last_send p q t h;
              },
            )
      | inr bad ↦
          rw (run, bad)
            (
              _,
              refl,
              one,
              record {
                dmx_in = refl;
                universe = same;
                running = refl;
                fds = refl;
                config = refl;
                sacn_tx_active = refl;
              },
              record {
                on_success = λ ok. absurd (cc (bad, ap is_zero (reports.on_success ok).0));
                on_error = λ _. refl;
                others = λ q h. refl;
              },
            )
    ]
