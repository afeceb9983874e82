-- ===== src/Gateway/Loop/Safe.antt =====
-- The event loop never leaves an array.
use sn.Base.{
  ℕ, ◌≤◌, ◌≡◌, refl, ◌∙◌, ◌==◌, ==_iff, Option, some, is_negative, is_zero, AtMost, Bool-cases, inl,
  inr,
}
use sn.Sacn.{SacnPacket}
use sn.Sacn.Rx.Total.{sacn_receive-Gives}
use sn.Artnet.Total.{artnet_receive-Gives}
use sn.Shownet.Total.{shownet_receive-Gives}
use sn.Gateway.{Env, Gateway}
use sn.Gateway.Keeps.{KeepsInput}
use sn.Gateway.Handlers.{handle_sacn_packet}
use sn.Gateway.Handlers.Merge.{handle_sacn_packet-SacnOutcome}
use sn.Gateway.Handlers.Direct.{
  handle_artnet_packet-DirectOutcome, handle_shownet_packet-DirectOutcome,
}
use sn.Gateway.Output.{dmx_output_cycle}
use sn.Gateway.Output.Safe.{dmx_output_cycle-KeepsInput}
use sn.Gateway.Input.Safe.{IsWellFormed, dmx_input_cycle-Safe}
use sn.Gateway.Loop.{
  Sockets, Arrivals, Daemon, Fits, poll_sacn, poll_artnet, poll_shownet, iteration,
}

-- The step runs, to a well-formed state, and does not stop the daemon.
abbrev pub Safe : Daemon → Option Daemon → Type 0
Safe d r =
    (d' : Daemon) × (r ≡ some d')
    × IsWellFormed d'.gateway
    × (d'.gateway.running ≡ d.gateway.running)

carried : (g g' : Gateway) → KeepsInput g g' → IsWellFormed g → IsWellFormed g'
carried g g' k w = record {
  length = λ p. rw k.dmx_in (w.length p);
  universe = λ p. rw k.sacn_tx (w.universe p);
}

handles_sacn :
    (e : Env) (pkt : SacnPacket) (g : Gateway)
    → pkt.dmx_length ≤ 512
    → IsWellFormed g
    → (g' : Gateway) × (handle_sacn_packet e pkt g ≡ some g')
      × IsWellFormed g'
      × (g'.running ≡ g.running)
handles_sacn e pkt g fits w = elim (Bool-cases (pkt.start_code == 0)) [
  | inl start ↦
      let (g', run, setup, _) =
        handle_sacn_packet-SacnOutcome e pkt g ((==_iff _ _).0 start) fits in
      (g', run, carried g g' setup.input w, setup.input.running)
  | inr other ↦ unfold handle_sacn_packet in rw other (g, refl, w, refl)
]

module _ (e : Env) (s : Sockets) (a : Arrivals) (fits : Fits a) (d : Daemon)
    (w : IsWellFormed d.gateway) where
  poll_sacn-Safe : Safe d (poll_sacn e s a d)
  unfolding poll_sacn
  poll_sacn-Safe =
      let (rc, pkt, stats, run, small) =
        sacn_receive-Gives a.sacn_len a.sacn_buf d.stats a.sacn_pkt fits.sacn in
      elim (Bool-cases (is_negative s.sacn_sock)) [
        | inl closed ↦ rw closed (d, refl, w, refl)
        | inr active ↦ elim (Bool-cases (is_zero rc)) [
          | inl ok ↦
              let (g', handled, w', same) = handles_sacn e pkt d.gateway (small ok) w in
              rw (active, run, ok, handled) (_, refl, w', same)
          | inr bad ↦ rw (active, run, bad) (_, refl, w, refl)
        ]
      ]

  poll_artnet-Safe : Safe d (poll_artnet e s a d)
  unfolding poll_artnet
  poll_artnet-Safe =
      let (rc, pkt, reply, run, small) =
        artnet_receive-Gives a.artnet_len a.artnet_buf a.artnet_from a.artnet_pkt fits.artnet in
      elim (Bool-cases (is_negative s.artnet_sock)) [
        | inl closed ↦ rw closed (d, refl, w, refl)
        | inr active ↦ elim (Bool-cases (is_zero rc)) [
          | inl ok ↦
              let (g', handled, setup, _) =
                handle_artnet_packet-DirectOutcome e pkt d.gateway (small ok) in
              rw (active, run, ok, handled)
                (_, refl, carried d.gateway g' setup.input w, setup.input.running)
          | inr bad ↦ rw (active, run, bad) (_, refl, w, refl)
        ]
      ]

  poll_shownet-Safe : Safe d (poll_shownet e s a d)
  unfolding poll_shownet
  poll_shownet-Safe =
      let (rc, pkt, run, small) =
        shownet_receive-Gives a.shownet_len a.shownet_buf a.shownet_pkt fits.shownet in
      elim (Bool-cases (is_negative s.shownet_sock)) [
        | inl closed ↦ rw closed (d, refl, w, refl)
        | inr active ↦ elim (Bool-cases (is_zero rc)) [
          | inl ok ↦
              let (g', handled, setup, _) =
                handle_shownet_packet-DirectOutcome e pkt d.gateway (small ok) in
              rw (active, run, ok, handled)
                (_, refl, carried d.gateway g' setup.input w, setup.input.running)
          | inr bad ↦ rw (active, run, bad) (_, refl, w, refl)
        ]
      ]

-- From a well-formed state, if no receiving call and no read gives more than it has room for, an
-- iteration of the event loop runs with no fault to a well-formed state, and stops nothing.
pub iteration-Safe :
    (e : Env) (s : Sockets) (a : Arrivals) (d : Daemon)
    → ((k : ℕ) → AtMost (e.read_frame k).0 512)
    → Fits a
    → IsWellFormed d.gateway
    → Safe d (iteration e s a d)
unfolding iteration
iteration-Safe e s a d reads fits w =
    let (d₁, run₁, w₁, same₁) = poll_sacn-Safe e s a fits d w in
    let (d₂, run₂, w₂, same₂) = poll_artnet-Safe e s a fits d₁ w₁ in
    let (d₃, run₃, w₃, same₃) = poll_shownet-Safe e s a fits d₂ w₂ in
    let kept = dmx_output_cycle-KeepsInput e d₃.gateway in
    let out = dmx_output_cycle e d₃.gateway in
    let (g, run, w', same) = dmx_input_cycle-Safe e out reads (carried d₃.gateway out kept w₃) in
    rw (run₁, run₂, run₃, run) (_, refl, w', same ∙ kept.running ∙ same₃ ∙ same₂ ∙ same₁)
