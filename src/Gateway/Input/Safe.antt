-- ===== src/Gateway/Input/Safe.antt =====
-- `dmx_input_cycle` never leaves an array.
use sn.Base.{
  ℕ, ◌+◌, ◌^◌, ◌≤◌, ◌<◌, ◌≡◌, refl, ◌∙◌, Option, some, Array, ltb, ◌==◌, ℤ, pos, negsuc,
  is_negative, AtMost, Bool-cases, inl, inr, ◌&&◌,
}
use sn.Common.{Port, port0, port1, set_port, DmxFrame, dmx_mode_rx}
use sn.Sacn.{SacnPacket}
use sn.Gateway.{Env, Gateway, sub32, inc32, reading, now_ms}
use sn.Gateway.Handlers.{for_ports}
use sn.Gateway.Handlers.Effect.{fits-memcpy}
use sn.Gateway.Input.{keep_alive, new_frame, dispatch_read, input_body, dmx_input_cycle, send_port}
use sn.Gateway.Input.Send.{send_port_sends}
use sn.Gateway.Input.Cycle.{is_unchanged_decides, received}

-- The stored frames fit their arrays, and the universes of the transmitters have 16 bits.
pub record IsWellFormed (g : Gateway) : Type 0 where
  pub length : (p : Port) → (g.dmx_in p).length ≤ 512
  pub universe : (p : Port) → (g.sacn_tx p).universe < 2 ^ 16

-- The step runs, to a well-formed state, and does not stop the daemon.
abbrev pub Safe : Gateway → Option Gateway → Type 0
Safe g r = (g' : Gateway) × (r ≡ some g') × IsWellFormed g' × (g'.running ≡ g.running)

any_packet : SacnPacket
any_packet = record {
  cid = λ _. 0;
  source_name = λ _. 0;
  priority = 0;
  sequence = 0;
  universe = 0;
  options = 0;
  start_code = 0;
  dmx_data = λ _. 0;
  dmx_length = 0;
}

send_port-Safe :
    (e : Env) (t : ℕ) (p : Port) (frame : Array 512) (len : ℕ) (g : Gateway)
    → len ≤ 512
    → IsWellFormed g
    → Safe g (send_port e t p frame len g)
send_port-Safe e t p frame len g fits w =
    let (g', run, _, kept, _) = send_port_sends e t p frame len any_packet g fits (w.universe p) in
    let w' : IsWellFormed g' = record {
      length = λ q. rw kept.dmx_in (w.length q);
      universe = λ q. rw (kept.universe q) (w.universe q);
    } in
    (g', run, w', kept.running)

keep_alive-Safe :
    (e : Env) (t : ℕ) (p : Port) (g : Gateway) → IsWellFormed g → Safe g (keep_alive e t p g)
unfolding keep_alive
keep_alive-Safe e t p g w =
    let w' : IsWellFormed (record g { dmx_in_zero_count = inc32 g.dmx_in_zero_count }) = record {
      length = w.length;
      universe = w.universe;
    } in
    elim (Bool-cases (ltb 0 (g.dmx_in p).length && ltb 900 (sub32 t (g.dmx_in_last_send p)))) [
      | inl due ↦ rw due (
          send_port-Safe e t p (g.dmx_in p).channels (g.dmx_in p).length
            (record g { dmx_in_zero_count = inc32 g.dmx_in_zero_count }) (w.length p) w')
      | inr later ↦ rw later (_, refl, w', refl)
    ]

stored_lengths :
    (f : Port → DmxFrame) (p : Port) (v : DmxFrame)
    → v.length ≤ 512
    → ((q : Port) → (f q).length ≤ 512)
    → (q : Port) → (set_port f p v q).length ≤ 512
stored_lengths f port0 v h k port0 = h
stored_lengths f port0 v h k port1 = k port1
stored_lengths f port1 v h k port0 = k port0
stored_lengths f port1 v h k port1 = h

new_frame-Safe :
    (e : Env) (t : ℕ) (p : Port) (frame : Array 512) (n : ℕ) (g : Gateway)
    → n ≤ 512
    → IsWellFormed g
    → Safe g (new_frame e t p frame n g)
unfolding new_frame
new_frame-Safe e t p frame n g fits w =
    let (b, decided, _) = is_unchanged_decides t p frame n g fits in
    let new = received (g.dmx_in p) frame n t in
    let w' : IsWellFormed (record g { dmx_in = set_port g.dmx_in p new }) = record {
      length = stored_lengths g.dmx_in p new fits w.length;
      universe = w.universe;
    } in
    rw decided (elim (Bool-cases b) [
      | inl same ↦ rw same (g, refl, w, refl)
      | inr differs ↦
          rw (differs, fits-memcpy (g.dmx_in p) frame n fits)
            (send_port-Safe e t p frame n (record g { dmx_in = set_port g.dmx_in p new }) fits w')
    ])

dispatch_read-Safe :
    (e : Env) (t : ℕ) (p : Port) (n : ℤ) (frame : Array 512) (g : Gateway)
    → AtMost n 512
    → IsWellFormed g
    → Safe g (dispatch_read e t p n frame g)
unfolding dispatch_read
dispatch_read-Safe e t p (negsuc k) frame g fits w = keep_alive-Safe e t p g w
dispatch_read-Safe e t p (pos n) frame g fits w = elim (Bool-cases (ltb 0 n)) [
  | inl some_read ↦ rw some_read (new_frame-Safe e t p frame n g fits w)
  | inr nothing ↦ rw nothing (keep_alive-Safe e t p g w)
]

input_body-Safe :
    (e : Env) (t : ℕ) (p : Port) (g : Gateway)
    → ((k : ℕ) → AtMost (e.read_frame k).0 512)
    → IsWellFormed g
    → Safe g (input_body e t p g)
unfolding input_body
input_body-Safe e t p g reads w = elim (Bool-cases (is_negative (g.fds p))) [
  | inl closed' ↦ rw closed' (g, refl, w, refl)
  | inr opened' ↦ elim (Bool-cases ((g.config.ports p).mode == dmx_mode_rx)) [
    | inr other ↦ rw (opened', other) (g, refl, w, refl)
    | inl rx ↦ elim (Bool-cases (g.sacn_tx_active p)) [
      | inr idle ↦ rw (opened', rx, idle) (g, refl, w, refl)
      | inl active ↦
          rw (opened', rx, active)
            (dispatch_read-Safe e t p (e.read_frame g.read_calls).0 (e.read_frame g.read_calls).1
              (record g {
                read_calls = g.read_calls + 1;
                dmx_in_last_read = (e.read_frame g.read_calls).0;
              })
              (reads g.read_calls) (record { length = w.length; universe = w.universe }))
    ]
  ]
]

-- From a well-formed state, if no read gives more than 512 bytes, the input cycle runs with no
-- fault to a well-formed state.
pub dmx_input_cycle-Safe :
    (e : Env) (g : Gateway)
    → ((k : ℕ) → AtMost (e.read_frame k).0 512)
    → IsWellFormed g
    → Safe g (dmx_input_cycle e g)
unfolding dmx_input_cycle for_ports now_ms
dmx_input_cycle-Safe e g reads w =
    let t = reading e g.clock_calls in
    let g₀ = record g { clock_calls = g.clock_calls + 1 } in
    let w₀ : IsWellFormed g₀ = record { length = w.length; universe = w.universe } in
    let (g₁, run₁, w₁, same₁) = input_body-Safe e t port0 g₀ reads w₀ in
    let (g₂, run₂, w₂, same₂) = input_body-Safe e t port1 g₁ reads w₁ in
    (g₂, rw (run₁, run₂) refl, w₂, same₂ ∙ same₁)
