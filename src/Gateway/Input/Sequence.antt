-- ===== src/Gateway/Input/Sequence.antt =====
-- src/main.c: two rounds of `dmx_input_cycle` for a port.
use sn.Base.{
  ℕ, ◌≤◌, ◌<◌, ◌≡◌, ◌⊎◌, sym, subst, true, false, some, Array, Agree, ℤ, pos, is_negative, arith,
}
use sn.Common.{Port}
use sn.Sacn.{SacnPacket}
use sn.Gateway.{Env, Gateway, sub32}
use sn.Gateway.Input.{input_body}
use sn.Gateway.Input.Send.{SendsOne}
use sn.Gateway.Input.Cycle.{IsReceiving, elapsed, IsRepeat, input_body_forwards, input_body_repeats}

-- A frame of 1 to 512 channels is read on a receiving port at t, where it is no repeat and the
-- network takes the datagram, and then nothing is read at t', by a device that may answer otherwise:
-- the same channels are handed to the network again if more than 900 ms, modulo 2^32, have passed
-- from t to t', and nothing is if not.
pub input_body_resends :
    (e e' : Env) (t t' : ℕ) (p : Port) (g : Gateway) (n : ℕ) (m : ℤ) (frame frame' : Array 512)
    (pkt : SacnPacket)
    → IsReceiving p g
    → ((k : ℕ) → e'.read_frame k ≡ (m, frame'))
    → ((m ≡ pos 0) ⊎ (is_negative m ≡ true))
    → e.read_frame g.read_calls ≡ (pos n, frame)
    → 0 < n
    → n ≤ 512
    → ¬ IsRepeat t p n frame g
    → is_negative (e.sendto g.send_calls) ≡ false
    → (g' : Gateway) × (input_body e t p g ≡ some g')
      × ((g'' : Gateway) × (input_body e' t' p g' ≡ some g'')
          × (900 < sub32 t' t
              → SendsOne (g'.sacn_tx p) (g'.dmx_in p).channels n pkt g'.events g''.events
                × Agree (g'.dmx_in p).channels 0 frame 0 n)
          × (sub32 t' t ≤ 900 → g''.events ≡ g'.events))
input_body_resends e e' t t' p g n m frame frame' pkt r read' nothing read some_read fits new
      taken =
    let (g', run, receiving, _, sends) =
      input_body_forwards e t p g n frame pkt r read some_read fits in
    let (_, restarts, len, channels, _, _) = sends new in
    let began = restarts.on_success taken in
    let (g'', run', _, again, quiet) =
      input_body_repeats e' t' p g' m frame' pkt receiving (read' g'.read_calls) nothing
        (omega (arith, len)) in
    (
      g',
      run,
      (
        g'',
        run',
        (λ late.
            let one = (again (omega (arith, len, some_read), rw began late)).0 in
            (
              subst (λ k. SendsOne (g'.sacn_tx p) (g'.dmx_in p).channels k pkt g'.events g''.events)
                  len one,
              channels,
            )),
        (λ soon.
            (quiet (λ (_, late).
              let late' : 900 < sub32 t' t = subst (λ k. 900 < sub32 t' k) began late in
              absurd (omega (arith, late', soon)))).0),
      ),
    )

-- A frame of 1 to 512 channels that is no repeat is read on a receiving port, but the network does
-- not take the datagram; if the device gives the same frame again less than 900 ms after the last
-- datagram that the network took, then nothing is handed to the network.
pub input_body_drops :
    (e e' : Env) (t t' : ℕ) (p : Port) (g : Gateway) (n : ℕ) (frame : Array 512) (pkt : SacnPacket)
    → IsReceiving p g
    → e.read_frame g.read_calls ≡ (pos n, frame)
    → ((k : ℕ) → e'.read_frame k ≡ (pos n, frame))
    → 0 < n
    → n ≤ 512
    → ¬ IsRepeat t p n frame g
    → is_negative (e.sendto g.send_calls) ≡ true
    → sub32 t' (g.dmx_in_last_send p) < 900
    → (g' : Gateway) × (input_body e t p g ≡ some g')
      × (g'' : Gateway) × (input_body e' t' p g' ≡ some g'')
      × (g''.events ≡ g'.events)
input_body_drops e e' t t' p g n frame pkt r read read' some_read fits new failed soon =
    let (g', run, receiving, _, sends) =
      input_body_forwards e t p g n frame pkt r read some_read fits in
    let (_, restarts, len, channels, _, _) = sends new in
    let (g'', run', _, repeats, _) =
      input_body_forwards e' t' p g' n frame pkt receiving (read' g'.read_calls) some_read fits in
    let soon' : elapsed t' p g' < 900 = rw (restarts.on_error failed) soon in
    let same : Agree frame 0 (g'.dmx_in p).channels 0 n = λ i h. sym (channels i h) in
    (g', run, g'', run', (repeats (sym len, same, soon')).2)
