-- ===== src/Gateway/Output/Safe.antt =====
-- `dmx_output_cycle` leaves the input side alone.
use sn.Base.{ℕ, ◌+◌, refl, Bool, true, false, not, ltb, ◌==◌, if◌then◌else◌, is_negative}
use sn.Common.{Port, port0, port1, set_port, dmx_mode_tx}
use sn.Gateway.{Env, Gateway, now_ms, reading}
use sn.Gateway.Keeps.{KeepsInput, KeepsInput-same, KeepsInput-trans}
use sn.Gateway.Output.{send_fresh, timed_out, black_out, output_body, dmx_output_cycle}
use sn.Gateway.Output.Cycle.{writes-SameFrames, blacked_out}

send_fresh_keeps : (e : Env) (p : Port) (g : Gateway) → KeepsInput g (send_fresh e p g)
unfolding send_fresh
send_fresh_keeps e p g =
    let out = g.dmx_out p in
    let g₁ = record g { last_write = set_port g.last_write p out.last_update_ms } in
    let kept = (writes-SameFrames e p out.channels g₁).input in
    KeepsInput-same kept.dmx_in kept.sacn_tx kept.running

black_out_keeps : (e : Env) (p : Port) (g : Gateway) → KeepsInput g (black_out e p g)
unfolding black_out
black_out_keeps e p g =
    let g₁ = record g { dmx_out = set_port g.dmx_out p (blacked_out (g.dmx_out p)) } in
    let kept = (writes-SameFrames e p (λ _. 0) g₁).input in
    KeepsInput-same kept.dmx_in kept.sacn_tx kept.running

KeepsInput_if :
    (b : Bool) (g x y : Gateway)
    → KeepsInput g x
    → KeepsInput g y
    → KeepsInput g (if b then x else y)
KeepsInput_if true g x y h k = h
KeepsInput_if false g x y h k = k

output_body_keeps : (e : Env) (t : ℕ) (p : Port) (g : Gateway) → KeepsInput g (output_body e t p g)
unfolding output_body
output_body_keeps e t p g =
    let same : KeepsInput g g = KeepsInput-same refl refl refl in
    KeepsInput_if (is_negative (g.fds p)) g _ _ same (
      KeepsInput_if (not ((g.config.ports p).mode == dmx_mode_tx)) g _ _ same (
        KeepsInput_if (ltb (g.last_write p) (g.dmx_out p).last_update_ms) g _ _
          (send_fresh_keeps e p g)
          (KeepsInput_if (timed_out t p g) g _ _ (black_out_keeps e p g) same)))

pub dmx_output_cycle-KeepsInput : (e : Env) (g : Gateway) → KeepsInput g (dmx_output_cycle e g)
unfolding dmx_output_cycle now_ms
dmx_output_cycle-KeepsInput e g =
    let t = reading e g.clock_calls in
    let g₀ = record g { clock_calls = g.clock_calls + 1 } in
    let kept₀ = output_body_keeps e t port0 g₀ in
    let kept₁ = output_body_keeps e t port1 (output_body e t port0 g₀) in
    KeepsInput-trans (KeepsInput-same kept₀.dmx_in kept₀.sacn_tx kept₀.running) kept₁
