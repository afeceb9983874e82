-- ===== src/Gateway/Output/Cycle.antt =====
-- When `dmx_output_cycle` writes to a port, and what.
use native.Mathlib.Nat.{le_refl}
use native.Mathlib.Decide.{dec_lt}
use sn.Base.{
  ltb-false, lt→ltb, ℕ, ◌+◌, ◌*◌, ◌%◌, ◌^◌, ◌≤◌, ◌<◌, ◌≡◌, ◌≢◌, inl, inr, refl, true, false, List,
  ◌∷◌, Array, ◌==◌, is_negative, arith, Bool-cases,
}
use sn.Common.{Port, set_port, DmxFrame, dmx_mode_tx}
use sn.Gateway.{Env, Gateway, Event, closed, opened, wrote, sub32}
use sn.Gateway.Keeps.{KeepsInput, KeepsInput-same}
use sn.Gateway.Handlers.Effect.{set_port_self, set_port_other}
use sn.Gateway.Output.{
  open_port, close_previous, dmx_tx_write, send_fresh, timed_out, black_out, output_body,
}

-- The port transmits and its device is open.
abbrev pub IsActive : Port → Gateway → Type 0
IsActive p g = (is_negative (g.fds p) ≡ false) × ((g.config.ports p).mode ≡ 1)

-- A frame came since the last write.
abbrev pub IsFresh : Port → Gateway → Type 0
IsFresh p g = g.last_write p < (g.dmx_out p).last_update_ms

-- The source sent a frame, and has been silent for longer than the hold time since.
abbrev pub IsSilent : ℕ → Port → Gateway → Type 0
IsSilent t p g =
    (0 < (g.dmx_out p).last_update_ms)
    × (g.config.dmx_hold_time * 1000 % 2 ^ 32 < sub32 t (g.dmx_out p).last_update_ms)

timed_out-IsSilent : (t : ℕ) (p : Port) (g : Gateway) → IsSilent t p g → timed_out t p g ≡ true
timed_out-IsSilent t p g (came, late) = rw (lt→ltb _ _ came, lt→ltb _ _ late) refl

pub not_silent : (t : ℕ) (p : Port) (g : Gateway) → ¬ IsSilent t p g → timed_out t p g ≡ false
not_silent t p g s = elim (dec_lt 0 (g.dmx_out p).last_update_ms) [
  | no never ↦ rw (ltb-false 0 (g.dmx_out p).last_update_ms (omega arith)) refl
  | yes came ↦
      elim (dec_lt (g.config.dmx_hold_time * 1000 % 2 ^ 32)
        (sub32 t (g.dmx_out p).last_update_ms)) [
          | yes late ↦ absurd (s (came, late))
          | no soon ↦
              let hold = g.config.dmx_hold_time * 1000 % 2 ^ 32 in
              let since = sub32 t (g.dmx_out p).last_update_ms in
              let le : since ≤ hold = omega arith in
              rw (lt→ltb _ _ came, ltb-false hold since le) refl
        ]
]

-- The device is closed, opened, written, closed to start the transmission, and opened again.
abbrev pub transmission : Env → Port → Array 512 → Gateway → List Event
transmission e p frame g =
    let fd = e.open_device g.open_calls in
    opened p (e.open_device (g.open_calls + 1))
    ∷ closed fd
    ∷ wrote fd frame 512
    ∷ opened p fd
    ∷ closed (g.fds p)
    ∷ g.events

-- What a write leaves alone, and the new descriptor.
writes :
    (e : Env) (p : Port) (frame : Array 512) (g : Gateway)
    → is_negative (g.fds p) ≡ false
    → is_negative (e.open_device g.open_calls) ≡ false
    → dmx_tx_write e p frame 512 g ≡ record g {
      open_calls = g.open_calls + 1 + 1;
      fds = set_port g.fds p (e.open_device (g.open_calls + 1));
      events = transmission e p frame g;
    }
unfolding dmx_tx_write open_port close_previous
writes e p frame g a o = rw (a, o) refl

-- Whether or not the device opens, a write changes only descriptors, counts and events.
pub record SameFrames (g g' : Gateway) : Type 0 where
  pub config : g'.config ≡ g.config
  pub dmx_out : g'.dmx_out ≡ g.dmx_out
  pub last_write : g'.last_write ≡ g.last_write
  pub input : KeepsInput g g'

pub writes-SameFrames :
    (e : Env) (p : Port) (frame : Array 512) (g : Gateway)
    → SameFrames g (dmx_tx_write e p frame 512 g)
unfolding dmx_tx_write open_port close_previous
writes-SameFrames e p frame g = elim (Bool-cases (is_negative (g.fds p))) [
  | inl a ↦ elim (Bool-cases (is_negative (e.open_device g.open_calls))) [
    | inl o ↦
        rw (a, o)
          (record {
            config = refl;
            dmx_out = refl;
            last_write = refl;
            input = KeepsInput-same refl refl refl;
          })
    | inr o ↦
        rw (a, o)
          (record {
            config = refl;
            dmx_out = refl;
            last_write = refl;
            input = KeepsInput-same refl refl refl;
          })
  ]
  | inr a ↦ elim (Bool-cases (is_negative (e.open_device g.open_calls))) [
    | inl o ↦
        rw (a, o)
          (record {
            config = refl;
            dmx_out = refl;
            last_write = refl;
            input = KeepsInput-same refl refl refl;
          })
    | inr o ↦
        rw (a, o)
          (record {
            config = refl;
            dmx_out = refl;
            last_write = refl;
            input = KeepsInput-same refl refl refl;
          })
  ]
]

-- A body with nothing to do.
pub idles :
    (e : Env) (t : ℕ) (p : Port) (g : Gateway)
    → (g.dmx_out p).last_update_ms ≤ g.last_write p
    → timed_out t p g ≡ false
    → output_body e t p g ≡ g
unfolding output_body
idles e t p g h k = elim (Bool-cases (is_negative (g.fds p))) [
  | inl a ↦ rw a
  | inr a ↦ elim (Bool-cases ((g.config.ports p).mode == dmx_mode_tx)) [
    | inr b ↦ rw (a, b)
    | inl b ↦ rw (a, b, ltb-false (g.last_write p) (g.dmx_out p).last_update_ms h, k)
  ]
]

pub fresh_step :
    (e : Env) (t : ℕ) (p : Port) (g : Gateway)
    → IsActive p g
    → IsFresh p g
    → output_body e t p g ≡ send_fresh e p g
unfolding output_body
fresh_step e t p g (a, m) f =
    let m' : ((g.config.ports p).mode == dmx_mode_tx) ≡ true = ground arith in
    rw (a, m', lt→ltb (g.last_write p) (g.dmx_out p).last_update_ms f)

silent_step :
    (e : Env) (t : ℕ) (p : Port) (g : Gateway)
    → IsActive p g
    → ¬ IsFresh p g
    → IsSilent t p g
    → output_body e t p g ≡ black_out e p g
unfolding output_body
silent_step e t p g (a, m) f s =
    let m' : ((g.config.ports p).mode == dmx_mode_tx) ≡ true = ground arith in
    rw (
      a,
      m',
      ltb-false (g.last_write p) (g.dmx_out p).last_update_ms (omega arith),
      timed_out-IsSilent t p g s,
    )

dark_events :
    (e : Env) (p : Port) (g : Gateway)
    → IsActive p g
    → is_negative (e.open_device g.open_calls) ≡ false
    → (black_out e p g).events ≡ transmission e p (λ _. 0) g
unfolding black_out
dark_events e p g a o =
    let out = record (g.dmx_out p) { channels = λ _. 0; last_update_ms = 0; priority = 0 } in
    rw (writes e p (λ _. 0) (record g { dmx_out = set_port g.dmx_out p out }) a.0 o) refl

-- What is written, if the device opens.
pub fresh_events :
    (e : Env) (p : Port) (g : Gateway)
    → IsActive p g
    → is_negative (e.open_device g.open_calls) ≡ false
    → (send_fresh e p g).events ≡ transmission e p (g.dmx_out p).channels g
unfolding send_fresh
fresh_events e p g a o =
    let last = (g.dmx_out p).last_update_ms in
    rw
      (writes e p (g.dmx_out p).channels (record g { last_write = set_port g.last_write p last })
        a.0 o)
      refl

fresh_after :
    (e : Env) (p : Port) (g : Gateway)
    → ((send_fresh e p g).config ≡ g.config)
      × ((send_fresh e p g).dmx_out ≡ g.dmx_out)
      × ((send_fresh e p g).last_write p ≡ (g.dmx_out p).last_update_ms)
unfolding send_fresh
fresh_after e p g =
    let last = (g.dmx_out p).last_update_ms in
    let g₁ = record g { last_write = set_port g.last_write p last } in
    let same = writes-SameFrames e p (g.dmx_out p).channels g₁ in
    (same.config, same.dmx_out, rw same.last_write (set_port_self g.last_write p last))

-- A fresh frame is written once: whether or not the device opened, the body does nothing to the
-- port at any later time before the next packet, as long as the source is not silent.
pub output_body_once :
    (e : Env) (t t' : ℕ) (p : Port) (g : Gateway)
    → IsActive p g
    → IsFresh p g
    → ¬ IsSilent t' p g
    → output_body e t' p (output_body e t p g) ≡ output_body e t p g
output_body_once e t t' p g a f s =
    let (config, dmx_out, last_write) = fresh_after e p g in
    rw (fresh_step e t p g a f) (
      idles e t' p (send_fresh e p g) (rw (last_write, dmx_out) (le_refl _))
        (rw (dmx_out, config) (not_silent t' p g s)))

-- The frame of a port whose source is gone.
abbrev pub blacked_out : DmxFrame → DmxFrame
blacked_out out = record out { channels = λ _. 0; last_update_ms = 0; priority = 0 }

dark_after :
    (e : Env) (p : Port) (g : Gateway)
    → (black_out e p g).dmx_out ≡ set_port g.dmx_out p (blacked_out (g.dmx_out p))
unfolding black_out
dark_after e p g =
    (writes-SameFrames e p (λ _. 0)
      (record g { dmx_out = set_port g.dmx_out p (blacked_out (g.dmx_out p)) })).dmx_out

-- When the source of an open, transmitting port has been silent for longer than the hold time and
-- nothing is fresh, its frame becomes zeros with priority 0, the zeros are written to the device if
-- it opens, the other port's frame is unchanged, and at no time before the next packet does the
-- body write to the port again.
pub output_body_blacks_out :
    (e : Env) (t : ℕ) (p : Port) (g : Gateway)
    → IsActive p g
    → ¬ IsFresh p g
    → IsSilent t p g
    → ((output_body e t p g).dmx_out p ≡ blacked_out (g.dmx_out p))
      × ((q : Port) → q ≢ p → (output_body e t p g).dmx_out q ≡ g.dmx_out q)
      × (is_negative (e.open_device g.open_calls) ≡ false
          → (output_body e t p g).events ≡ transmission e p (λ _. 0) g)
      × ((t' : ℕ) → output_body e t' p (output_body e t p g) ≡ output_body e t p g)
output_body_blacks_out e t p g a f s =
    let out = blacked_out (g.dmx_out p) in
    let dark : (black_out e p g).dmx_out p ≡ out =
      rw (dark_after e p g) (set_port_self g.dmx_out p out) in
    rw (silent_step e t p g a f s) (
      dark,
      (λ q h. rw (dark_after e p g) (set_port_other g.dmx_out p q out h)),
      (λ o. dark_events e p g a o),
      (λ t'. idles e t' p (black_out e p g) (rw dark (omega arith)) (rw dark refl)),
    )
