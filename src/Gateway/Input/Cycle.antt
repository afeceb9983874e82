-- ===== src/Gateway/Input/Cycle.antt =====
-- When `dmx_input_cycle` sends a datagram for a port, and what it sends.
use sn.Base.{
  ℕ, ◌+◌, ◌^◌, ◌↔◌, ◌≤◌, ◌<◌, ◌≡◌, ◌≢◌, ◌⊎◌, inl, inr, refl, ap, Bool, true, false, ◌&&◌, some,
  Array, copied, memcmp_within, Agree, ltb, lt→ltb, ltb→lt, ◌==◌, ==_iff, ℤ, pos, negsuc, is_zero,
  is_negative, arith, Bool-cases,
}
use sn.Common.{Port, set_port, DmxFrame, dmx_mode_rx}
use sn.Sacn.{SacnPacket}
use sn.Gateway.{Env, Gateway, sub32, inc32}
use sn.Gateway.Handlers.Effect.{fits-memcpy, set_port_self, set_port_other}
use sn.Gateway.Input.{keep_alive, is_unchanged, new_frame, dispatch_read, input_body}
use sn.Gateway.Input.Send.{SendsOne, KeepsFrames, Restarts, send_port_sends}

-- The port is open, receives, and has a transmitter for a 16-bit universe.
pub record IsReceiving (p : Port) (g : Gateway) : Type 0 where
  pub is_open : is_negative (g.fds p) ≡ false
  pub mode : (g.config.ports p).mode ≡ 2
  pub transmitter : g.sacn_tx_active p ≡ true
  pub universe : (g.sacn_tx p).universe < 2 ^ 16

-- A send leaves a receiving port receiving.
IsReceiving-kept :
    (p : Port) (g g' : Gateway) → IsReceiving p g → KeepsFrames g g' → IsReceiving p g'
IsReceiving-kept p g g' r k = record {
  is_open = rw k.fds r.is_open;
  mode = rw k.config r.mode;
  transmitter = rw k.sacn_tx_active r.transmitter;
  universe = rw (k.universe p) r.universe;
}

-- The milliseconds since the last datagram of the port that the network took.
abbrev pub elapsed : ℕ → Port → Gateway → ℕ
elapsed t p g = sub32 t (g.dmx_in_last_send p)

-- The state after the device was read.
abbrev after_read : ℤ → Gateway → Gateway
after_read n g = record g { read_calls = g.read_calls + 1; dmx_in_last_read = n }

IsReceiving-read :
    (p : Port) (n : ℤ) (g : Gateway) → IsReceiving p g → IsReceiving p (after_read n g)
IsReceiving-read p n g r = record {
  is_open = r.is_open;
  mode = r.mode;
  transmitter = r.transmitter;
  universe = r.universe;
}

receiving_step :
    (e : Env) (t : ℕ) (p : Port) (g : Gateway) (n : ℤ) (frame : Array 512)
    → IsReceiving p g
    → e.read_frame g.read_calls ≡ (n, frame)
    → input_body e t p g ≡ dispatch_read e t p n frame (after_read n g)
unfolding input_body
receiving_step e t p g n frame r read =
    let mode' : ((g.config.ports p).mode == dmx_mode_rx) ≡ true = (==_iff _ _).1 r.mode in
    rw (r.is_open, mode', r.transmitter, read) refl

-- The same channels were read last, and a datagram was taken lately.
abbrev pub IsRepeat : ℕ → Port → ℕ → Array 512 → Gateway → Type 0
IsRepeat t p n frame g =
    (n ≡ (g.dmx_in p).length) × Agree frame 0 (g.dmx_in p).channels 0 n × (elapsed t p g < 900)

both : (a b : Bool) → ((a && b) ≡ true) ↔ ((a ≡ true) × (b ≡ true))
both true b = ((λ h. (refl, h)), (λ h. h.1))
both false b = ((λ h. absurd (cc h)), (λ h. absurd (cc h.0)))

pub is_unchanged_decides :
    (t : ℕ) (p : Port) (frame : Array 512) (n : ℕ) (g : Gateway)
    → n ≤ 512
    → (b : Bool) × (is_unchanged t p frame n g ≡ some b) × ((b ≡ true) ↔ IsRepeat t p n frame g)
unfolding is_unchanged
is_unchanged_decides t p frame n g h = elim (Bool-cases (n == (g.dmx_in p).length)) [
  | inr differ ↦ rw differ (
    false,
    refl,
    ((λ x. absurd (cc x)), (λ (same, _, _). absurd (cc (differ, (==_iff _ _).1 same)))),
  )
  | inl same ↦
      let (order, runs, agree) =
        memcmp_within 512 frame 0 512 (g.dmx_in p).channels 0 n (omega arith) (omega arith) in
      rw (same, runs)
        (
          is_zero order && ltb (elapsed t p g) 900,
          refl,
          (
            (λ x.
                let (zero, soon) = (both (is_zero order) (ltb (elapsed t p g) 900)).0 x in
                ((==_iff _ _).0 same, agree.0 zero, ltb→lt _ _ soon)),
            (λ (_, as_before, soon).
                (both (is_zero order) (ltb (elapsed t p g) 900)).1
                  (agree.1 as_before, lt→ltb _ _ soon)),
          ),
        )
]

abbrev pub received : DmxFrame → Array 512 → ℕ → ℕ → DmxFrame
received old frame n t = record old {
  channels = copied old.channels 0 frame 0 n;
  length = n;
  last_update_ms = t;
}

copied_start :
    (old frame : Array 512) (n k : ℕ) → k < n → copied old 0 frame 0 n (0 + k) ≡ frame (0 + k)
copied_start old frame n k h = ground arith

-- There is a stored frame, and the keep-alive interval is over.
abbrev pub IsDue : ℕ → Port → Gateway → Type 0
IsDue t p g = (0 < (g.dmx_in p).length) × (900 < elapsed t p g)

pub nothing_read :
    (e : Env) (t : ℕ) (p : Port) (n : ℤ) (frame : Array 512) (g : Gateway)
    → (n ≡ pos 0) ⊎ (is_negative n ≡ true)
    → dispatch_read e t p n frame g ≡ keep_alive e t p g
unfolding dispatch_read
nothing_read e t p (negsuc _) frame g h = refl
nothing_read e t p (pos n) frame g (inl h) = let z : n ≡ 0 = cc h in rw z refl
nothing_read e t p (pos n) frame g (inr h) = absurd (cc h)

-- On a receiving port, a frame of 1 to 512 channels is stored and handed to the network, as one
-- datagram that carries those channels, and the keep-alive interval of the port, of no other, begins
-- at t if the network takes it and stays if not; unless the stored frame has the same channels and
-- the network took a datagram of the port less than 900 ms ago: then neither the stored frames nor
-- the intervals nor the record of what was sent change. In both cases the port goes on receiving.
pub input_body_forwards :
    (e : Env) (t : ℕ) (p : Port) (g : Gateway) (n : ℕ) (frame : Array 512) (pkt : SacnPacket)
    → IsReceiving p g
    → e.read_frame g.read_calls ≡ (pos n, frame)
    → 0 < n
    → n ≤ 512
    → (g' : Gateway) × (input_body e t p g ≡ some g')
      × IsReceiving p g'
      × (IsRepeat t p n frame g
          → (g'.dmx_in ≡ g.dmx_in)
            × (g'.dmx_in_last_send ≡ g.dmx_in_last_send)
            × (g'.events ≡ g.events))
      × (¬ IsRepeat t p n frame g
          → SendsOne (g.sacn_tx p) frame n pkt g.events g'.events
            × Restarts e t p g g'
            × ((g'.dmx_in p).length ≡ n)
            × Agree (g'.dmx_in p).channels 0 frame 0 n
            × ((g'.dmx_in p).last_update_ms ≡ t)
            × ((q : Port) → q ≢ p → g'.dmx_in q ≡ g.dmx_in q))
unfolding dispatch_read new_frame
input_body_forwards e t p g n frame pkt r read some_read fits =
    let (b, decided, repeat) = is_unchanged_decides t p frame n (after_read (pos n) g) fits in
    rw (receiving_step e t p g (pos n) frame r read, lt→ltb 0 n some_read, decided)
      (elim (Bool-cases b) [
        | inl same ↦ rw same (
          after_read (pos n) g,
          refl,
          IsReceiving-read p (pos n) g r,
          (λ _. (refl, refl, refl)),
          (λ h. absurd (h (repeat.0 same))),
        )
        | inr differs ↦
            rw (differs, fits-memcpy (g.dmx_in p) frame n fits)
              (let new = received (g.dmx_in p) frame n t in
                let (g', run, one, kept, restarts) =
                  send_port_sends e t p frame n pkt
                    (record (after_read (pos n) g) { dmx_in = set_port g.dmx_in p new }) fits
                    r.universe in
                let stored : g'.dmx_in p ≡ new = rw kept.dmx_in (set_port_self g.dmx_in p new) in
                (
                  g',
                  run,
                  IsReceiving-kept p
                      (record (after_read (pos n) g) { dmx_in = set_port g.dmx_in p new }) g'
                      (record {
                        is_open = r.is_open;
                        mode = r.mode;
                        transmitter = r.transmitter;
                        universe = r.universe;
                      })
                      kept,
                  (λ x. absurd (cc (differs, repeat.1 x))),
                  (λ _. (
                    one,
                    record {
                      on_success = restarts.on_success;
                      on_error = restarts.on_error;
                      others = restarts.others;
                    },
                    ap DmxFrame.length stored,
                    (λ k lt. rw stored (copied_start (g.dmx_in p).channels frame n k lt)),
                    ap DmxFrame.last_update_ms stored,
                    (λ q h. rw kept.dmx_in (set_port_other g.dmx_in p q new h)),
                  )),
                ))
      ])

-- On a receiving port that has nothing to read, or whose read fails, the stored frames stay, and
-- the stored frame of the port is handed to the network again, as one datagram, exactly if it has
-- channels and more than 900 ms have passed since the network took the last one; the keep-alive
-- interval of the port, of no other, then begins at t if the network takes it and stays if not.
-- Otherwise neither the intervals nor the record of what was sent change.
pub input_body_repeats :
    (e : Env) (t : ℕ) (p : Port) (g : Gateway) (n : ℤ) (frame : Array 512) (pkt : SacnPacket)
    → IsReceiving p g
    → e.read_frame g.read_calls ≡ (n, frame)
    → ((n ≡ pos 0) ⊎ (is_negative n ≡ true))
    → (g.dmx_in p).length ≤ 512
    → (g' : Gateway) × (input_body e t p g ≡ some g')
      × (g'.dmx_in ≡ g.dmx_in)
      × (IsDue t p g
          → SendsOne (g.sacn_tx p) (g.dmx_in p).channels (g.dmx_in p).length pkt g.events g'.events
            × Restarts e t p g g')
      × (¬ IsDue t p g → (g'.events ≡ g.events) × (g'.dmx_in_last_send ≡ g.dmx_in_last_send))
unfolding keep_alive
input_body_repeats e t p g n frame pkt r read nothing fits =
    rw (receiving_step e t p g n frame r read, nothing_read e t p n frame (after_read n g) nothing)
      (elim (Bool-cases (ltb 0 (g.dmx_in p).length && ltb 900 (elapsed t p g))) [
        | inl due ↦ rw due (
            let (g', run, one, kept, restarts) =
              send_port_sends e t p (g.dmx_in p).channels (g.dmx_in p).length pkt
                (record (after_read n g) { dmx_in_zero_count = inc32 g.dmx_in_zero_count }) fits
                r.universe in
            (
              g',
              run,
              kept.dmx_in,
              (λ _. (
                one,
                record {
                  on_success = restarts.on_success;
                  on_error = restarts.on_error;
                  others = restarts.others;
                },
              )),
              (λ h. absurd (h (due_iff.0 due))),
            ))
        | inr later ↦
            rw later (_, refl, refl, (λ h. absurd (cc (later, due_iff.1 h))), (λ _. (refl, refl)))
      ])
  where
    due_iff : ((ltb 0 (g.dmx_in p).length && ltb 900 (elapsed t p g)) ≡ true) ↔ IsDue t p g
    due_iff = (
      (λ x. let (a, b) = (both _ _).0 x in (ltb→lt _ _ a, ltb→lt _ _ b)),
      (λ (a, b). (both _ _).1 (lt→ltb _ _ a, lt→ltb _ _ b)),
    )
