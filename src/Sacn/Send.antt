-- ===== src/Sacn/Send.antt =====
-- What `sacn_tx_send` hands to the network.
use Prim.Native.Nat.{min}
use sn.Base.{
  ℕ, ◌+◌, ◌*◌, ◌/◌, ◌%◌, ◌^◌, ◌≤◌, ◌<◌, ◌≡◌, refl, true, false, some, Array, ℤ, pos, success,
  failure, is_negative, arith,
}
use sn.Sacn.{SacnPacket, htons, sacn_multicast_addr}
use sn.Sacn.Tx.{SacnTx, Datagram, sacn_tx_send, after_sendto}
use sn.Sacn.Rx.{sacn_parse}
use sn.Sacn.RoundTrip.{Carries, sacn_parse-build}

-- The datagram goes to 239.255.hi.lo, port 5568, in network byte order, and is read back as what
-- the transmitter held.
pub record Delivers (tx : SacnTx) (m : ℕ) (frame : Array m) (c : ℕ) (pkt : SacnPacket)
    (d : Datagram) : Type 0 where
  pub group : (d.address % 256 ≡ 239) × (d.address / 2 ^ 8 % 256 ≡ 255)
  pub universe : (d.address / 2 ^ 16 % 256) * 256 + d.address / 2 ^ 24 % 256 ≡ tx.universe
  pub port : d.port % 256 * 256 + d.port / 256 ≡ 5568
  pub readable :
      (pkt' : SacnPacket) × (sacn_parse 638 d.payload (pos d.size) pkt ≡ some (success, pkt'))
      × Carries tx m frame c pkt'

-- The counter moves on, modulo 256, exactly if the datagram was sent.
pub record Reports (tx : SacnTx) (sent : ℤ) (rc : ℤ) (tx' : SacnTx) : Type 0 where
  pub on_error : is_negative sent ≡ true → (rc ≡ failure) × (tx' ≡ tx)
  pub on_success :
      is_negative sent ≡ false
      → (rc ≡ success) × (tx' ≡ record tx { sequence = (tx.sequence + 1) % 256 })

address_bytes :
    (u : ℕ)
    → u < 2 ^ 16
    → (sacn_multicast_addr u % 256 ≡ 239)
      × (sacn_multicast_addr u / 2 ^ 8 % 256 ≡ 255)
      × (sacn_multicast_addr u / 2 ^ 16 % 256 * 256 + sacn_multicast_addr u / 2 ^ 24 % 256 ≡ u)
unfolding sacn_multicast_addr
address_bytes u h = (omega arith, omega arith, omega arith)

reports :
    (tx : SacnTx) (sent : ℤ) → Reports tx sent (after_sendto tx sent).0 (after_sendto tx sent).1
unfolding after_sendto
reports tx sent = record { on_error = λ e. rw e (refl, refl); on_success = λ e. rw e (refl, refl) }

-- From an array of at least min(dmx_len, 512) channels, for a 16-bit universe, one datagram is
-- handed to `sendto`, whatever the stack holds: for the multicast group of the universe, and
-- readable by `sacn_parse` as the channels and the transmitter's fields. The result is 0 and the
-- sequence number grows by 1 modulo 256 if `sendto` gives no error; otherwise the result is -1 and
-- the transmitter is unchanged.
pub sacn_tx_send-Delivers :
    (tx : SacnTx) (m : ℕ) (frame : Array m) (dmx_len : ℕ) (stack : Array 638) (sent : ℤ)
    (pkt : SacnPacket)
    → min dmx_len 512 ≤ m
    → tx.universe < 2 ^ 16
    → (rc : ℤ) × (tx' : SacnTx) × (d : Datagram) × (sacn_tx_send tx m frame dmx_len stack sent
        ≡ some (rc, tx', some d))
      × Reports tx sent rc tx'
      × Delivers tx m frame (min dmx_len 512) pkt d
unfolding sacn_tx_send
sacn_tx_send-Delivers tx m frame dmx_len stack sent pkt fits small =
    let (len, buf, pkt', built, parsed, carried) =
      sacn_parse-build tx m frame dmx_len stack pkt fits in
    let (a, b, c) = address_bytes tx.universe small in
    rw built (
      _,
      _,
      _,
      refl,
      reports tx sent,
      record {
        group = (a, b);
        universe = c;
        port = unfold htons in refl;
        readable = (pkt', parsed, carried);
      },
    )
