-- ===== src/Dmx/RoundTrip.antt =====
-- What is put into a device of a host build is read from it.
use Prim.Native.Nat.{min}
use sn.Base.{
  negsuc, ap, sym, ◌∙◌, Bool-cases, inl, inr, ==_iff, ℕ, ◌+◌, ◌-◌, ◌≤◌, ◌<◌, ◌≡◌, refl, true, false,
  some, Array, memcpy_within, copied, Agree, ltb, ◌==◌, if◌then◌else◌, ℤ, pos, arith,
}
use sn.Dmx.{
  MockPorts, MockPort, set_mock, mock_index, mock_dmx_inject_rx, dmx_mock_read_frame,
  clamp_frame_len,
}

clamp_frame_len-min : (len : ℕ) → clamp_frame_len len ≡ min len 512
clamp_frame_len-min len = ground arith

copied_agree :
    (dst mid src : ℕ → ℕ) (len k : ℕ)
    → k < len
    → copied dst 0 (copied mid 0 src 0 len) 0 len (0 + k) ≡ src (0 + k)
copied_agree dst mid src len k h = ground arith

-- Only whether ports are open matters to the test.
mock_index-same :
    (fd : ℤ) (ports ports' : MockPorts)
    → ((i : ℕ) → (ports' i).in_use ≡ (ports i).in_use)
    → mock_index fd ports' ≡ mock_index fd ports
unfolding mock_index
mock_index-same (negsuc _) ports ports' h = refl
mock_index-same (pos fd) ports ports' h = rw (h (fd - 100)) refl

set_mock-in_use :
    (ports : MockPorts) (idx : ℕ) (v : MockPort)
    → v.in_use ≡ (ports idx).in_use
    → (i : ℕ) → (set_mock ports idx v i).in_use ≡ (ports i).in_use
set_mock-in_use ports idx v h i = elim (Bool-cases (i == idx)) [
  | inl e ↦ rw e (h ∙ ap (λ k. (ports k).in_use) (sym ((==_iff i idx).0 e)))
  | inr e ↦ rw e refl
]

set_mock_self : (ports : MockPorts) (idx : ℕ) (v : MockPort) → set_mock ports idx v idx ≡ v
set_mock_self ports idx v = let e : (idx == idx) ≡ true = (==_iff idx idx).1 refl in rw e refl

-- The port after an injection.
abbrev injected : MockPort → (m : ℕ) → Array m → ℕ → MockPort
injected port m frame c = record port { rx_buf = copied port.rx_buf 0 frame 0 c; rx_len = c }

injects :
    (fd : ℤ) (idx m len : ℕ) (frame : Array m) (ports : MockPorts)
    → mock_index fd ports ≡ some idx
    → min len 512 ≤ m
    → mock_dmx_inject_rx fd m frame len ports
      ≡ some (set_mock ports idx (injected (ports idx) m frame (min len 512)))
unfolding mock_dmx_inject_rx
injects fd idx m len frame ports is_open fits =
    rw
      (
        mock_dmx_inject_rx,
        is_open,
        clamp_frame_len-min len,
        memcpy_within 512 (ports idx).rx_buf 0 m frame 0 (min len 512) (omega arith) (omega arith),
      )
      refl

reads :
    (fd : ℤ) (idx c : ℕ) (port : MockPort) (out : Array 512) (ports : MockPorts)
    → mock_index fd ports ≡ some idx
    → ports idx ≡ port
    → port.rx_len ≡ c
    → 0 < c
    → c ≤ 512
    → dmx_mock_read_frame fd 512 out 512 ports ≡ some (pos c, copied out 0 port.rx_buf 0 c)
unfolding dmx_mock_read_frame
reads fd idx c port out ports is_open same count some_channel fits =
    let nonempty : (c == 0) ≡ false = ground arith in
    let len : (if ltb c 512 then c else 512) ≡ c = ground arith in
    rw
      (
        dmx_mock_read_frame,
        is_open,
        same,
        count,
        nonempty,
        len,
        memcpy_within 512 out 0 512 port.rx_buf 0 c (omega arith) (omega arith),
      )
      refl

-- A frame of at least one channel that is injected into an open port is what the next read with
-- room for 512 bytes gives: min(len, 512) channels, equal to the frame's.
pub dmx_mock_read_frame-inject :
    (fd : ℤ) (idx m len : ℕ) (frame : Array m) (out : Array 512) (ports : MockPorts)
    → mock_index fd ports ≡ some idx
    → 0 < len
    → min len 512 ≤ m
    → (ports' : MockPorts) × (mock_dmx_inject_rx fd m frame len ports ≡ some ports')
      × (out' : Array 512) × (dmx_mock_read_frame fd 512 out 512 ports'
          ≡ some (pos (min len 512), out'))
      × Agree out' 0 frame 0 (min len 512)
dmx_mock_read_frame-inject fd idx m len frame out ports is_open some_channel fits =
    let c = min len 512 in
    let port = injected (ports idx) m frame c in
    let ports' = set_mock ports idx port in
    let still : mock_index fd ports' ≡ some idx =
      mock_index-same fd ports ports' (set_mock-in_use ports idx port refl) ∙ is_open in
    (
      ports',
      injects fd idx m len frame ports is_open fits,
      copied out 0 port.rx_buf 0 c,
      reads fd idx c port out ports' still (set_mock_self ports idx port) refl (omega arith)
          (omega arith),
      (λ k h. copied_agree out (ports idx).rx_buf frame c k h),
    )
