-- ===== src/Sacn/Rx/Accept.antt =====
-- Which packets `sacn_parse` accepts, and what it reads out of them.
use Prim.Native.Nat.{min}
use native.Mathlib.Decide.{dec_lt}
use sn.Base.{
  ◌⊎◌, ◌↔◌, ==_decides, Bool-cases, inl, inr, is_zero, ℕ, ◌+◌, ◌-◌, ◌*◌, ◌^◌, ◌≤◌, ◌<◌, ◌≡◌, refl,
  Bool, true, false, Option, some, Array, ltb, ◌==◌, ==_iff, ℤ, pos, success, failure, arith,
  load_within, memcpy_within, memcmp_within, Agree, not, copied, if◌then◌else◌,
}
use sn.Sacn.{SacnPacket, read_u16_be_within, read_u32_be_within, sacn_acn_identifier}
use sn.Sacn.Rx.{sacn_parse, parse_framing, parse_dmp, clamp_dmx_len}

abbrev pub prop_count : (ℕ → ℕ) → ℕ
prop_count buf = buf 123 * 256 + buf 124

-- What E1.31 asks of a data packet, as far as the receiver looks.
pub record IsDataPacket (buf : ℕ → ℕ) (len : ℕ) : Type 0 where
  pub long_enough : 126 ≤ len
  pub preamble : buf 0 * 256 + buf 1 ≡ 0x10
  pub identifier : Agree buf 4 sacn_acn_identifier 0 12
  pub root_vector : buf 18 * 2 ^ 24 + buf 19 * 2 ^ 16 + buf 20 * 2 ^ 8 + buf 21 ≡ 4
  pub dmp_vector : buf 117 ≡ 2
  pub start_code : 1 ≤ prop_count buf

-- The fields at their offsets; the channels are those announced, present and storable.
pub record Holds (buf : ℕ → ℕ) (len : ℕ) (pkt : SacnPacket) : Type 0 where
  pub cid : (i : ℕ) → i < 16 → pkt.cid i ≡ buf (22 + i)
  pub source_name : (i : ℕ) → i < 63 → pkt.source_name i ≡ buf (44 + i)
  pub terminated : pkt.source_name 63 ≡ 0
  pub priority : pkt.priority ≡ buf 108
  pub sequence : pkt.sequence ≡ buf 111
  pub options : pkt.options ≡ buf 112
  pub universe : pkt.universe ≡ buf 113 * 256 + buf 114
  pub start_code : pkt.start_code ≡ buf 125
  pub dmx_length : pkt.dmx_length ≡ min (prop_count buf - 1) (min 512 (len - 126))
  pub dmx_data : (i : ℕ) → i < pkt.dmx_length → pkt.dmx_data i ≡ buf (126 + i)

clamp_dmx_len-min :
    (count len : ℕ)
    → 126 ≤ len
    → len < 2 ^ 16
    → clamp_dmx_len count len ≡ min (count - 1) (min 512 (len - 126))
unfolding clamp_dmx_len
clamp_dmx_len-min count len h k = ground arith

==-true : (a b : ℕ) → a ≡ b → (a == b) ≡ true
==-true a b h = ground arith

-- The packet after the framing layer, and after the DMP layer.
abbrev framed : (ℕ → ℕ) → SacnPacket → SacnPacket
framed buf pkt = record pkt {
  cid = copied pkt.cid 0 buf 22 16;
  source_name = λ i. if i == 63 then 0 else copied pkt.source_name 0 buf 44 64 i;
  priority = buf 108;
  sequence = buf 111;
  options = buf 112;
  universe = buf 113 * 256 + buf 114;
}

abbrev channel_count : (ℕ → ℕ) → ℕ → ℕ
channel_count buf len = min (prop_count buf - 1) (min 512 (len - 126))

abbrev filled : (ℕ → ℕ) → ℕ → SacnPacket → SacnPacket
filled buf len pkt = record pkt {
  start_code = buf 125;
  dmx_data = copied pkt.dmx_data 0 buf 126 (channel_count buf len);
  dmx_length = channel_count buf len;
}

filled-Holds :
    (buf : ℕ → ℕ) (len : ℕ) (pkt : SacnPacket) → Holds buf len (filled buf len (framed buf pkt))
filled-Holds buf len pkt = record {
  cid = λ i h. ground arith;
  source_name = λ i h. ground arith;
  terminated = refl;
  priority = refl;
  sequence = refl;
  options = refl;
  universe = refl;
  start_code = refl;
  dmx_length = refl;
  dmx_data = λ i h. ground arith;
}

-- The cascade of tests of `sacn_parse`.
abbrev cascade :
    (short preamble order root dmp none_left : Bool) (p q r : SacnPacket) → Option (ℤ × SacnPacket)
cascade short preamble order root dmp none_left p q r =
    if short
    then some (failure, p)
    else if not preamble
    then some (failure, p)
    else if not order
    then some (failure, p)
    else if not root
    then some (failure, p)
    else if not dmp
    then some (failure, q)
    else if none_left
    then some (failure, q)
    else some (success, r)

cascade_fails :
    (short preamble order root dmp none_left : Bool) (p q r : SacnPacket)
    → (short ≡ false
        → preamble ≡ true
        → order ≡ true
        → root ≡ true
        → dmp ≡ true
        → none_left ≡ false
        → ⊥)
    → (x : SacnPacket) × (cascade short preamble order root dmp none_left p q r ≡ some (failure, x))
cascade_fails true b c d e f p q r g = (p, refl)
cascade_fails false false c d e f p q r g = (p, refl)
cascade_fails false true false d e f p q r g = (p, refl)
cascade_fails false true true false e f p q r g = (p, refl)
cascade_fails false true true true false f p q r g = (q, refl)
cascade_fails false true true true true true p q r g = (q, refl)
cascade_fails false true true true true false p q r g = absurd (g refl refl refl refl refl refl)

module _ (n : ℕ) (buf : Array n) (len : ℕ) (pkt : SacnPacket) (fits : len ≤ n) (h : 126 ≤ len)
    (k : len < 2 ^ 16) where
  parse_dmp_runs :
      (p : SacnPacket)
      → parse_dmp n buf len p ≡ (
          if not (buf 117 == 2)
          then some (failure, p)
          else if ltb (prop_count buf) 1
          then some (failure, p)
          else some (success, filled buf len p))
  unfolding parse_dmp
  parse_dmp_runs p =
      rw
        (
          load_within n buf 117 (omega arith),
          read_u16_be_within n buf 123 (omega arith),
          load_within n buf 125 (omega arith),
          clamp_dmx_len-min (prop_count buf) len h k,
          memcpy_within 512 p.dmx_data 0 n buf 126 (channel_count buf len) (omega arith)
              (omega arith),
        )
        refl

  parse_framing_runs : parse_framing n buf len pkt ≡ parse_dmp n buf len (framed buf pkt)
  unfolding parse_framing
  parse_framing_runs =
      rw
        (
          memcpy_within 16 pkt.cid 0 n buf 22 16 (omega arith) (omega arith),
          memcpy_within 64 pkt.source_name 0 n buf 44 64 (omega arith) (omega arith),
          load_within n buf 108 (omega arith),
          load_within n buf 111 (omega arith),
          load_within n buf 112 (omega arith),
          read_u16_be_within n buf 113 (omega arith),
        )
        refl

  -- An accepted packet.
  accepts :
      IsDataPacket buf len
      → sacn_parse n buf (pos len) pkt ≡ some (success, filled buf len (framed buf pkt))
  unfolding sacn_parse
  accepts g =
      let (order, runs, same) =
        memcmp_within n buf 4 12 sacn_acn_identifier 0 12 (omega arith) (omega arith) in
      rw
        (
          read_u16_be_within n buf 0 (omega arith),
          runs,
          read_u32_be_within n buf 18 (omega arith),
          parse_framing_runs,
          parse_dmp_runs (framed buf pkt),
        )
        (ground (arith, same.1 g.identifier))

  -- Any other packet of at least 126 bytes.
  rejects :
      ¬ IsDataPacket buf len
      → (pkt' : SacnPacket) × (sacn_parse n buf (pos len) pkt ≡ some (failure, pkt'))
  unfolding sacn_parse
  rejects g =
      let (order, runs, same) =
        memcmp_within n buf 4 12 sacn_acn_identifier 0 12 (omega arith) (omega arith) in
      rw
        (
          read_u16_be_within n buf 0 (omega arith),
          runs,
          read_u32_be_within n buf 18 (omega arith),
          parse_framing_runs,
          parse_dmp_runs (framed buf pkt),
        )
        (cascade_fails _ _ _ _ _ _ pkt (framed buf pkt) (filled buf len (framed buf pkt))
          λ b₁ b₂ b₃ b₄ b₅ b₆. g (record {
            long_enough = h;
            preamble = (==_iff _ _).0 b₂;
            identifier = same.0 b₃;
            root_vector = (==_iff _ _).0 b₄;
            dmp_vector = (==_iff _ _).0 b₅;
            start_code = ground arith;
          }))

sacn_parse_short :
    (n : ℕ) (buf : Array n) (len : ℕ) (pkt : SacnPacket)
    → len < 126
    → sacn_parse n buf (pos len) pkt ≡ some (failure, pkt)
unfolding sacn_parse
sacn_parse_short n buf len pkt h = ground arith

-- From a buffer that holds the `len` bytes, with len below 65536, `sacn_parse` accepts every packet
-- that is an E1.31 data packet, reads each field at its offset and copies
-- min(count - 1, 512, len - 126) channels.
pub sacn_parse-Holds :
    (n : ℕ) (buf : Array n) (len : ℕ) (pkt : SacnPacket)
    → len ≤ n
    → len < 2 ^ 16
    → IsDataPacket buf len
    → (pkt' : SacnPacket) × (sacn_parse n buf (pos len) pkt ≡ some (success, pkt'))
      × Holds buf len pkt'
sacn_parse-Holds n buf len pkt fits k g = (
  filled buf len (framed buf pkt),
  accepts n buf len pkt fits g.long_enough k g,
  filled-Holds buf len pkt,
)

-- Anything that lacks one of the six is refused.
pub sacn_parse_rejects :
    (n : ℕ) (buf : Array n) (len : ℕ) (pkt : SacnPacket)
    → len ≤ n
    → len < 2 ^ 16
    → ¬ IsDataPacket buf len
    → (pkt' : SacnPacket) × (sacn_parse n buf (pos len) pkt ≡ some (failure, pkt'))
sacn_parse_rejects n buf len pkt fits k g = elim (dec_lt len 126) [
  | yes short ↦ (pkt, sacn_parse_short n buf len pkt short)
  | no long ↦ rejects n buf len pkt fits (omega arith) k g
]

identifier_decides : (buf : ℕ → ℕ) → Dec (Agree buf 4 sacn_acn_identifier 0 12)
identifier_decides buf =
    let (order, _, same) =
      memcmp_within 16 buf 4 12 sacn_acn_identifier 0 12 (omega arith) (omega arith) in
    elim (Bool-cases (is_zero order)) [
      | inl e ↦ yes (same.0 e)
      | inr e ↦ no (λ h. absurd (cc (e, same.1 h)))
    ]

-- Whether a datagram is a data packet is decided.
pub IsDataPacket_dec : (buf : ℕ → ℕ) (len : ℕ) → Dec (IsDataPacket buf len)
IsDataPacket_dec buf len = elim (dec_lt len 126) [
  | yes short ↦ no (λ g. absurd (omega (arith, g.long_enough)))
  | no long ↦ elim (==_decides (buf 0 * 256 + buf 1) 0x10) [
    | no x ↦ no (λ g. x g.preamble)
    | yes preamble ↦ elim (identifier_decides buf) [
      | no x ↦ no (λ g. x g.identifier)
      | yes identifier ↦
          elim (==_decides (buf 18 * 2 ^ 24 + buf 19 * 2 ^ 16 + buf 20 * 2 ^ 8 + buf 21) 4) [
            | no x ↦ no (λ g. x g.root_vector)
            | yes root_vector ↦ elim (==_decides (buf 117) 2) [
              | no x ↦ no (λ g. x g.dmp_vector)
              | yes dmp_vector ↦ elim (dec_lt (prop_count buf) 1) [
                | yes x ↦ no (λ g. absurd (omega (arith, g.start_code)))
                | no start ↦ yes (record {
                  long_enough = omega arith;
                  preamble = preamble;
                  identifier = identifier;
                  root_vector = root_vector;
                  dmp_vector = dmp_vector;
                  start_code = omega arith;
                })
              ]
            ]
          ]
    ]
  ]
]

-- From a buffer that holds the `len` bytes, with len below 65536, `sacn_parse` returns, with no
-- access out of bounds, 0 exactly if there are 126 bytes, the preamble size is 16, the ACN
-- identifier stands at byte 4, the root vector is 4, the DMP vector is 2 and the property count is 1
-- or more, and else -1; the framing vector and the lengths of the layers make no difference to it.
pub sacn_parse_decides :
    (n : ℕ) (buf : Array n) (len : ℕ) (pkt : SacnPacket)
    → len ≤ n
    → len < 2 ^ 16
    → (rc : ℤ) × (pkt' : SacnPacket) × (sacn_parse n buf (pos len) pkt ≡ some (rc, pkt'))
      × ((rc ≡ success) ⊎ (rc ≡ failure))
      × ((rc ≡ success) ↔ (
          (126 ≤ len)
          × (buf 0 * 256 + buf 1 ≡ 16)
          × Agree buf 4 sacn_acn_identifier 0 12
          × (buf 18 * 2 ^ 24 + buf 19 * 2 ^ 16 + buf 20 * 2 ^ 8 + buf 21 ≡ 4)
          × (buf 117 ≡ 2)
          × (1 ≤ buf 123 * 256 + buf 124)))
sacn_parse_decides n buf len pkt fits k = elim (IsDataPacket_dec buf len) [
  | yes g ↦
      let (pkt', run, _) = sacn_parse-Holds n buf len pkt fits k g in
      (
        success,
        pkt',
        run,
        inl refl,
        (
          (λ _.
              (g.long_enough, g.preamble, g.identifier, g.root_vector, g.dmp_vector, g.start_code)),
          (λ _. refl),
        ),
      )
  | no x ↦
      let (pkt', run) = sacn_parse_rejects n buf len pkt fits k x in
      (
        failure,
        pkt',
        run,
        inr refl,
        (
          (λ e. absurd (cc e)),
          (λ (long, preamble, identifier, root, dmp, start). absurd (
              x (record {
                long_enough = long;
                preamble = preamble;
                identifier = identifier;
                root_vector = root;
                dmp_vector = dmp;
                start_code = start;
              }))),
        ),
      )
]
