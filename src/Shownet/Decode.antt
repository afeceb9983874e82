-- ===== src/Shownet/Decode.antt =====
-- The decoder computes `rle`, cut at the size of its output.
use native.Mathlib.Decide.{dec_lt, ℕ_discrete}
use native.Mathlib.Nat.{le_refl}
use sn.Base.{
  ℕ, zero, suc, ◌+◌, ◌≤◌, ◌<◌, ◌≡◌, refl, ap, sym, lt→ltb, stored, store_within, ◌⊎◌, ◌≢◌, inl, inr,
  ◌∙◌, false, some, ◌∷◌, ◌++◌, Array, load_within, ltb, ◌&&◌, arith, length, take, replicate, slice,
  length-slice, take-take-append, ◌==◌, ◌>>=◌,
}
use mathlib.Core.List.{append_assoc}
use sn.Shownet.Rle.{
  rle, rle_literal, rle_run, slice_full, slice_rest, slice_next, Output, fill_appends,
}
use sn.Shownet.{fill, decode_loop, shownet_decode_rle}

-- The rounds of the outer loop.
module _ (n : ℕ) (enc : Array n) (base len m max : ℕ) (inside : base + len ≤ n)
    (room : max ≤ m) where
  loop_stop :
      (fuel at out : ℕ) (dec : Array m)
      → (len ≤ at) ⊎ (max ≤ out)
      → decode_loop n enc base len m max (suc fuel) at out dec ≡ some (out, dec)
  unfolding decode_loop
  loop_stop fuel at out dec h = ground arith

  loop_literal :
      (fuel at out : ℕ) (dec : Array m)
      → at < len
      → out < max
      → (enc (base + at) ≢ 0x80) ⊎ (len ≤ at + 2)
      → decode_loop n enc base len m max (suc fuel) at out dec
        ≡ decode_loop n enc base len m max fuel
            (at + 1)
            (out + 1)
            (stored dec out (enc (base + at)))
  unfolding decode_loop
  loop_literal fuel at out dec h k l =
      let b = enc (base + at) in
      let c : (b == 0x80 && ltb (at + 1 + 1) len) ≡ false = ground arith in
      rw
        (
          lt→ltb at len h,
          lt→ltb out max k,
          load_within n enc (base + at) (omega arith),
          decode_loop,
        )
        (rw (c, ◌>>=◌) (rw (store_within m dec out b (omega arith), ◌>>=◌)))

  loop_run :
      (fuel at out : ℕ) (dec : Array m) (out' : ℕ) (dec' : Array m)
      → at + 2 < len
      → out < max
      → enc (base + at) ≡ 0x80
      → fill m (enc (base + (at + 1))) (enc (base + (at + 2))) max out dec ≡ some (out', dec')
      → decode_loop n enc base len m max (suc fuel) at out dec
        ≡ decode_loop n enc base len m max fuel (at + 3) out' dec'
  unfolding decode_loop
  loop_run fuel at out dec out' dec' h k l runs =
      rw
        (
          lt→ltb at len (omega arith),
          lt→ltb out max k,
          load_within n enc (base + at) (omega arith),
          l,
          lt→ltb (at + 1 + 1) len (omega arith),
          load_within n enc (base + (at + 1)) (omega arith),
          load_within n enc (base + (at + 2)) (omega arith),
          runs,
          decode_loop,
        )
        refl

  -- A round followed by the output of the rounds after it.
  decodes_literal :
      (fuel rest at out : ℕ) (dec : Array m)
      → at + suc rest ≡ len
      → out < max
      → (enc (base + at) ≢ 0x80) ⊎ (rest ≤ 1)
      → Output max m
          (stored dec out (enc (base + at)))
          (out + 1)
          (rle (slice enc (base + (at + 1)) rest))
          (decode_loop n enc base len m max fuel
            (at + 1)
            (out + 1)
            (stored dec out (enc (base + at))))
      → Output max m dec out
          (rle (slice enc (base + at) (suc rest)))
          (decode_loop n enc base len m max (suc fuel) at out dec)
  decodes_literal fuel rest at out dec k lt lit (out', dec', runs, le, eq) =
      let b = enc (base + at) in
      let e : base + (at + 1) ≡ base + at + 1 = omega arith in
      let bytes = slice enc (base + at + 1) rest in
      let size = length-slice enc (base + at + 1) rest in
      let lit' : (b ≢ 0x80) ⊎ (length bytes ≤ 1) = rw size lit in
      (
        out',
        dec',
        loop_literal fuel at out dec (omega arith) lt (ground arith) ∙ runs,
        le,
        eq
            ∙ ap (take max) (
                slice_next dec out b (rle (slice enc (base + (at + 1)) rest))
                ∙ ap (λ l. slice dec 0 out ++ l)
                    (ap (λ i. b ∷ rle (slice enc i rest)) e ∙ sym (rle_literal b bytes lit'))),
      )

  decodes_run :
      (fuel rest at out : ℕ) (dec : Array m) (out' : ℕ) (dec' : Array m)
      → at + suc (suc (suc rest)) ≡ len
      → out < max
      → enc (base + at) ≡ 0x80
      → fill m (enc (base + (at + 1))) (enc (base + (at + 2))) max out dec ≡ some (out', dec')
      → slice dec' 0 out'
        ≡ take max (slice dec 0 out ++ replicate (enc (base + (at + 1))) (enc (base + (at + 2))))
      → Output max m dec' out'
          (rle (slice enc (base + (at + 3)) rest))
          (decode_loop n enc base len m max fuel (at + 3) out' dec')
      → Output max m dec out
          (rle (slice enc (base + at) (suc (suc (suc rest)))))
          (decode_loop n enc base len m max (suc fuel) at out dec)
  decodes_run fuel rest at out dec out' dec' k lt run filled first (out'', dec'', runs, le, eq) =
      let c = enc (base + (at + 1)) in
      let v = enc (base + (at + 2)) in
      let R = rle (slice enc (base + (at + 3)) rest) in
      let p : base + (at + 1) ≡ base + at + 1 = omega arith in
      let q : base + (at + 2) ≡ base + at + 1 + 1 = omega arith in
      let r : base + (at + 3) ≡ base + at + 1 + 1 + 1 = omega arith in
      let bytes : slice enc (base + at) (suc (suc (suc rest)))
          ≡ 0x80 ∷ c ∷ v ∷ slice enc (base + (at + 3)) rest =
        ground (arith, p, q, r) in
      (
        out'',
        dec'',
        loop_run fuel at out dec out' dec' (omega arith) lt run filled ∙ runs,
        le,
        eq
            ∙ ap (λ l. take max (l ++ R)) first
            ∙ take-take-append max (slice dec 0 out ++ replicate c v) R
            ∙ ap (take max) (
                append_assoc (slice dec 0 out) (replicate c v) R
                ∙ ap (λ l. slice dec 0 out ++ l) (sym (ap rle bytes ∙ rle_run c v _))),
      )

  -- One round, with what the later rounds give.
  more :
      (fuel rest at out : ℕ) (dec : Array m)
      → rest < fuel
      → at + suc rest ≡ len
      → out < max
      → ((r a o : ℕ) (d : Array m)
          → r < fuel
          → a + r ≡ len
          → o ≤ max
          → Output max m d o
              (rle (slice enc (base + a) r))
              (decode_loop n enc base len m max fuel a o d))
      → Output max m dec out
          (rle (slice enc (base + at) (suc rest)))
          (decode_loop n enc base len m max (suc fuel) at out dec)
  more fuel (suc (suc rest)) at out dec h k lt later = elim (ℕ_discrete (enc (base + at)) 0x80) [
    | yes run ↦
        let (out', dec', filled, le, first) =
          fill_appends m (enc (base + (at + 1))) (enc (base + (at + 2))) max out dec (omega arith)
            room in
        decodes_run fuel rest at out dec out' dec' k lt run filled first
          (later rest (at + 3) out' dec' (omega arith) (omega arith) le)
    | no lit ↦
        decodes_literal fuel (suc (suc rest)) at out dec k lt (inl lit)
          (later (suc (suc rest)) (at + 1) (out + 1) _ h (omega arith) (omega arith))
  ]
  more fuel rest at out dec h k lt later =
      decodes_literal fuel rest at out dec k lt (inr (omega arith))
        (later rest (at + 1) (out + 1) _ h (omega arith) (omega arith))

  -- From any round on, the output is that of `rle` on the bytes left, cut at `max`.
  loop_decodes :
      (fuel rest at out : ℕ) (dec : Array m)
      → rest < fuel
      → at + rest ≡ len
      → out ≤ max
      → Output max m dec out
          (rle (slice enc (base + at) rest))
          (decode_loop n enc base len m max fuel at out dec)
  unfolding rle
  loop_decodes zero rest at out dec h k l = absurd (omega arith)
  loop_decodes (suc fuel) zero at out dec h k l =
      (out, dec, loop_stop fuel at out dec (inl (omega arith)), l, slice_rest dec out max l)
  loop_decodes (suc fuel) (suc rest) at out dec h k l = elim (dec_lt out max) [
    | no ge ↦
        let e : out ≡ max = omega arith in
        rw e (
          max,
          dec,
          loop_stop fuel at max dec (inr (le_refl max)),
          le_refl max,
          slice_full dec max _,
        )
    | yes lt ↦ more fuel rest at out dec (omega arith) k lt (λ r a o d. loop_decodes fuel r a o d)
  ]

-- From a buffer that holds the input, into an array with room for `max` bytes, the decoder
-- returns, with no access out of bounds, and what it wrote is the decoding of the input by `rle`,
-- cut at `max` bytes.
pub shownet_decode_rle-rle :
    (n : ℕ) (encoded : Array n) (base len m : ℕ) (decoded : Array m) (max : ℕ)
    → base + len ≤ n
    → max ≤ m
    → (out : ℕ) × (decoded' : Array m) × (shownet_decode_rle n encoded base len m decoded max
        ≡ some (out, decoded'))
      × (out ≤ max)
      × (slice decoded' 0 out ≡ take max (rle (slice encoded base len)))
unfolding shownet_decode_rle
shownet_decode_rle-rle n encoded base len m decoded max inside room =
    let e : base + 0 ≡ base = omega arith in
    let (out, dec, runs, le, eq) =
      loop_decodes n encoded base len m max inside room (suc len) len 0 0 decoded (omega arith)
        (omega arith) (omega arith) in
    (out, dec, runs, le, eq ∙ ap (λ i. take max (rle (slice encoded i len))) e)
