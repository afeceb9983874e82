-- ===== src/Shownet/Rle.antt =====
-- The run-length decoder against a recursive description of the format.
use native.Mathlib.Decide.{dec_lt}
use native.Mathlib.Nat.{le_refl}
use sn.Base.{
  ℕ, zero, suc, ◌+◌, ◌≤◌, ◌<◌, ◌≡◌, refl, ap, ap₂, sym, lt→ltb, ltb-false, stored, store_within,
  ◌⊎◌, ◌≢◌, ◌∙◌, true, false, Option, some, List, [], ◌∷◌, ◌++◌, Array, arith, length, take,
  replicate, slice, length-slice, slice-snoc, slice-eq, take-append_length, take_length, ◌==◌,
}
use mathlib.Core.List.{append_assoc, append-nil}
use sn.Shownet.{fill}

-- 0x80 with two more bytes behind it is a run; any other byte stands for itself.
unfoldable pub rle : List ℕ → List ℕ
rle [] = []
rle (b ∷ []) = b ∷ []
rle (b ∷ c ∷ []) = b ∷ c ∷ []
rle (b ∷ c ∷ v ∷ rest) = elim (b == 0x80) [
  | true ↦ replicate c v ++ rle rest
  | false ↦ b ∷ rle (c ∷ v ∷ rest)
]

pub rle_literal : (b : ℕ) (l : List ℕ) → (b ≢ 0x80) ⊎ (length l ≤ 1) → rle (b ∷ l) ≡ b ∷ rle l
unfolding rle
rle_literal b [] h = refl
rle_literal b (c ∷ []) h = refl
rle_literal b (c ∷ v ∷ l) h = ground arith

pub rle_run : (c v : ℕ) (l : List ℕ) → rle (0x80 ∷ c ∷ v ∷ l) ≡ replicate c v ++ rle l
unfolding rle
rle_run c v l = refl

slice-stored :
    (m : ℕ) (a : Array m) (out v : ℕ) → slice (stored a out v) 0 (suc out) ≡ slice a 0 out ++ v ∷ []
slice-stored m a out v =
    slice-snoc (stored a out v) 0 out
    ∙ ap₂ (λ l x. l ++ x ∷ []) (slice-eq (stored a out v) a 0 0 out (λ k lt. ground arith))
        (let e : 0 + out ≡ out = omega arith in rw e (ground arith))

-- Output that has reached `max` is all of it.
pub slice_full :
    (dec : ℕ → ℕ) (max : ℕ) (ys : List ℕ) → slice dec 0 max ≡ take max (slice dec 0 max ++ ys)
slice_full dec max ys =
    let e = length-slice dec 0 max in
    sym (
      take-append_length max (slice dec 0 max) ys (omega arith)
      ∙ take_length max (slice dec 0 max) (omega arith))

pub slice_rest :
    (dec : ℕ → ℕ) (out max : ℕ) → out ≤ max → slice dec 0 out ≡ take max (slice dec 0 out ++ [])
slice_rest dec out max h =
    let e = length-slice dec 0 out in
    sym (
      ap (take max) (append-nil (slice dec 0 out))
      ∙ take_length max (slice dec 0 out) (omega arith))

-- The output, `ys` being still to come.
abbrev pub Output : ℕ → (m : ℕ) → Array m → ℕ → List ℕ → Option (ℕ × Array m) → Type 0
Output max m dec out ys r =
    (out' : ℕ) × (dec' : Array m) × (r ≡ some (out', dec'))
    × (out' ≤ max)
    × (slice dec' 0 out' ≡ take max (slice dec 0 out ++ ys))

fill_step :
    (m count value max out : ℕ) (dec : Array m)
    → out < max
    → max ≤ m
    → fill m (suc count) value max out dec ≡ fill m count value max (out + 1) (stored dec out value)
unfolding fill
fill_step m count value max out dec h k =
    rw (lt→ltb out max h, store_within m dec out value (omega arith), fill)

fill_stop :
    (m count value max : ℕ) (dec : Array m) → fill m (suc count) value max max dec ≡ some (max, dec)
unfolding fill
fill_stop m count value max dec = rw (ltb-false max max (omega arith), fill)

-- One more byte of output before the rest.
pub slice_next :
    (dec : ℕ → ℕ) (out v : ℕ) (ys : List ℕ)
    → slice (stored dec out v) 0 (out + 1) ++ ys ≡ slice dec 0 out ++ v ∷ ys
slice_next dec out v ys =
    let e : out + 1 ≡ suc out = omega arith in
    ap (λ k. slice (stored dec out v) 0 k ++ ys) e
    ∙ ap (λ l. l ++ ys) (slice-stored out dec out v)
    ∙ append_assoc (slice dec 0 out) (v ∷ []) ys

-- The inner loop appends the run, as far as it fits.
pub fill_appends :
    (m count value max out : ℕ) (dec : Array m)
    → out ≤ max
    → max ≤ m
    → Output max m dec out (replicate count value) (fill m count value max out dec)
fill_appends m zero value max out dec h k =
    unfold fill in (out, dec, refl, h, slice_rest dec out max h)
fill_appends m (suc count) value max out dec h k = elim (dec_lt out max) [
  | yes lt ↦
      let (out', dec', runs, le, eq) =
        fill_appends m count value max (out + 1) (stored dec out value) (omega arith) k in
      (
        out',
        dec',
        fill_step m count value max out dec lt k ∙ runs,
        le,
        eq ∙ ap (take max) (slice_next dec out value (replicate count value)),
      )
  | no ge ↦
      let e : out ≡ max = omega arith in
      rw e (max, dec, fill_stop m count value max dec, le_refl max, slice_full dec max _)
]
