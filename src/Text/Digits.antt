-- ===== src/Text/Digits.antt =====
-- A 16-bit number that `_utoa` printed is read back by `atoi`, and a byte in two hexadecimal digits
-- is what it was.
use sn.Base.{
  suc, zero, ◌∙◌, ap, sym, ℕ, ◌+◌, ◌-◌, ◌*◌, ◌/◌, ◌%◌, ◌^◌, ◌≤◌, ◌<◌, ◌≡◌, refl, true, false, Bool,
  not, ◌||◌, List, [], ◌∷◌, ltb, ◌==◌, length, arith, Bool-cases, inl, inr, pos,
}
use native.Mathlib.Decide.{dec_lt}
use sn.Text.{scan_digits, is_digit, utoa, utoa_loop, pow10, atoi, skip_blanks, is_blank, to_int}

-- Every character is at least `low`.
unfoldable pub AllFrom : ℕ → List ℕ → Type 0
AllFrom low [] = Unit
AllFrom low (c ∷ s) = (low ≤ c) × AllFrom low s

utoa_loop-AllFrom : (ps : List ℕ) (val : ℕ) (started : Bool) → AllFrom 48 (utoa_loop ps val started)
unfolding utoa_loop AllFrom
utoa_loop-AllFrom [] val started = tt
utoa_loop-AllFrom (zero ∷ ps) val started = tt
utoa_loop-AllFrom (suc p ∷ ps) val started = elim (Bool-cases (not (val / suc p == 0) || started)) [
  | inl h ↦ rw (utoa_loop, h) (omega arith, utoa_loop-AllFrom ps (val % suc p) true)
  | inr h ↦ rw (utoa_loop, h) (utoa_loop-AllFrom ps (val % suc p) false)
]

-- The text printed for `val` after the number `acc` goes on to be read as acc · 10ᵏ + val.
abbrev Reads : List ℕ → ℕ → ℕ → ℕ → Type 0
Reads ps shift acc val = scan_digits acc (utoa_loop ps val true) ≡ (acc * shift + val, [])

scan_one :
    (acc d : ℕ) (s : List ℕ)
    → d < 10
    → acc < 10000
    → scan_digits acc ((48 + d) ∷ s) ≡ scan_digits (acc * 10 + d) s
unfolding scan_digits
scan_one acc d s h k =
    let e : is_digit (48 + d) ≡ true = ground arith in
    let v : (acc * 10 + (48 + d - 48)) % 2 ^ 32 ≡ acc * 10 + d = omega arith in
    rw (scan_digits, e, v) refl

-- A power of ten after the first digit.
loop_digit :
    (p val : ℕ) (ps : List ℕ)
    → utoa_loop (suc p ∷ ps) val true ≡ (48 + val / suc p) ∷ utoa_loop ps (val % suc p) true
unfolding utoa_loop
loop_digit p val ps = elim (Bool-cases (val / suc p == 0)) [
  | inl z ↦ rw (utoa_loop, z) refl
  | inr z ↦ rw (utoa_loop, z) refl
]

Reads-digit :
    (p shift acc val : ℕ) (ps : List ℕ)
    → val / suc p < 10
    → acc < 10000
    → (acc * 10 + val / suc p) * shift + val % suc p ≡ acc * (shift * 10) + val
    → Reads ps shift (acc * 10 + val / suc p) (val % suc p)
    → Reads (suc p ∷ ps) (shift * 10) acc val
Reads-digit p shift acc val ps h k e rest =
    rw (loop_digit p val ps, scan_one acc (val / suc p) (utoa_loop ps (val % suc p) true) h k)
      (rest ∙ ap (λ v. (v, [])) e)

reads0 : (acc val : ℕ) → val < 1 → Reads [] 1 acc val
unfolding utoa_loop scan_digits
reads0 acc val h = let e : acc ≡ acc * 1 + val = omega arith in ap (λ v. (v, [])) e

reads1 : (acc val : ℕ) → acc < 10000 → val < 10 → Reads (1 ∷ []) 10 acc val
reads1 acc val k h =
    Reads-digit 0 1 acc val [] (omega arith) k (omega arith) (reads0 _ _ (omega arith))

reads2 : (acc val : ℕ) → acc < 1000 → val < 100 → Reads (10 ∷ 1 ∷ []) 100 acc val
reads2 acc val k h =
    Reads-digit 9 10 acc val _ (omega arith) (omega arith) (omega arith)
      (reads1 _ _ (omega arith) (omega arith))

reads3 : (acc val : ℕ) → acc < 100 → val < 1000 → Reads (100 ∷ 10 ∷ 1 ∷ []) 1000 acc val
reads3 acc val k h =
    Reads-digit 99 100 acc val _ (omega arith) (omega arith) (omega arith)
      (reads2 _ _ (omega arith) (omega arith))

reads4 : (acc val : ℕ) → acc < 10 → val < 10000 → Reads (1000 ∷ 100 ∷ 10 ∷ 1 ∷ []) 10000 acc val
reads4 acc val k h =
    Reads-digit 999 1000 acc val _ (omega arith) (omega arith) (omega arith)
      (reads3 _ _ (omega arith) (omega arith))

loop_first :
    (p val : ℕ) (ps : List ℕ)
    → (val / suc p == 0) ≡ false
    → utoa_loop (suc p ∷ ps) val false ≡ (48 + val / suc p) ∷ utoa_loop ps (val % suc p) true
unfolding utoa_loop
loop_first p val ps z = rw (utoa_loop, z) refl

reads5 : (val : ℕ) → val < 100000 → Reads (10000 ∷ 1000 ∷ 100 ∷ 10 ∷ 1 ∷ []) 100000 0 val
reads5 val h =
    Reads-digit 9999 10000 0 val _ (omega arith) (omega arith) (omega arith)
      (reads4 _ _ (omega arith) (omega arith))

-- The loop before the first digit.
abbrev Starts : List ℕ → ℕ → Type 0
Starts ps val = scan_digits 0 (utoa_loop ps val false) ≡ (val, [])

start_skips :
    (p val : ℕ) (ps : List ℕ)
    → val / suc p ≡ 0
    → val % suc p ≡ val
    → Starts ps val
    → Starts (suc p ∷ ps) val
unfolding utoa_loop
start_skips p val ps z m rest = rw (utoa_loop, z, m) rest

-- The first digit is printed as a later one is.
start_digit :
    (p shift val : ℕ) (ps : List ℕ)
    → (val / suc p == 0) ≡ false
    → Reads (suc p ∷ ps) shift 0 val
    → Starts (suc p ∷ ps) val
unfolding utoa_loop
start_digit p shift val ps z reads =
    let e : utoa_loop (suc p ∷ ps) val false ≡ utoa_loop (suc p ∷ ps) val true =
      loop_first p val ps z ∙ sym (loop_digit p val ps) in
    let v : 0 * shift + val ≡ val = omega arith in rw e (reads ∙ ap (λ n. (n, [])) v)

-- The powers of ten from the first one that a 16-bit number can reach.
start1 : (val : ℕ) → 0 < val → val < 10 → Starts (1 ∷ []) val
start1 val z h = start_digit 0 10 val _ (ground arith) (reads1 0 val (omega arith) h)

start2 : (val : ℕ) → 0 < val → val < 100 → Starts (10 ∷ 1 ∷ []) val
start2 val z h = elim (dec_lt val 10) [
  | yes lt ↦ start_skips 9 val _ (omega arith) (omega arith) (start1 val z lt)
  | no ge ↦ start_digit 9 100 val _ (ground arith) (reads2 0 val (omega arith) h)
]

start3 : (val : ℕ) → 0 < val → val < 1000 → Starts (100 ∷ 10 ∷ 1 ∷ []) val
start3 val z h = elim (dec_lt val 100) [
  | yes lt ↦ start_skips 99 val _ (omega arith) (omega arith) (start2 val z lt)
  | no ge ↦ start_digit 99 1000 val _ (ground arith) (reads3 0 val (omega arith) h)
]

start4 : (val : ℕ) → 0 < val → val < 10000 → Starts (1000 ∷ 100 ∷ 10 ∷ 1 ∷ []) val
start4 val z h = elim (dec_lt val 1000) [
  | yes lt ↦ start_skips 999 val _ (omega arith) (omega arith) (start3 val z lt)
  | no ge ↦ start_digit 999 10000 val _ (ground arith) (reads4 0 val (omega arith) h)
]

start5 : (val : ℕ) → 0 < val → val < 100000 → Starts (10000 ∷ 1000 ∷ 100 ∷ 10 ∷ 1 ∷ []) val
start5 val z h = elim (dec_lt val 10000) [
  | yes lt ↦ start_skips 9999 val _ (omega arith) (omega arith) (start4 val z lt)
  | no ge ↦ start_digit 9999 100000 val _ (ground arith) (reads5 val h)
]

start10 : (val : ℕ) → 0 < val → val < 100000 → Starts pow10 val
start10 val z h = start_skips 999999999 val _ (omega arith) (omega arith) (
    start_skips 99999999 val _ (omega arith) (omega arith) (
      start_skips 9999999 val _ (omega arith) (omega arith) (
        start_skips 999999 val _ (omega arith) (omega arith)
          (start_skips 99999 val _ (omega arith) (omega arith) (start5 val z h)))))

scan-utoa : (val : ℕ) → val < 100000 → scan_digits 0 (utoa val) ≡ (val, [])
unfolding utoa
scan-utoa zero h = unfold scan_digits in refl
scan-utoa (suc val) h =
    let z : (suc val == 0) ≡ false = ground arith in rw z (start10 (suc val) (omega arith) h)

pub utoa-AllFrom : (val : ℕ) → AllFrom 48 (utoa val)
unfolding utoa AllFrom
utoa-AllFrom val = elim (Bool-cases (val == 0)) [
  | inl z ↦ rw z (omega arith, tt)
  | inr z ↦ rw z (utoa_loop-AllFrom pow10 val false)
]

length-utoa_loop :
    (ps : List ℕ) (val : ℕ) (started : Bool) → length (utoa_loop ps val started) ≤ length ps
unfolding utoa_loop
length-utoa_loop [] val started = omega arith
length-utoa_loop (zero ∷ ps) val started = omega arith
length-utoa_loop (suc p ∷ ps) val started = elim (Bool-cases (not (val / suc p == 0) || started)) [
  | inl h ↦ rw (utoa_loop, h) (omega (arith, length-utoa_loop ps (val % suc p) true))
  | inr h ↦ rw (utoa_loop, h) (omega (arith, length-utoa_loop ps (val % suc p) false))
]

pub length-utoa : (val : ℕ) → length (utoa val) ≤ 10
unfolding utoa
length-utoa val = elim (Bool-cases (val == 0)) [
  | inl z ↦ rw z (omega arith)
  | inr z ↦ rw z (length-utoa_loop pow10 val false)
]

-- Digits have no blank and no sign before them.
atoi_digits : (s : List ℕ) → AllFrom 48 s → atoi s ≡ to_int (scan_digits 0 s).0
unfolding atoi skip_blanks AllFrom
atoi_digits [] h = unfold scan_digits in refl
atoi_digits (c ∷ s) (h, _) =
    let a : is_blank c ≡ false = ground arith in
    let b : (c == 45) ≡ false = ground arith in
    let d : (c == 43) ≡ false = ground arith in rw (skip_blanks, a) (rw (b, d) refl)

-- A 16-bit number that `_utoa` printed is what `atoi` reads.
pub atoi-utoa : (val : ℕ) → val < 2 ^ 16 → atoi (utoa val) ≡ pos val
atoi-utoa val h =
    let e : ltb val (2 ^ 31) ≡ true = ground arith in
    atoi_digits (utoa val) (utoa-AllFrom val)
    ∙ ap (λ r. to_int r.0) (scan-utoa val (omega arith))
    ∙ rw e refl
