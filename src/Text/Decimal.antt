-- ===== src/Text/Decimal.antt =====
-- A byte that `_utoa` printed is scanned back.
use sn.Base.{
  suc, ◌⊎◌, ◌∙◌, ap, ℕ, ◌+◌, ◌-◌, ◌*◌, ◌/◌, ◌%◌, ◌^◌, ◌≤◌, ◌<◌, ◌≡◌, refl, true, false, some, List,
  [], ◌∷◌, ◌++◌, ◌==◌, arith, Bool-cases, inl, inr, ==_iff,
}
use native.Mathlib.Decide.{dec_lt}
use sn.Text.{scan_digits, scan_u, is_digit, utoa, utoa_loop, pow10}

-- The text does not go on with a digit.
unfoldable pub Ends : List ℕ → Type 0
Ends [] = Unit
Ends (c ∷ s) = is_digit c ≡ false

scan_end : (val : ℕ) (s : List ℕ) → Ends s → scan_digits val s ≡ (val, s)
unfolding scan_digits Ends
scan_end val [] h = refl
scan_end val (c ∷ s) h = rw (scan_digits, h) refl

-- One digit.
scan_step :
    (val d : ℕ) (s : List ℕ)
    → d < 10
    → val < 100
    → scan_digits val ((48 + d) ∷ s) ≡ scan_digits (val * 10 + d) s
unfolding scan_digits
scan_step val d s h k =
    let e : is_digit (48 + d) ≡ true = ground arith in
    let v : (val * 10 + (48 + d - 48)) % 2 ^ 32 ≡ val * 10 + d = omega arith in
    rw (scan_digits, e, v) refl

-- A power of ten that gives no digit, before the first digit.
skip_power :
    (p b : ℕ) (ps : List ℕ)
    → b / suc p ≡ 0
    → b % suc p ≡ b
    → utoa_loop (suc p ∷ ps) b false ≡ utoa_loop ps b false
unfolding utoa_loop
skip_power p b ps z m = rw (utoa_loop, z, m) refl

-- A power of ten that gives the first digit.
first_power :
    (p b : ℕ) (ps : List ℕ)
    → (b / suc p == 0) ≡ false
    → utoa_loop (suc p ∷ ps) b false ≡ (48 + b / suc p) ∷ utoa_loop ps (b % suc p) true
unfolding utoa_loop
first_power p b ps z = rw (utoa_loop, z) refl

-- A power of ten after the first digit.
later_power :
    (p b : ℕ) (ps : List ℕ)
    → utoa_loop (suc p ∷ ps) b true ≡ (48 + b / suc p) ∷ utoa_loop ps (b % suc p) true
unfolding utoa_loop
later_power p b ps = elim (Bool-cases (b / suc p == 0)) [
  | inl z ↦ rw (utoa_loop, z) refl
  | inr z ↦ rw (utoa_loop, z) refl
]

last_power : (b : ℕ) → utoa_loop (1 ∷ []) b true ≡ (48 + b) ∷ []
unfolding utoa_loop
last_power b = let one : b / 1 ≡ b = omega arith in later_power 0 b [] ∙ rw one refl

small_loop : (b : ℕ) → b < 256 → utoa_loop pow10 b false ≡ utoa_loop (100 ∷ 10 ∷ 1 ∷ []) b false
small_loop b h =
    skip_power 999999999 b _ (omega arith) (omega arith)
    ∙ skip_power 99999999 b _ (omega arith) (omega arith)
    ∙ skip_power 9999999 b _ (omega arith) (omega arith)
    ∙ skip_power 999999 b _ (omega arith) (omega arith)
    ∙ skip_power 99999 b _ (omega arith) (omega arith)
    ∙ skip_power 9999 b _ (omega arith) (omega arith)
    ∙ skip_power 999 b _ (omega arith) (omega arith)

-- The digits of a byte.
utoa_byte :
    (b : ℕ)
    → b < 256
    → ((b < 10) × (utoa b ≡ (48 + b) ∷ []))
      ⊎ (((10 ≤ b) × (b < 100) × (utoa b ≡ (48 + b / 10) ∷ (48 + b % 10) ∷ []))
          ⊎ ((100 ≤ b)
              × (utoa b ≡ (48 + b / 100) ∷ (48 + b % 100 / 10) ∷ (48 + b % 100 % 10) ∷ [])))
unfolding utoa
utoa_byte b h = elim (Bool-cases (b == 0)) [
  | inl z ↦ let z' : b ≡ 0 = (==_iff b 0).0 z in inl (omega arith, rw z' refl)
  | inr z ↦
      rw (z, small_loop b h)
        (elim (dec_lt b 10) [
          | yes small ↦
              let one : b / 1 ≡ b = omega arith in
              let some_digit : (b / 1 == 0) ≡ false = rw (one, z) refl in
              inl (
                small,
                (skip_power 99 b _ (omega arith) (omega arith)
                    ∙ skip_power 9 b _ (omega arith) (omega arith)
                    ∙ first_power 0 b [] some_digit
                    ∙ rw one (unfold utoa_loop in refl)),
              )
          | no large ↦ elim (dec_lt b 100) [
            | yes small ↦ inr (
                inl (
                  omega arith,
                  small,
                  (skip_power 99 b _ (omega arith) (omega arith)
                      ∙ first_power 9 b _ (ground arith)
                      ∙ ap (λ l. (48 + b / 10) ∷ l) (last_power (b % 10))),
                ))
            | no huge ↦ inr (
                inr (
                  omega arith,
                  (first_power 99 b _ (ground arith)
                      ∙ ap (λ l. (48 + b / 100) ∷ l)
                          (later_power 9 (b % 100) _
                            ∙ ap (λ l. (48 + b % 100 / 10) ∷ l) (last_power (b % 100 % 10)))),
                ))
          ]
        ])
]

scan_start :
    (d : ℕ) (s : List ℕ) → d < 10 → scan_u ((48 + d) ∷ s) ≡ some (scan_digits 0 ((48 + d) ∷ s))
unfolding scan_u
scan_start d s h = let e : is_digit (48 + d) ≡ true = ground arith in rw e refl

first_step : (d : ℕ) (s : List ℕ) → d < 10 → scan_digits 0 ((48 + d) ∷ s) ≡ scan_digits d s
first_step d s h =
    let v : 0 * 10 + d ≡ d = omega arith in
    scan_step 0 d s h (omega arith) ∙ ap (λ k. scan_digits k s) v

-- A byte that `_utoa` printed is what `%u` reads, whatever follows that is not a digit.
pub scan_u-utoa : (b : ℕ) (s : List ℕ) → b < 256 → Ends s → scan_u (utoa b ++ s) ≡ some (b, s)
scan_u-utoa b s h e = elim (utoa_byte b h) [
  | inl (small, digits) ↦
      rw (digits, scan_start b s small, first_step b s small) (ap some (scan_end b s e))
  | inr (inl (_, small, digits)) ↦
      let v : b / 10 * 10 + b % 10 ≡ b = omega arith in
      rw
        (
          digits,
          scan_start (b / 10) _ (omega arith),
          first_step (b / 10) _ (omega arith),
          scan_step (b / 10) (b % 10) _ (omega arith) (omega arith),
          v,
        )
        (ap some (scan_end b s e))
  | inr (inr (large, digits)) ↦
      let v : (b / 100 * 10 + b % 100 / 10) * 10 + b % 100 % 10 ≡ b = omega arith in
      rw
        (
          digits,
          scan_start (b / 100) _ (omega arith),
          first_step (b / 100) _ (omega arith),
          scan_step (b / 100) (b % 100 / 10) _ (omega arith) (omega arith),
          scan_step (b / 100 * 10 + b % 100 / 10) (b % 100 % 10) _ (omega arith) (omega arith),
          v,
        )
        (ap some (scan_end b s e))
]
