-- ===== src/Text/DecimalDigits.antt =====
-- What `_utoa` prints for a 32-bit number are decimal digits.
use sn.Base.{
  suc, ℕ, ◌/◌, ◌%◌, ◌^◌, ◌<◌, ◌≡◌, refl, true, false, Bool, not, ◌||◌, List, [], ◌∷◌, ◌==◌, arith,
  Bool-cases, inl, inr,
}
use sn.Text.{is_digit, utoa, utoa_loop}

-- Decimal digits only.
unfoldable pub AllDigits : List ℕ → Type 0
AllDigits [] = Unit
AllDigits (c ∷ s) = (is_digit c ≡ true) × AllDigits s

loop-AllDigits :
    (p val : ℕ) (ps : List ℕ) (started : Bool)
    → val / suc p < 10
    → ((b : Bool) → AllDigits (utoa_loop ps (val % suc p) b))
    → AllDigits (utoa_loop (suc p ∷ ps) val started)
unfolding utoa_loop AllDigits
loop-AllDigits p val ps started h rest = elim (Bool-cases (not (val / suc p == 0) || started)) [
  | inl e ↦ rw (utoa_loop, e) (ground arith, rest true)
  | inr e ↦ rw (utoa_loop, e) (rest false)
]

digits0 : (val : ℕ) (b : Bool) → AllDigits (utoa_loop [] val b)
unfolding utoa_loop AllDigits
digits0 val b = tt

digits1 : (val : ℕ) (b : Bool) → val < 10 → AllDigits (utoa_loop (1 ∷ []) val b)
digits1 val b h = loop-AllDigits 0 val _ b (omega arith) (digits0 _)

digits2 : (val : ℕ) (b : Bool) → val < 100 → AllDigits (utoa_loop (10 ∷ 1 ∷ []) val b)
digits2 val b h = loop-AllDigits 9 val _ b (omega arith) (λ b. digits1 _ b (omega arith))

digits3 : (val : ℕ) (b : Bool) → val < 1000 → AllDigits (utoa_loop (100 ∷ 10 ∷ 1 ∷ []) val b)
digits3 val b h = loop-AllDigits 99 val _ b (omega arith) (λ b. digits2 _ b (omega arith))

digits4 :
    (val : ℕ) (b : Bool) → val < 10000 → AllDigits (utoa_loop (1000 ∷ 100 ∷ 10 ∷ 1 ∷ []) val b)
digits4 val b h = loop-AllDigits 999 val _ b (omega arith) (λ b. digits3 _ b (omega arith))

digits5 :
    (val : ℕ) (b : Bool)
    → val < 100000
    → AllDigits (utoa_loop (10000 ∷ 1000 ∷ 100 ∷ 10 ∷ 1 ∷ []) val b)
digits5 val b h = loop-AllDigits 9999 val _ b (omega arith) (λ b. digits4 _ b (omega arith))

digits6 :
    (val : ℕ) (b : Bool)
    → val < 1000000
    → AllDigits (utoa_loop (100000 ∷ 10000 ∷ 1000 ∷ 100 ∷ 10 ∷ 1 ∷ []) val b)
digits6 val b h = loop-AllDigits 99999 val _ b (omega arith) (λ b. digits5 _ b (omega arith))

digits7 :
    (val : ℕ) (b : Bool)
    → val < 10000000
    → AllDigits (utoa_loop (1000000 ∷ 100000 ∷ 10000 ∷ 1000 ∷ 100 ∷ 10 ∷ 1 ∷ []) val b)
digits7 val b h = loop-AllDigits 999999 val _ b (omega arith) (λ b. digits6 _ b (omega arith))

digits8 :
    (val : ℕ) (b : Bool)
    → val < 100000000
    → AllDigits (utoa_loop (10000000 ∷ 1000000 ∷ 100000 ∷ 10000 ∷ 1000 ∷ 100 ∷ 10 ∷ 1 ∷ []) val b)
digits8 val b h = loop-AllDigits 9999999 val _ b (omega arith) (λ b. digits7 _ b (omega arith))

digits9 :
    (val : ℕ) (b : Bool)
    → val < 1000000000
    → AllDigits (
        utoa_loop
          (100000000 ∷ 10000000 ∷ 1000000 ∷ 100000 ∷ 10000 ∷ 1000 ∷ 100 ∷ 10 ∷ 1 ∷ [])
          val
          b)
digits9 val b h = loop-AllDigits 99999999 val _ b (omega arith) (λ b. digits8 _ b (omega arith))

digits10 :
    (val : ℕ) (b : Bool)
    → val < 10000000000
    → AllDigits (
        utoa_loop
          (1000000000 ∷ 100000000 ∷ 10000000 ∷ 1000000 ∷ 100000 ∷ 10000 ∷ 1000 ∷ 100 ∷ 10 ∷ 1 ∷ [])
          val
          b)
digits10 val b h = loop-AllDigits 999999999 val _ b (omega arith) (λ b. digits9 _ b (omega arith))

pub utoa-AllDigits : (val : ℕ) → val < 2 ^ 32 → AllDigits (utoa val)
unfolding utoa AllDigits
utoa-AllDigits val h = elim (Bool-cases (val == 0)) [
  | inl z ↦ rw z (refl, tt)
  | inr z ↦ rw z (digits10 val false (omega arith))
]
