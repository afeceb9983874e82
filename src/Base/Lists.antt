-- ===== src/Base/Lists.antt =====
-- Lists measured and indexed by native numbers.
use Prim.Native.Nat.{ℕ, zero, suc, ◌+◌, ◌<◌, ◌≤◌, min}
use Prim.Native.Char.{code}
use Prim.Native.String.{String}
use mathlib.Core.Path.{◌≡◌, refl, ap, ap₂}
use mathlib.Core.List.{List, [], ◌∷◌, ◌++◌}
use native.Mathlib.Omega.{arith}

-- The bytes of an ASCII literal.
abbrev pub codes : String → List ℕ
codes String.[] = []
codes (String.◌∷◌ c s) = code c ∷ codes s

module _ {ℓ} {A : Type ℓ} where
  abbrev pub length : List A → ℕ
  length [] = 0
  length (x ∷ xs) = suc (length xs)

  abbrev pub get_or : List A → ℕ → A → A
  get_or [] i d = d
  get_or (x ∷ xs) zero d = x
  get_or (x ∷ xs) (suc i) d = get_or xs i d

  abbrev pub take : ℕ → List A → List A
  take zero xs = []
  take (suc n) [] = []
  take (suc n) (x ∷ xs) = x ∷ take n xs

  abbrev pub drop : ℕ → List A → List A
  drop zero xs = xs
  drop (suc n) [] = []
  drop (suc n) (x ∷ xs) = drop n xs

  abbrev pub replicate : ℕ → A → List A
  replicate zero a = []
  replicate (suc n) a = a ∷ replicate n a

  pub length-append : (xs ys : List A) → length (xs ++ ys) ≡ length xs + length ys
  length-append [] ys = omega arith
  length-append (x ∷ xs) ys = omega (arith, length-append xs ys)

  pub append_assoc : (xs ys zs : List A) → (xs ++ ys) ++ zs ≡ xs ++ (ys ++ zs)
  append_assoc [] ys zs = refl
  append_assoc (x ∷ xs) ys zs = ap (λ l. x ∷ l) (append_assoc xs ys zs)

  pub append_nil : (xs : List A) → xs ++ [] ≡ xs
  append_nil [] = refl
  append_nil (x ∷ xs) = ap (λ l. x ∷ l) (append_nil xs)

  pub length-replicate : (n : ℕ) (a : A) → length (replicate n a) ≡ n
  length-replicate zero a = refl
  length-replicate (suc n) a = ap suc (length-replicate n a)

  pub take-take-append : (k : ℕ) (xs ys : List A) → take k (take k xs ++ ys) ≡ take k (xs ++ ys)
  take-take-append zero xs ys = refl
  take-take-append (suc k) [] ys = refl
  take-take-append (suc k) (x ∷ xs) ys = ap (λ l. x ∷ l) (take-take-append k xs ys)

  pub take-append_length : (k : ℕ) (xs ys : List A) → k ≤ length xs → take k (xs ++ ys) ≡ take k xs
  take-append_length zero xs ys h = refl
  take-append_length (suc k) [] ys h = elim h [ ]
  take-append_length (suc k) (x ∷ xs) ys h =
      ap (λ l. x ∷ l) (take-append_length k xs ys (omega arith))

  pub take_length : (k : ℕ) (xs : List A) → length xs ≤ k → take k xs ≡ xs
  take_length zero [] h = refl
  take_length zero (x ∷ xs) h = elim h [ ]
  take_length (suc k) [] h = refl
  take_length (suc k) (x ∷ xs) h = ap (λ l. x ∷ l) (take_length k xs (omega arith))

  pub length-take-le : (k : ℕ) (xs : List A) → length (take k xs) ≤ k
  length-take-le zero xs = omega arith
  length-take-le (suc k) [] = omega arith
  length-take-le (suc k) (x ∷ xs) = omega (arith, length-take-le k xs)

-- The `len` elements of an array from `i` on.
abbrev pub slice : (ℕ → ℕ) → ℕ → ℕ → List ℕ
slice a i zero = []
slice a i (suc len) = a i ∷ slice a (i + 1) len

pub length-slice : (a : ℕ → ℕ) (i len : ℕ) → length (slice a i len) ≡ len
length-slice a i zero = refl
length-slice a i (suc len) = ap suc (length-slice a (i + 1) len)

pub slice-snoc : (a : ℕ → ℕ) (i len : ℕ) → slice a i (suc len) ≡ slice a i len ++ a (i + len) ∷ []
slice-snoc a i zero = let e : i + 0 ≡ i = omega arith in rw e
slice-snoc a i (suc len) =
    let e : i + suc len ≡ i + 1 + len = omega arith in
    rw e (ap (λ l. a i ∷ l) (slice-snoc a (i + 1) len))

-- Slices read only their range.
pub slice-eq :
    (a b : ℕ → ℕ) (i j len : ℕ)
    → ((k : ℕ) → k < len → a (i + k) ≡ b (j + k))
    → slice a i len ≡ slice b j len
slice-eq a b i j zero h = refl
slice-eq a b i j (suc len) h =
    ap₂ (λ x l. x ∷ l) (head_eq) (slice-eq a b (i + 1) (j + 1) len tail_eq)
  where
    head_eq : a i ≡ b j
    head_eq =
        let p : i + 0 ≡ i = omega arith in
        let q : j + 0 ≡ j = omega arith in cc (h 0 (omega arith), ap a p, ap b q)

    tail_eq : (k : ℕ) → k < len → a (i + 1 + k) ≡ b (j + 1 + k)
    tail_eq k lt =
        let p : i + suc k ≡ i + 1 + k = omega arith in
        let q : j + suc k ≡ j + 1 + k = omega arith in cc (h (suc k) (omega arith), ap a p, ap b q)

pub take-slice : (k : ℕ) (a : ℕ → ℕ) (i len : ℕ) → take k (slice a i len) ≡ slice a i (min len k)
take-slice zero a i len = let e : min len 0 ≡ 0 = omega arith in rw e
take-slice (suc k) a i zero = let e : min 0 (suc k) ≡ 0 = omega arith in rw e
take-slice (suc k) a i (suc len) =
    let e : min (suc len) (suc k) ≡ suc (min len k) = omega arith in
    rw e (ap (λ l. a i ∷ l) (take-slice k a (i + 1) len))
