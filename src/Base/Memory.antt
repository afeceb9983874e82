-- ===== src/Base/Memory.antt =====
-- C arrays of bytes with a static size, and checked accesses to them. An access outside the array
-- is a fault, `none`; memcpy and memset are minilib's loops in closed form.
use Prim.Native.Nat.{ℕ, zero, suc, ◌+◌, ◌-◌, ◌≤◌, ◌<◌}
use mathlib.Core.Logic.{◌↔◌, inl, inr}
use mathlib.Core.Path.{◌≡◌, refl, ap}
use mathlib.Core.Bool.{true, false, ◌&&◌}
use mathlib.Core.Option.{Option, none, some}
use mathlib.Core.List.{List}
use native.Mathlib.Omega.{arith}
use sn.Base.Tests.{ltb, leb, ◌==◌, if◌then◌else◌, ◌>>=◌, Bool-cases, ==_iff}
use sn.Base.Lists.{get_or}
use sn.Base.Int.{ℤ, pos, sub_ℕ, is_zero}

-- The contents of `uint8_t a[n]`, by index. The size stands in the type for the reader, and every
-- access names it.
abbrev pub Array : ℕ → Type 0
Array n = ℕ → ℕ

-- `a[i]`
abbrev pub load : (n : ℕ) → Array n → ℕ → Option ℕ
load n a i = if ltb i n then some (a i) else none

-- The contents after a store.
abbrev pub stored : (ℕ → ℕ) → ℕ → ℕ → ℕ → ℕ
stored a i v j = if j == i then v else a j

-- `a[i] = v`
abbrev pub store : (n : ℕ) → Array n → ℕ → ℕ → Option (Array n)
store n a i v = if ltb i n then some (stored a i v) else none

-- The contents after `len` bytes from `src + from` are copied to `dst + to`.
abbrev pub copied : (ℕ → ℕ) → ℕ → (ℕ → ℕ) → ℕ → ℕ → ℕ → ℕ
copied dst to src from len i = if leb to i && ltb i (to + len) then src (from + (i - to)) else dst i

-- `memcpy(dst + to, src + from, len)` for arrays of n and m bytes.
abbrev pub memcpy : (n : ℕ) → Array n → ℕ → (m : ℕ) → Array m → ℕ → ℕ → Option (Array n)
memcpy n dst to m src from len =
    if leb (to + len) n && leb (from + len) m then some (copied dst to src from len) else none

-- `memset(a, c, len)`
abbrev pub memset : (n : ℕ) → Array n → ℕ → ℕ → Option (Array n)
memset n a c len = if leb len n then some (λ i. if ltb i len then c else a i) else none

-- `strncpy(dst, s, len)` of a C string without its NUL: the rest is padded with NUL bytes.
abbrev pub strncpy : (n : ℕ) → Array n → List ℕ → ℕ → Option (Array n)
strncpy n dst s len =
    if leb len n then some (λ i. if ltb i len then get_or s i 0 else dst i) else none

-- An array that holds bytes.
abbrev pub IsBytes : (n : ℕ) → Array n → Type 0
IsBytes n a = (i : ℕ) → i < n → a i < 256

-- `memcmp(a + i, b + j, len)`: 0, or the difference of the first two bytes that differ.
unfoldable pub memcmp : (n : ℕ) → Array n → ℕ → (m : ℕ) → Array m → ℕ → ℕ → Option ℤ
memcmp n a i m b j zero = some (pos 0)
memcmp n a i m b j (suc len) = do
  x ← load n a i
  y ← load m b j
  let rest = memcmp n a (i + 1) m b (j + 1) len
  if x == y then rest else some (sub_ℕ x y)

-- Accesses within an array give no fault.
pub load_within : (n : ℕ) (a : Array n) (i : ℕ) → i < n → load n a i ≡ some (a i)
load_within n a i h = ground arith

pub store_within : (n : ℕ) (a : Array n) (i v : ℕ) → i < n → store n a i v ≡ some (stored a i v)
store_within n a i v h = ground arith

pub memcpy_within :
    (n : ℕ) (dst : Array n) (to m : ℕ) (src : Array m) (from len : ℕ)
    → to + len ≤ n
    → from + len ≤ m
    → memcpy n dst to m src from len ≡ some (copied dst to src from len)
memcpy_within n dst to m src from len h k = ground arith

-- The first `len` bytes at a + i and b + j are equal.
abbrev pub Agree : (ℕ → ℕ) → ℕ → (ℕ → ℕ) → ℕ → ℕ → Type 0
Agree a i b j len = (k : ℕ) → k < len → a (i + k) ≡ b (j + k)

module _ (a : ℕ → ℕ) (i : ℕ) (b : ℕ → ℕ) (j len : ℕ) where
  Agree-suc : a i ≡ b j → Agree a (i + 1) b (j + 1) len → Agree a i b j (suc len)
  Agree-suc e h zero lt =
      let p : i + 0 ≡ i = omega arith in let q : j + 0 ≡ j = omega arith in rw (p, q) e
  Agree-suc e h (suc k) lt =
      let p : i + suc k ≡ i + 1 + k = omega arith in
      let q : j + suc k ≡ j + 1 + k = omega arith in rw (p, q) (h k (omega arith))

  Agree-head : Agree a i b j (suc len) → a i ≡ b j
  Agree-head h =
      let p : i + 0 ≡ i = omega arith in
      let q : j + 0 ≡ j = omega arith in cc (h 0 (omega arith), ap a p, ap b q)

  Agree-tail : Agree a i b j (suc len) → Agree a (i + 1) b (j + 1) len
  Agree-tail h k lt =
      let p : i + suc k ≡ i + 1 + k = omega arith in
      let q : j + suc k ≡ j + 1 + k = omega arith in cc (h (suc k) (omega arith), ap a p, ap b q)

sub_ℕ-is_zero : (x y : ℕ) → (x == y) ≡ false → is_zero (sub_ℕ x y) ≡ false
sub_ℕ-is_zero x y h = ground arith

-- `memcmp` within both arrays returns a number, which is 0 exactly if the bytes are equal.
pub memcmp_within :
    (n : ℕ) (a : Array n) (i m : ℕ) (b : Array m) (j len : ℕ)
    → i + len ≤ n
    → j + len ≤ m
    → (order : ℤ) × (memcmp n a i m b j len ≡ some order)
      × ((is_zero order ≡ true) ↔ Agree a i b j len)
unfolding memcmp
memcmp_within n a i m b j zero h h' = (pos 0, refl, ((λ _ k lt. elim lt [ ]), (λ _. refl)))
memcmp_within n a i m b j (suc len) h h' =
    let (order, runs, same) =
      memcmp_within n a (i + 1) m b (j + 1) len (omega arith) (omega arith) in
    rw (load_within n a i (omega arith), load_within m b j (omega arith))
      (elim (Bool-cases (a i == b j)) [
        | inl e ↦ rw e (
          order,
          runs,
          (
            (λ z. Agree-suc a i b j len ((==_iff _ _).0 e) (same.0 z)),
            (λ g. same.1 (Agree-tail a i b j len g)),
          ),
        )
        | inr e ↦ rw e (
          sub_ℕ (a i) (b j),
          refl,
          (
            (λ z. cc (sub_ℕ-is_zero (a i) (b j) e)),
            (λ g. cc ((==_iff (a i) (b j)).1 (Agree-head a i b j len g))),
          ),
        )
      ])
