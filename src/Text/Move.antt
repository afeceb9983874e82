-- ===== src/Text/Move.antt =====
-- src/oabi/minilib.c: memcpy, memset and memmove as the loops that they are, on one memory by
-- address. `copied` is the closed form that the other modules use.
use sn.Base.{
  ◌∙◌, ◌≡◌, ◌⊎◌, refl, inl, inr, ◌≤◌, ◌<◌, ℕ, ◌+◌, ◌-◌, ◌%◌, zero, suc, true, false, ◌&&◌, ltb, leb,
  ◌==◌, if◌then◌else◌, Bool-cases, ltb→lt, stored, copied, arith,
}
use native.Mathlib.Decide.{dec_lt}

-- `while (n--) *d++ = *s++;`
unfoldable pub memcpy_loop : ℕ → ℕ → ℕ → (ℕ → ℕ) → ℕ → ℕ
memcpy_loop zero d s a = a
memcpy_loop (suc n) d s a = memcpy_loop n (d + 1) (s + 1) (stored a d (a s))

-- `while (n--) *p++ = (unsigned char)c;`
unfoldable pub memset_loop : ℕ → ℕ → ℕ → (ℕ → ℕ) → ℕ → ℕ
memset_loop zero p c a = a
memset_loop (suc n) p c a = memset_loop n (p + 1) c (stored a p (c % 256))

-- `while (n--) *--d = *--s;` from d + n and s + n.
unfoldable pub move_back : ℕ → ℕ → ℕ → (ℕ → ℕ) → ℕ → ℕ
move_back zero d s a = a
move_back (suc n) d s a = move_back n d s (stored a (d + n) (a (s + n)))

unfoldable pub memmove : ℕ → ℕ → ℕ → (ℕ → ℕ) → ℕ → ℕ
memmove d s n a = if ltb d s then memcpy_loop n d s a else move_back n d s a

-- One byte forward, then the rest.
copied_forward :
    (n d s : ℕ) (a : ℕ → ℕ) (i : ℕ)
    → (d ≤ s) ⊎ (s + n < d)
    → copied (stored a d (a s)) (d + 1) (stored a d (a s)) (s + 1) n i ≡ copied a d a s (suc n) i
copied_forward n d s a i apart = elim (dec_lt d i) [
  | yes past ↦ elim (dec_lt i (d + suc n)) [
    | yes within ↦
        let e : s + 1 + (i - (d + 1)) ≡ s + (i - d) = omega arith in
        let left : (leb (d + 1) i && ltb i (d + 1 + n)) ≡ true = ground arith in
        let right : (leb d i && ltb i (d + suc n)) ≡ true = ground arith in
        let other : (s + (i - d) == d) ≡ false = elim apart [
          | inl low ↦ ground arith
          | inr high ↦ ground arith
        ] in
        rw (left, right, e, other) refl
    | no beyond ↦
        let left : (leb (d + 1) i && ltb i (d + 1 + n)) ≡ false = ground arith in
        let right : (leb d i && ltb i (d + suc n)) ≡ false = ground arith in
        let other : (i == d) ≡ false = ground arith in rw (left, right, other) refl
  ]
  | no before ↦ elim (dec_lt i d) [
    | yes lt ↦
        let left : (leb (d + 1) i && ltb i (d + 1 + n)) ≡ false = ground arith in
        let right : (leb d i && ltb i (d + suc n)) ≡ false = ground arith in
        let other : (i == d) ≡ false = ground arith in rw (left, right, other) refl
    | no ge ↦
        let left : (leb (d + 1) i && ltb i (d + 1 + n)) ≡ false = ground arith in
        let right : (leb d i && ltb i (d + suc n)) ≡ true = ground arith in
        let other : (i == d) ≡ true = ground arith in
        let e : s + (i - d) ≡ s = omega arith in rw (left, right, other, e) refl
  ]
]

-- One byte at the end, then the rest.
copied_back :
    (n d s : ℕ) (a : ℕ → ℕ) (i : ℕ)
    → s ≤ d
    → copied (stored a (d + n) (a (s + n))) d (stored a (d + n) (a (s + n))) s n i
      ≡ copied a d a s (suc n) i
copied_back n d s a i low = elim (dec_lt i (d + n)) [
  | yes before ↦ elim (dec_lt i d) [
    | yes out ↦
        let left : (leb d i && ltb i (d + n)) ≡ false = ground arith in
        let right : (leb d i && ltb i (d + suc n)) ≡ false = ground arith in
        let other : (i == d + n) ≡ false = ground arith in rw (left, right, other) refl
    | no within ↦
        let left : (leb d i && ltb i (d + n)) ≡ true = ground arith in
        let right : (leb d i && ltb i (d + suc n)) ≡ true = ground arith in
        let other : (s + (i - d) == d + n) ≡ false = ground arith in rw (left, right, other) refl
  ]
  | no after ↦ elim (dec_lt (d + n) i) [
    | yes out ↦
        let left : (leb d i && ltb i (d + n)) ≡ false = ground arith in
        let right : (leb d i && ltb i (d + suc n)) ≡ false = ground arith in
        let other : (i == d + n) ≡ false = ground arith in rw (left, right, other) refl
    | no last ↦
        let left : (leb d i && ltb i (d + n)) ≡ false = ground arith in
        let right : (leb d i && ltb i (d + suc n)) ≡ true = ground arith in
        let other : (i == d + n) ≡ true = ground arith in
        let e : s + (i - d) ≡ s + n = omega arith in rw (left, right, other, e) refl
  ]
]

-- memcpy copies the old bytes if the destination does not start within the source.
memcpy_loop-copied :
    (n d s : ℕ) (a : ℕ → ℕ) (i : ℕ)
    → (d ≤ s) ⊎ (s + n ≤ d)
    → memcpy_loop n d s a i ≡ copied a d a s n i
unfolding memcpy_loop
memcpy_loop-copied zero d s a i apart =
    let none_in : (leb d i && ltb i (d + 0)) ≡ false = ground arith in rw none_in refl
memcpy_loop-copied (suc n) d s a i apart =
    memcpy_loop-copied n (d + 1) (s + 1) (stored a d (a s)) i
      (elim apart [ inl low ↦ inl (omega arith) | inr high ↦ inr (omega arith) ])
    ∙ copied_forward n d s a i (elim apart [ inl low ↦ inl low | inr high ↦ inr (omega arith) ])

move_back-copied :
    (n d s : ℕ) (a : ℕ → ℕ) (i : ℕ) → s ≤ d → move_back n d s a i ≡ copied a d a s n i
unfolding move_back
move_back-copied zero d s a i low =
    let none_in : (leb d i && ltb i (d + 0)) ≡ false = ground arith in rw none_in refl
move_back-copied (suc n) d s a i low =
    move_back-copied n d s (stored a (d + n) (a (s + n))) i low ∙ copied_back n d s a i low

memmove-copied : (d s n : ℕ) (a : ℕ → ℕ) (i : ℕ) → memmove d s n a i ≡ copied a d a s n i
unfolding memmove
memmove-copied d s n a i = elim (Bool-cases (ltb d s)) [
  | inl e ↦ rw e (memcpy_loop-copied n d s a i (inl (let lt = ltb→lt d s e in omega arith)))
  | inr e ↦ rw e (move_back-copied n d s a i (ground arith))
]

memset_loop-filled :
    (n p c : ℕ) (a : ℕ → ℕ) (i : ℕ)
    → memset_loop n p c a i ≡ (if leb p i && ltb i (p + n) then c % 256 else a i)
unfolding memset_loop
memset_loop-filled zero p c a i =
    let none_in : (leb p i && ltb i (p + 0)) ≡ false = ground arith in rw none_in refl
memset_loop-filled (suc n) p c a i =
    memset_loop-filled n (p + 1) c (stored a p (c % 256)) i ∙ ground arith

-- For any memory and any two regions, overlapping or not, `memmove` leaves at every address what a
-- copy of the old bytes at once leaves, and `memset` leaves the low byte of its value in its region
-- and the old bytes elsewhere.
pub moves-copied :
    (n d s c : ℕ) (a : ℕ → ℕ) (i : ℕ)
    → (memmove d s n a i ≡ copied a d a s n i)
      × (memset_loop n d c a i ≡ (if leb d i && ltb i (d + n) then c % 256 else a i))
moves-copied n d s c a i = (memmove-copied d s n a i, memset_loop-filled n d c a i)
