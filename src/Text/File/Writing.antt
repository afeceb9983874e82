-- ===== src/Text/File/Writing.antt =====
-- src/oabi/minilib.c: a file holds what was written to it, in order.
use sn.Base.{
  ap, ap₂, sym, ◌∙◌, ◌≡◌, refl, ◌≤◌, ◌<◌, ℕ, ◌+◌, ◌-◌, zero, suc, true, false, ◌||◌, ◌&&◌, not,
  Option, some, List, [], ◌∷◌, ◌++◌, append_assoc, append_nil, length, get_or, slice, slice-eq, ltb,
  leb, ◌==◌, ◌>>=◌, Bool-cases, inl, inr, copied, memcpy_within, arith,
}
use sn.Text.File.{OutFile, opened, flush, append_buf, buffered_write, flushed_write, fwrite, fclose}

slice-append : (a : ℕ → ℕ) (i m n : ℕ) → slice a i (m + n) ≡ slice a i m ++ slice a (i + m) n
slice-append a i zero n =
    let e : 0 + n ≡ n = omega arith in let z : i + 0 ≡ i = omega arith in rw (e, z) refl
slice-append a i (suc m) n =
    let e : suc m + n ≡ suc (m + n) = omega arith in
    let z : i + suc m ≡ i + 1 + m = omega arith in
    rw (e, z) (ap (λ l. a i ∷ l) (slice-append a (i + 1) m n))

-- An array of the elements of a list.
pub slice-get_or : (t : List ℕ) → slice (λ i. get_or t i 0) 0 (length t) ≡ t
slice-get_or [] = refl
slice-get_or (c ∷ t) =
    ap (λ l. c ∷ l)
      (slice-eq (λ i. get_or (c ∷ t) i 0) (λ i. get_or t i 0) 1 0 (length t) shift ∙ slice-get_or t)
  where
    shift : (k : ℕ) → k < length t → get_or (c ∷ t) (1 + k) 0 ≡ get_or t (0 + k) 0
    shift k h =
        let e : 1 + k ≡ suc k = omega arith in let z : 0 + k ≡ k = omega arith in rw (e, z) refl

-- Bytes that are copied behind the ones that count.
pub slice-copied :
    (buf : ℕ → ℕ) (src : List ℕ) (at : ℕ)
    → slice (copied buf at (λ i. get_or src i 0) 0 (length src)) 0 (at + length src)
      ≡ slice buf 0 at ++ src
slice-copied buf src at =
    let new = copied buf at (λ i. get_or src i 0) 0 (length src) in
    slice-append new 0 at (length src)
    ∙ ap₂ (λ a b. a ++ b) (slice-eq new buf 0 0 at (λ k h. ground arith))
        (slice-eq new (λ i. get_or src i 0) (0 + at) 0 (length src) behind ∙ slice-get_or src)
  where
    behind :
        (k : ℕ)
        → k < length src
        → copied buf at (λ i. get_or src i 0) 0 (length src) (0 + at + k) ≡ get_or src (0 + k) 0
    behind k h =
        let e : 0 + (0 + at + k - at) ≡ 0 + k = omega arith in
        let inside : (leb at (0 + at + k) && ltb (0 + at + k) (at + length src)) ≡ true =
          ground arith in
        rw (inside, e) refl

-- What the file will hold: what was written, and what waits in the buffer.
abbrev pub contents : OutFile → List ℕ
contents f = f.written ++ slice f.buf 0 f.buf_pos

pub record IsWriting (f : OutFile) : Type 0 where
  pub within : f.buf_pos ≤ 256
  pub in_use : f.in_use ≡ true

flush-contents : (f : OutFile) → (flush f).written ≡ contents f
flush-contents f = elim (Bool-cases (ltb 0 f.buf_pos)) [
  | inl e ↦ rw e refl
  | inr e ↦ let z : f.buf_pos ≡ 0 = ground arith in rw (e, z) (sym (append_nil f.written))
]

flush-empties : (f : OutFile) → (flush f).buf_pos ≡ 0
flush-empties f = elim (Bool-cases (ltb 0 f.buf_pos)) [
  | inl e ↦ rw e refl
  | inr e ↦ let z : f.buf_pos ≡ 0 = ground arith in rw e z
]

flush-in_use : (f : OutFile) → (flush f).in_use ≡ f.in_use
flush-in_use f = elim (Bool-cases (ltb 0 f.buf_pos)) [ inl e ↦ rw e refl | inr e ↦ rw e refl ]

-- What a call of `fwrite` gives.
abbrev Appends : List ℕ → OutFile → Option (ℕ × OutFile) → Type 0
Appends src f result =
    (f' : OutFile) × (result ≡ some (length src, f'))
    × IsWriting f'
    × (contents f' ≡ contents f ++ src)

append_buf-contents :
    (src : List ℕ) (f : OutFile)
    → f.in_use ≡ true
    → f.buf_pos + length src ≤ 256
    → (f' : OutFile) × (append_buf src f ≡ some f')
      × IsWriting f'
      × (contents f' ≡ contents f ++ src)
append_buf-contents src f used fits =
    let room =
      memcpy_within 256 f.buf f.buf_pos (length src) (λ i. get_or src i 0) 0 (length src) fits
        (omega arith) in
    (
      record f {
        buf = copied f.buf f.buf_pos (λ i. get_or src i 0) 0 (length src);
        buf_pos = f.buf_pos + length src;
      },
      rw room refl,
      record { within = fits; in_use = used },
      ap (λ l. f.written ++ l) (slice-copied f.buf src f.buf_pos)
          ∙ sym (append_assoc f.written (slice f.buf 0 f.buf_pos) src),
    )

flushed-contents : (f : OutFile) → contents (flush f) ≡ contents f
flushed-contents f = rw (flush-empties f) (append_nil (flush f).written ∙ flush-contents f)

buffered_write-contents :
    (src : List ℕ) (f : OutFile)
    → f.in_use ≡ true
    → f.buf_pos + length src ≤ 256
    → Appends src f (buffered_write src f)
unfolding buffered_write
buffered_write-contents src f used fits =
    let (f', runs, ok, same) = append_buf-contents src f used fits in (f', rw runs refl, ok, same)

flushed_write-contents :
    (src : List ℕ) (f : OutFile)
    → f.in_use ≡ true
    → f.buf_pos ≡ 0
    → Appends src f (flushed_write src f)
unfolding flushed_write
flushed_write-contents src f used empty = elim (Bool-cases (ltb 256 (length src))) [
  | inl large ↦ rw (large) (
    record f { written = f.written ++ src },
    refl,
    record { within = omega (arith, empty); in_use = used },
    rw empty (append_nil (f.written ++ src) ∙ ap (λ l. l ++ src) (sym (append_nil f.written))),
  )
  | inr small ↦ rw small (buffered_write-contents src f used (ground arith))
]

any_empty : (src : List ℕ) → (length src == 0) ≡ true → src ≡ []
any_empty [] h = refl
any_empty (c ∷ src) h = absurd (ground arith)

nothing_written :
    (src : List ℕ) (f : OutFile) → IsWriting f → src ≡ [] → Appends src f (some (0, f))
nothing_written [] f h e = (f, refl, h, sym (append_nil (contents f)))
nothing_written (c ∷ src) f h e = absurd (cc e)

pub fwrite-contents : (src : List ℕ) (f : OutFile) → IsWriting f → Appends src f (fwrite src f)
unfolding fwrite
fwrite-contents src f h = elim (Bool-cases (length src == 0)) [
  | inl z ↦
      let e : (not f.in_use || length src == 0) ≡ true = rw (h.in_use, z) refl in
      rw e (nothing_written src f h (any_empty src z))
  | inr z ↦
      let e : (not f.in_use || length src == 0) ≡ false = rw (h.in_use, z) refl in
      elim (Bool-cases (ltb 256 (f.buf_pos + length src))) [
        | inl over ↦
            let (f', runs, ok, same) =
              flushed_write-contents src (flush f) (flush-in_use f ∙ h.in_use) (flush-empties f) in
            rw (e, over) (f', runs, ok, same ∙ ap (λ l. l ++ src) (flushed-contents f))
        | inr fits ↦ rw (e, fits) (buffered_write-contents src f h.in_use (ground arith))
      ]
]

-- Calls of `fwrite` on one file.
unfoldable pub writes : List (List ℕ) → OutFile → Option OutFile
writes [] f = some f
writes (src ∷ srcs) f = do (n, f') ← fwrite src f; writes srcs f'

-- All that was to be written.
unfoldable pub joined : List (List ℕ) → List ℕ
joined [] = []
joined (src ∷ srcs) = src ++ joined srcs

writes-contents :
    (srcs : List (List ℕ)) (f : OutFile)
    → IsWriting f
    → (f' : OutFile) × (writes srcs f ≡ some f') × (contents f' ≡ contents f ++ joined srcs)
unfolding writes joined
writes-contents [] f h = (f, refl, sym (append_nil (contents f)))
writes-contents (src ∷ srcs) f h =
    let (f₁, runs, ok, same) = fwrite-contents src f h in
    let (f₂, runs', same') = writes-contents srcs f₁ ok in
    (
      f₂,
      rw (runs, runs') refl,
      same' ∙ ap (λ l. l ++ joined srcs) same ∙ append_assoc (contents f) src (joined srcs),
    )

-- Any sequence of calls of `fwrite` on a file that was opened for writing runs without leaving the
-- buffer, and `fclose` leaves a file that holds the bytes of the calls one after another.
pub fclose-writes :
    (srcs : List (List ℕ)) (old : ℕ → ℕ)
    → (f : OutFile) × (writes srcs (opened old) ≡ some f) × (fclose f ≡ joined srcs)
unfolding fclose
fclose-writes srcs old =
    let (f, runs, same) =
      writes-contents srcs (opened old) (record { within = omega arith; in_use = refl }) in
    (f, runs, flush-contents f ∙ same)
