-- ===== src/Text/File/Reading.antt =====
-- src/oabi/minilib.c: `fgets` on the buffer takes the lines of the file, however `read` cuts it.
use sn.Base.{
  ap, sym, ◌∙◌, ◌≡◌, refl, ◌≤◌, ◌<◌, ℕ, ◌+◌, ◌-◌, zero, suc, Option, some, List, [], ◌∷◌, ◌++◌,
  length, get_or, slice, take, drop, leb, ◌==◌, Bool-cases, inl, inr, ==_iff, copied, memcpy_within,
  load_within, leb→le, length-take-le, arith,
}
use sn.Config.{fgets}
use sn.Text.File.{InFile, refill, if_empty, fgets_loop}
use sn.Text.File.Writing.{slice-copied}

-- What is still to be read: the rest of the buffer, and what `read` has not given.
abbrev pub unread : InFile → List ℕ
unread f = slice f.buf f.buf_pos (f.buf_len - f.buf_pos) ++ f.rest

pub record IsReading (f : InFile) : Type 0 where
  pub position : f.buf_pos ≤ f.buf_len
  pub within : f.buf_len ≤ 256

take-drop : (n : ℕ) (s : List ℕ) → take n s ++ drop n s ≡ s
take-drop zero s = refl
take-drop (suc n) [] = refl
take-drop (suc n) (c ∷ s) = ap (λ l. c ∷ l) (take-drop n s)

take_some : (n c : ℕ) (s : List ℕ) → 0 < n → 0 < length (take n (c ∷ s))
take_some zero c s h = elim h [ ]
take_some (suc n) c s h = omega arith

nothing_left : (f : InFile) → f.buf_len ≡ f.buf_pos → unread f ≡ f.rest
nothing_left f e = let z : f.buf_len - f.buf_pos ≡ 0 = omega (arith, e) in rw z refl

held :
    (buf : ℕ → ℕ) (given : List ℕ)
    → slice (copied buf 0 (λ i. get_or given i 0) 0 (length given)) 0 (length given - 0) ≡ given
held buf given =
    let e : length given - 0 ≡ 0 + length given = omega arith in rw e (slice-copied buf given 0)

module _ (amount : List ℕ → ℕ) (bounded : (s : List ℕ) → amount s ≤ 256)
    (gives : (c : ℕ) (s : List ℕ) → 0 < amount (c ∷ s)) where
  -- What the loop needs after the buffer was filled if it was empty.
  abbrev Filled : InFile → Option InFile → Type 0
  Filled f result =
      (f' : InFile) × (result ≡ some f')
      × IsReading f'
      × (unread f' ≡ unread f)
      × (f'.buf_len ≡ 0 → unread f ≡ [])
      × (0 < f'.buf_len → f'.buf_pos < f'.buf_len)

  refill-Filled : (f : InFile) → f.buf_len ≡ f.buf_pos → Filled f (refill amount f)
  unfolding refill
  refill-Filled f empty =
      let given = take (amount f.rest) f.rest in
      let short : length given ≤ 256 =
        omega (arith, bounded f.rest, length-take-le (amount f.rest) f.rest) in
      let copies =
        memcpy_within 256 f.buf 0 (length given) (λ i. get_or given i 0) 0 (length given)
          (omega arith) (omega arith) in
      let all : unread f ≡ f.rest = nothing_left f empty in
      (
        record {
          buf = copied f.buf 0 (λ i. get_or given i 0) 0 (length given);
          buf_pos = 0;
          buf_len = length given;
          rest = drop (amount f.rest) f.rest;
        },
        rw copies refl,
        record { position = omega arith; within = short },
        (ap (λ l. l ++ drop (amount f.rest) f.rest) (held f.buf given)
            ∙ take-drop (amount f.rest) f.rest
            ∙ sym all),
        (λ z. all ∙ at_end f.rest z),
        (λ h. h),
      )
    where
      at_end : (s : List ℕ) → length (take (amount s) s) ≡ 0 → s ≡ []
      at_end [] z = refl
      at_end (c ∷ s) z = absurd (omega (arith, z, take_some (amount (c ∷ s)) c s (gives c s)))

  if_empty-Filled : (f : InFile) → IsReading f → Filled f (if_empty amount f)
  unfolding if_empty
  if_empty-Filled f h = elim (Bool-cases (leb f.buf_len f.buf_pos)) [
    | inl e ↦
        rw e (refill-Filled f (let p = h.position in omega (arith, leb→le f.buf_len f.buf_pos e)))
    | inr e ↦ rw e (f, refl, h, refl, (λ z. absurd (ground arith)), (λ k. ground arith))
  ]

  -- What the loop of `fgets` gives.
  abbrev Lines : ℕ → InFile → Option (List ℕ × InFile) → Type 0
  Lines room f result =
      (f' : InFile) × (result ≡ some ((fgets room (unread f)).0, f'))
      × (unread f' ≡ (fgets room (unread f)).1)
      × IsReading f'

  -- One character that is in the buffer.
  next_char :
      (f : InFile)
      → f.buf_pos < f.buf_len
      → unread f ≡ f.buf f.buf_pos ∷ unread (record f { buf_pos = f.buf_pos + 1 })
  next_char f h =
      let e : f.buf_len - f.buf_pos ≡ suc (f.buf_len - (f.buf_pos + 1)) = omega arith in rw e refl

  fgets_loop-Lines : (room : ℕ) (f : InFile) → IsReading f → Lines room f (fgets_loop amount room f)
  unfolding fgets_loop fgets
  fgets_loop-Lines zero f h = (f, refl, refl, h)
  fgets_loop-Lines (suc room) f h =
      let (f₁, filled, ok, same, ended, some_left) = if_empty-Filled f h in
      elim (Bool-cases (f₁.buf_len == 0)) [
        | inl z ↦
            let none_left = ended ((==_iff f₁.buf_len 0).0 z) in
            rw (filled, z, none_left) (f₁, refl, same ∙ none_left, ok)
        | inr z ↦
            let lt = some_left (ground arith) in
            let size = ok.within in
            let within : f₁.buf_pos < 256 = omega arith in
            let loads = load_within 256 f₁.buf f₁.buf_pos within in
            let split = sym same ∙ next_char f₁ lt in
            let f₂ : InFile = record f₁ { buf_pos = f₁.buf_pos + 1 } in
            let ok₂ : IsReading f₂ = record { position = omega arith; within = ok.within } in
            elim (Bool-cases (f₁.buf f₁.buf_pos == 10)) [
              | inl e ↦ rw (filled, z, loads, split, e) (f₂, refl, refl, ok₂)
              | inr e ↦
                  let (f₃, runs, same', ok₃) = fgets_loop-Lines room f₂ ok₂ in
                  rw (filled, z, loads, split, e, runs) (f₃, refl, same', ok₃)
            ]
      ]

-- If `read` gives at least one byte while there are any, and at most 256, then the loop of `fgets`
-- on the buffer of a file runs without leaving the buffer, and takes exactly the characters that
-- `fgets` takes of what is unread, with the rest left unread, however `read` cuts the file.
pub fgets_loop-fgets :
    (amount : List ℕ → ℕ)
    → ((s : List ℕ) → amount s ≤ 256)
    → ((c : ℕ) (s : List ℕ) → 0 < amount (c ∷ s))
    → (room : ℕ) (f : InFile) → IsReading f
    → (f' : InFile) × (fgets_loop amount room f ≡ some ((fgets room (unread f)).0, f'))
      × (unread f' ≡ (fgets room (unread f)).1)
      × IsReading f'
fgets_loop-fgets amount bounded gives room f h = fgets_loop-Lines amount bounded gives room f h
