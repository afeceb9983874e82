-- ===== src/Cgi/Enough.antt =====
-- The rounds that `parse_formdata` gives to its loop are enough.
use sn.Base.{
  subst, ap, ◌∙◌, ℕ, ◌≤◌, ◌<◌, ◌≡◌, refl, zero, suc, Bool, List, [], ◌∷◌, length, ◌==◌, arith,
  Bool-cases, inl, inr,
}
use sn.Common.{NodeConfig}
use sn.Text.{span_to}
use sn.Cgi.{skip_char, next_field, form_loop, set_field}

span_rest : (stop : ℕ → Bool) (limit : ℕ) (s : List ℕ) → length (span_to stop limit s).1 ≤ length s
unfolding span_to
span_rest stop zero s = omega arith
span_rest stop (suc limit) [] = omega arith
span_rest stop (suc limit) (c ∷ s) = elim (Bool-cases (stop c)) [
  | inl e ↦ rw e (omega arith)
  | inr e ↦ rw e (omega (arith, span_rest stop limit s))
]

skip_rest : (c : ℕ) (s : List ℕ) → length (skip_char c s) ≤ length s
unfolding skip_char
skip_rest c [] = omega arith
skip_rest c (d ∷ s) = elim (Bool-cases (d == c)) [
  | inl e ↦ rw e (omega arith)
  | inr e ↦ rw e (omega arith)
]

-- A key and the `=` after it take a character.
key_takes :
    (limit c : ℕ) (s : List ℕ)
    → length (skip_char 61 (span_to (λ d. d == 61) (suc limit) (c ∷ s)).1) ≤ length s
unfolding span_to skip_char
key_takes limit c s = elim (Bool-cases (c == 61)) [
  | inl e ↦ rw (e, e) (omega arith)
  | inr e ↦
      let a = span_rest (λ d. d == 61) limit s in
      let b = skip_rest 61 (span_to (λ d. d == 61) limit s).1 in rw e (omega (arith, a, b))
]

field_takes : (c : ℕ) (s : List ℕ) → length (next_field (c ∷ s)).2 ≤ length s
unfolding next_field
field_takes c s =
    let rest = skip_char 61 (span_to (λ d. d == 61) 63 (c ∷ s)).1 in
    omega (
      arith,
      key_takes 62 c s,
      span_rest (λ d. d == 38) 191 rest,
      skip_rest 38 (span_to (λ d. d == 38) 191 rest).1,
    )

-- Any two numbers of rounds that are enough give the same.
same_rounds :
    (f k : ℕ) (s : List ℕ) (c : NodeConfig)
    → length s ≤ f
    → length s ≤ k
    → form_loop f s c ≡ form_loop k s c
unfolding form_loop
same_rounds zero zero [] c h h' = refl
same_rounds zero (suc k) [] c h h' = refl
same_rounds (suc f) zero [] c h h' = refl
same_rounds (suc f) (suc k) [] c h h' = refl
same_rounds zero k (d ∷ s) c h h' = absurd (omega arith)
same_rounds (suc f) zero (d ∷ s) c h h' = absurd (omega arith)
same_rounds (suc f) (suc k) (d ∷ s) c h h' =
    let (key, value, rest) = next_field (d ∷ s) in
    let short = field_takes d s in
    same_rounds f k rest (set_field key value c) (omega (arith, short)) (omega (arith, short))

-- On as many rounds as the body has characters, or more, the loop over the fields gives the same
-- configuration as on exactly as many.
form_loop-length :
    (fuel : ℕ) (body : List ℕ) (c : NodeConfig)
    → length body ≤ fuel
    → form_loop fuel body c ≡ form_loop (length body) body c
form_loop-length fuel body c h = same_rounds fuel (length body) body c h (omega arith)

-- One round, each with as many rounds as there are characters.
pub form_loop-next_field :
    (body key value rest : List ℕ) (c : NodeConfig)
    → 0 < length body
    → next_field body ≡ (key, value, rest)
    → form_loop (length body) body c ≡ form_loop (length rest) rest (set_field key value c)
unfolding form_loop
form_loop-next_field [] key value rest c some_char e = elim some_char [ ]
form_loop-next_field (d ∷ s) key value rest c some_char e =
    let short : length rest ≤ length s = subst (λ r. length r.2 ≤ length s) e (field_takes d s) in
    ap (λ r. form_loop (length s) r.2 (set_field r.0 r.1 c)) e
    ∙ form_loop-length (length s) rest (set_field key value c) short
