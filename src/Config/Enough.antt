-- ===== src/Config/Enough.antt =====
-- The rounds that `config_load` gives to its loop are enough.
use sn.Base.{ℕ, ◌≤◌, ◌≡◌, refl, zero, suc, List, [], ◌∷◌, length, ◌==◌, arith, Bool-cases, inl, inr}
use sn.Common.{NodeConfig}
use sn.Config.{fgets, load_line, load_lines}

fgets_rest : (room : ℕ) (s : List ℕ) → length (fgets room s).1 ≤ length s
unfolding fgets
fgets_rest zero s = omega arith
fgets_rest (suc room) [] = omega arith
fgets_rest (suc room) (c ∷ s) = elim (Bool-cases (c == 10)) [
  | inl e ↦ rw e (omega arith)
  | inr e ↦ rw e (omega (arith, fgets_rest room s))
]

pub fgets_takes : (room c : ℕ) (s : List ℕ) → length (fgets (suc room) (c ∷ s)).1 ≤ length s
unfolding fgets
fgets_takes room c s = elim (Bool-cases (c == 10)) [
  | inl e ↦ rw e (omega arith)
  | inr e ↦ rw e (fgets_rest room s)
]

-- Any two numbers of rounds that are enough give the same.
same_rounds :
    (f k : ℕ) (s : List ℕ) (c : NodeConfig)
    → length s ≤ f
    → length s ≤ k
    → load_lines f s c ≡ load_lines k s c
unfolding load_lines
same_rounds zero zero [] c h h' = refl
same_rounds zero (suc k) [] c h h' = refl
same_rounds (suc f) zero [] c h h' = refl
same_rounds (suc f) (suc k) [] c h h' = refl
same_rounds zero k (d ∷ s) c h h' = absurd (omega arith)
same_rounds (suc f) zero (d ∷ s) c h h' = absurd (omega arith)
same_rounds (suc f) (suc k) (d ∷ s) c h h' =
    let short = fgets_takes 254 d s in
    same_rounds f k (fgets 255 (d ∷ s)).1 (load_line (fgets 255 (d ∷ s)).0 c) (omega (arith, short))
      (omega (arith, short))

-- On as many rounds as the text has characters, or more, the loop over the lines gives the same
-- configuration as on exactly as many.
pub load_lines-length :
    (fuel : ℕ) (s : List ℕ) (c : NodeConfig)
    → length s ≤ fuel
    → load_lines fuel s c ≡ load_lines (length s) s c
load_lines-length fuel s c h = same_rounds fuel (length s) s c h (omega arith)
