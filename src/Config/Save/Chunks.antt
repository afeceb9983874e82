-- ===== src/Config/Save/Chunks.antt =====
-- src/config/config.c: the lines that saving and loading cut a file into are the same.
use sn.Base.{
  ap, sym, ◌∙◌, ◌≡◌, refl, ◌≤◌, ℕ, zero, suc, true, false, none, some, List, [], ◌∷◌, ◌++◌, take,
  drop, length, length-append, leb, ◌==◌, if◌then◌else◌, Bool-cases, inl, inr, ==_iff, arith,
}
use sn.Common.{NodeConfig}
use sn.Config.{fgets, load_line, load_lines}
use sn.Config.Enough.{load_lines-length}
use sn.Config.Save.{strchr, upto_newline, line_length}
use sn.Config.Save.Line.{IsChunk}

-- The loop of `config_load`, with the rounds that it is given.
abbrev pub load_all : List ℕ → NodeConfig → NodeConfig
load_all s c = load_lines (length s) s c

-- A line that comes first is loaded first.
pub load_all-chunk :
    (l t : List ℕ) (c : NodeConfig) → IsChunk l → load_all (l ++ t) c ≡ load_all t (load_line l c)
unfolding load_lines load_line
load_all-chunk [] t c h = refl
load_all-chunk (d ∷ l) t c h =
    let enough : length t ≤ length (l ++ t) = omega (arith, length-append l t) in
    rw (load_lines, h t) (load_lines-length (length (l ++ t)) t (load_line (d ∷ l) c) enough)

-- Every line has its newline.
unfoldable pub Whole : List ℕ → Type 0
Whole [] = Unit
Whole (c ∷ []) = c ≡ 10
Whole (c ∷ d ∷ s) = Whole (d ∷ s)

fgets_break : (room d : ℕ) (s : List ℕ) → (d == 10) ≡ true → fgets (suc room) (d ∷ s) ≡ (d ∷ [], s)
unfolding fgets
fgets_break room d s z = rw (fgets, z) refl

fgets_more :
    (room d : ℕ) (s : List ℕ)
    → (d == 10) ≡ false
    → fgets (suc room) (d ∷ s) ≡ (d ∷ (fgets room s).0, (fgets room s).1)
unfolding fgets
fgets_more room d s z = rw (fgets, z) refl

-- The first line of whole lines is the first line of any text that begins with it, and what
-- follows is whole.
pub fgets-Whole :
    (room d : ℕ) (s t : List ℕ)
    → Whole (d ∷ s)
    → (fgets room ((fgets room (d ∷ s)).0 ++ t) ≡ ((fgets room (d ∷ s)).0, t))
      × Whole (fgets room (d ∷ s)).1
unfolding fgets
fgets-Whole zero d s t h = (refl, h)
fgets-Whole (suc room) d [] t h =
    let z : (d == 10) ≡ true = (==_iff d 10).1 (unfold Whole in h) in
    rw (fgets_break room d [] z) (fgets_break room d t z, unfold Whole in tt)
fgets-Whole (suc room) d (e ∷ s) t h = elim (Bool-cases (d == 10)) [
  | inl z ↦ rw (fgets_break room d (e ∷ s) z) (fgets_break room d t z, unfold Whole in h)
  | inr z ↦
      let (again, whole) = fgets-Whole room e s t (unfold Whole in h) in
      rw (fgets_more room d (e ∷ s) z)
        ((fgets_more room d _ z ∙ ap (λ r. (d ∷ r.0, r.1)) again), whole)
]

-- `linelen` for lines of at most `room` characters.
abbrev room_length : ℕ → List ℕ → ℕ
room_length room s =
    let n = upto_newline (strchr s 10) (length s) in if leb (suc room) n then room else n

first_break :
    (c : ℕ) (s : List ℕ) → (c == 10) ≡ true → upto_newline (strchr (c ∷ s) 10) (length (c ∷ s)) ≡ 1
unfolding strchr
first_break c s z = rw (strchr, z) refl

later_break :
    (c : ℕ) (s : List ℕ)
    → (c == 10) ≡ false
    → upto_newline (strchr (c ∷ s) 10) (length (c ∷ s))
      ≡ suc (upto_newline (strchr s 10) (length s))
unfolding strchr
later_break c s z =
    rw (strchr, z)
      (elim (strchr s 10)
        as (λ o.
          upto_newline (elim o [ none ↦ none | some i ↦ some (suc i) ]) (suc (length s))
          ≡ suc (upto_newline o (length s))) [ none ↦ refl | some i ↦ refl ])

abbrev at_most : ℕ → ℕ → ℕ
at_most room n = if leb (suc room) n then room else n

at_most-zero : (n : ℕ) → at_most 0 n ≡ 0
at_most-zero n = ground arith

at_most-one : (room : ℕ) → at_most (suc room) 1 ≡ 1
at_most-one room = ground arith

at_most-suc : (room n : ℕ) → at_most (suc room) (suc n) ≡ suc (at_most room n)
at_most-suc room n = ground arith

at_most-empty : (room : ℕ) → at_most (suc room) 0 ≡ 0
at_most-empty room = ground arith

pub cut-fgets :
    (room : ℕ) (s : List ℕ)
    → (take (room_length room s) s, drop (room_length room s) s) ≡ fgets room s
unfolding fgets
cut-fgets zero s = rw (at_most-zero (upto_newline (strchr s 10) (length s))) refl
cut-fgets (suc room) [] = unfold strchr in rw (at_most-empty room) refl
cut-fgets (suc room) (c ∷ s) = elim (Bool-cases (c == 10)) [
  | inl z ↦ rw (first_break c s z, at_most-one room) (sym (fgets_break room c s z))
  | inr z ↦
      rw (later_break c s z, at_most-suc room (upto_newline (strchr s 10) (length s)))
        (ap (λ r. (c ∷ r.0, r.1)) (cut-fgets room s) ∙ sym (fgets_more room c s z))
]

-- The line that saving takes is the one that loading takes.
pub line_length-fgets :
    (s : List ℕ) → (take (line_length s) s, drop (line_length s) s) ≡ fgets 255 s
unfolding line_length
line_length-fgets s = cut-fgets 255 s
