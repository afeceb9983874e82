-- ===== src/Config/Save/Line.antt =====
-- A line `key = value` that `format_key` prints is read back as its key and its value.
use sn.Base.{
  append_assoc, ap, subst, ◌∙◌, ◌≡◌, ◌≢◌, refl, ◌≤◌, ◌<◌, ℕ, ◌-◌, zero, suc, Bool, false, ◌||◌,
  List, [], ◌∷◌, ◌++◌, length, length-append, ◌==◌, arith,
}
use sn.Common.{NodeConfig}
use sn.Text.{skip_blanks, is_blank, span_to}
use sn.Text.Digits.{AllFrom}
use sn.Text.Format.{padded}
use sn.Config.{trim, trim_end, set_key, set_pair, scan_value, fgets}

-- No byte is NUL.
abbrev pub HasNoNul : List ℕ → Type 0
HasNoNul [] = Unit
HasNoNul (c ∷ s) = (c ≢ 0) × HasNoNul s

-- The end of a line for the scan of a value.
abbrev pub is_break : ℕ → Bool
is_break d = d == 10 || d == 13

unfoldable pub NoBreak : List ℕ → Type 0
NoBreak [] = Unit
NoBreak (c ∷ s) = (is_break c ≡ false) × NoBreak s

-- A value that a line gives back.
pub record IsValue (v : List ℕ) : Type 0 where
  pub no_break : NoBreak v
  pub trimmed : trim v ≡ v
  pub short : length v ≤ 180

pub span-NoBreak :
    (room : ℕ) (v : List ℕ)
    → NoBreak v
    → length v < room
    → span_to is_break room (v ++ 10 ∷ []) ≡ (v, 10 ∷ [])
unfolding span_to NoBreak
span-NoBreak zero v h k = elim k [ ]
span-NoBreak (suc room) [] h k = refl
span-NoBreak (suc room) (c ∷ v) (e, h) k = rw (span_to, e, span-NoBreak room v h (omega arith)) refl

-- A value behind the blank after the equals sign.
pub load_pair :
    (key v : List ℕ) (c : NodeConfig)
    → IsValue v
    → (length key == 0) ≡ false
    → set_pair (scan_value key (61 ∷ 32 ∷ (v ++ 10 ∷ []))) c ≡ set_key (trim key) v c
unfolding scan_value set_pair
load_pair key v c h k =
    let short = h.short in
    let blank : trim (32 ∷ v) ≡ trim v = (unfold trim skip_blanks in refl) in
    let all : span_to is_break 191 (32 ∷ (v ++ 10 ∷ [])) ≡ (32 ∷ v, 10 ∷ []) =
      span-NoBreak 191 (32 ∷ v) (unfold NoBreak in (refl, h.no_break)) (omega arith) in
    let z : (length (32 ∷ v) == 0) ≡ false = ground arith in
    rw (all, k, z) (ap (λ t. set_key (trim key) t c) (blank ∙ h.trimmed))

-- The line that a whole text gives first, whatever follows.
abbrev pub IsChunk : List ℕ → Type 0
IsChunk l = (rest : List ℕ) → fgets 255 (l ++ rest) ≡ (l, rest)

fgets-NoBreak :
    (room : ℕ) (v rest : List ℕ)
    → NoBreak v
    → length v < room
    → fgets room ((v ++ 10 ∷ []) ++ rest) ≡ (v ++ 10 ∷ [], rest)
unfolding fgets NoBreak
fgets-NoBreak zero v rest h k = elim k [ ]
fgets-NoBreak (suc room) [] rest h k = refl
fgets-NoBreak (suc room) (c ∷ v) rest (e, h) k =
    let z : (c == 10) ≡ false = ground arith in
    rw (fgets, z, fgets-NoBreak room v rest h (omega arith)) refl

pub IsChunk-line : (v : List ℕ) → NoBreak v → length v ≤ 254 → IsChunk (v ++ 10 ∷ [])
IsChunk-line v h k rest = fgets-NoBreak 255 v rest h (omega arith)

-- Text without blanks and line ends.
pub AllFrom-NoBreak : (v : List ℕ) → AllFrom 33 v → NoBreak v
unfolding AllFrom NoBreak
AllFrom-NoBreak [] h = tt
AllFrom-NoBreak (c ∷ v) (h, k) = (ground arith, AllFrom-NoBreak v k)

trim_end-AllFrom : (v : List ℕ) → AllFrom 33 v → trim_end v ≡ v
unfolding AllFrom trim_end
trim_end-AllFrom [] h = refl
trim_end-AllFrom (c ∷ v) (h, k) =
    let e : is_blank c ≡ false = ground arith in rw (trim_end, e, trim_end-AllFrom v k) refl

skip_blanks-AllFrom : (v : List ℕ) → AllFrom 33 v → skip_blanks v ≡ v
unfolding AllFrom skip_blanks
skip_blanks-AllFrom [] h = refl
skip_blanks-AllFrom (c ∷ v) (h, k) =
    let e : is_blank c ≡ false = ground arith in rw (skip_blanks, e) refl

pub AllFrom-IsValue : (v : List ℕ) → AllFrom 33 v → length v ≤ 180 → IsValue v
unfolding trim
AllFrom-IsValue v h k = record {
  no_break = AllFrom-NoBreak v h;
  trimmed = rw (skip_blanks-AllFrom v h) (trim_end-AllFrom v h);
  short = k;
}

pub AllFrom-append : (low : ℕ) (s t : List ℕ) → AllFrom low s → AllFrom low t → AllFrom low (s ++ t)
unfolding AllFrom
AllFrom-append low [] t h k = k
AllFrom-append low (c ∷ s) t (a, h) k = (a, AllFrom-append low s t h k)

pub AllFrom-le : (low high : ℕ) (s : List ℕ) → low ≤ high → AllFrom high s → AllFrom low s
unfolding AllFrom
AllFrom-le low high [] e h = tt
AllFrom-le low high (c ∷ s) e (a, h) = (omega arith, AllFrom-le low high s e h)

-- No padding without a width.
pub padded_none : (zero_pad : Bool) (d : List ℕ) → padded zero_pad 0 d ≡ d
unfolding padded
padded_none zero_pad d = let e : 0 - length d ≡ 0 = omega arith in rw e refl

NoBreak-append : (s t : List ℕ) → NoBreak s → NoBreak t → NoBreak (s ++ t)
unfolding NoBreak
NoBreak-append [] t h k = k
NoBreak-append (c ∷ s) t (e, h) k = (e, NoBreak-append s t h k)

-- A printed line is one that loading takes.
pub IsChunk-key :
    (p v : List ℕ) → NoBreak p → length p ≤ 40 → IsValue v → IsChunk (p ++ (v ++ 10 ∷ []))
IsChunk-key p v h k value =
    let short = value.short in
    subst IsChunk (append_assoc p v (10 ∷ [])) (
      IsChunk-line (p ++ v) (NoBreak-append p v h value.no_break)
        (omega (arith, length-append p v)))
