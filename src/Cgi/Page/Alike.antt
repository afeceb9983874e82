-- ===== src/Cgi/Page/Alike.antt =====
-- src/cgi/cgi_config.c: how many markup characters a text of a page has.
use sn.Base.{
  ap, ap₂, sym, subst, ◌∙◌, ◌≡◌, inl, inr, refl, ◌≤◌, ◌<◌, ℕ, ◌+◌, ◌-◌, ◌/◌, ◌%◌, ◌^◌, zero, suc,
  Bool, true, false, ◌||◌, List, [], ◌∷◌, ◌++◌, codes, take, take_length, replicate, length,
  length-append, length-replicate, ◌==◌, if◌then◌else◌, Bool-cases, ==_iff, arith,
}
use sn.Text.{utoa}
use sn.Text.Digits.{length-utoa}
use sn.Text.DecimalDigits.{AllDigits, utoa-AllDigits}
use sn.Text.Format.{padded, utoa_hex, hex_digits, hex_char}
use sn.Config.Save.Line.{padded_none}
use sn.Cgi.Html.{entity, html_escape}

abbrev pub count : ℕ → List ℕ → ℕ
count x [] = 0
count x (c ∷ s) = let rest = count x s in if c == x then suc rest else rest

-- The characters `"`, `'`, `<` and `>`, which end a text or an attribute.
abbrev pub is_markup : ℕ → Bool
is_markup x = x == 34 || x == 39 || x == 60 || x == 62

pub count-append : (x : ℕ) (s t : List ℕ) → count x (s ++ t) ≡ count x s + count x t
count-append x [] t = omega arith
count-append x (c ∷ s) t = elim (Bool-cases (c == x)) [
  | inl e ↦ rw e (omega (arith, count-append x s t))
  | inr e ↦ rw e (count-append x s t)
]

-- Two texts of at most n characters with the same number of the character x.
pub record Alike (x n : ℕ) (s t : List ℕ) : Type 0 where
  pub same : count x s ≡ count x t
  pub left : length s ≤ n
  pub right : length t ≤ n

pub Alike-refl : (x n : ℕ) (s : List ℕ) → length s ≤ n → Alike x n s s
Alike-refl x n s h = record { same = refl; left = h; right = h }

pub Alike-append :
    (x n m : ℕ) (s t s' t' : List ℕ)
    → Alike x n s t
    → Alike x m s' t'
    → Alike x (n + m) (s ++ s') (t ++ t')
Alike-append x n m s t s' t' h k = record {
  same = count-append x s s' ∙ ap₂ (λ a b. a + b) h.same k.same ∙ sym (count-append x t t');
  left = let a = h.left in let b = k.left in omega (arith, length-append s s');
  right = let a = h.right in let b = k.right in omega (arith, length-append t t');
}

pub Alike-le : (x n m : ℕ) (s t : List ℕ) → n ≤ m → Alike x n s t → Alike x m s t
Alike-le x n m s t e h = record {
  same = h.same;
  left = let a = h.left in omega arith;
  right = let a = h.right in omega arith;
}

-- What `printf` cuts is alike.
pub Alike-cut :
    (x : ℕ) (s t : List ℕ) → Alike x 511 s t → count x (take 511 s) ≡ count x (take 511 t)
Alike-cut x s t h =
    ap (λ l. count x l) (take_length 511 s h.left)
    ∙ h.same
    ∙ sym (ap (λ l. count x l) (take_length 511 t h.right))

by_markup : (P : ℕ → Type 0) (x : ℕ) → is_markup x ≡ true → P 34 → P 39 → P 60 → P 62 → P x
by_markup P x h a b c d = elim (Bool-cases (x == 34)) [
  | inl e ↦ subst P (sym ((==_iff x 34).0 e)) a
  | inr e₁ ↦ elim (Bool-cases (x == 39)) [
    | inl e ↦ subst P (sym ((==_iff x 39).0 e)) b
    | inr e₂ ↦ elim (Bool-cases (x == 60)) [
      | inl e ↦ subst P (sym ((==_iff x 60).0 e)) c
      | inr e₃ ↦ elim (Bool-cases (x == 62)) [
        | inl e ↦ subst P (sym ((==_iff x 62).0 e)) d
        | inr e₄ ↦ let z : is_markup x ≡ false = rw (e₁, e₂, e₃, e₄) refl in absurd (cc (h, z))
      ]
    ]
  ]
]

-- A radio button that is checked or not.
abbrev pub check : Bool → List ℕ
check b = if b then codes " checked" else []

module _ (x : ℕ) (markup : is_markup x ≡ true) where
  count-entity : (c : ℕ) → count x (entity c) ≡ 0
  count-entity c = elim (Bool-cases (c == 38)) [
    | inl e ↦ rw e (by_markup (λ y. count y (codes "&amp;") ≡ 0) x markup refl refl refl refl)
    | inr e₀ ↦ elim (Bool-cases (c == 60)) [
      | inl e ↦
          rw (e₀, e) (by_markup (λ y. count y (codes "&lt;") ≡ 0) x markup refl refl refl refl)
      | inr e₁ ↦ elim (Bool-cases (c == 62)) [
        | inl e ↦
            rw (e₀, e₁, e)
              (by_markup (λ y. count y (codes "&gt;") ≡ 0) x markup refl refl refl refl)
        | inr e₂ ↦ elim (Bool-cases (c == 34)) [
          | inl e ↦
              rw (e₀, e₁, e₂, e)
                (by_markup (λ y. count y (codes "&quot;") ≡ 0) x markup refl refl refl refl)
          | inr e₃ ↦ elim (Bool-cases (c == 39)) [
            | inl e ↦
                rw (e₀, e₁, e₂, e₃, e)
                  (by_markup (λ y. count y (codes "&#39;") ≡ 0) x markup refl refl refl refl)
            | inr e₄ ↦
                let other : (c == x) ≡ false =
                  by_markup (λ y. (c == y) ≡ false) x markup e₃ e₄ e₁ e₂ in
                rw (e₀, e₁, e₂, e₃, e₄) (rw other refl)
          ]
        ]
      ]
    ]
  ]

  -- An escaped text has none of them.
  pub count-html_escape : (s : List ℕ) → count x (html_escape s) ≡ 0
  unfolding html_escape
  count-html_escape [] = refl
  count-html_escape (c ∷ s) =
      count-append x (entity c) (html_escape s)
      ∙ ap₂ (λ a b. a + b) (count-entity c) (count-html_escape s)

  count-AllDigits : (s : List ℕ) → AllDigits s → count x s ≡ 0
  unfolding AllDigits
  count-AllDigits [] h = refl
  count-AllDigits (c ∷ s) (h, k) =
      let other : (c == x) ≡ false =
        by_markup (λ y. (c == y) ≡ false) x markup (ground arith) (ground arith) (ground arith)
          (ground arith) in
      rw other (count-AllDigits s k)

  count-hex_char : (d : ℕ) → d < 16 → (hex_char true d == x) ≡ false
  count-hex_char d h =
      by_markup (λ y. (hex_char true d == y) ≡ false) x markup (ground arith) (ground arith)
        (ground arith) (ground arith)

  count-hex_digits : (rounds val : ℕ) → count x (hex_digits rounds true val) ≡ 0
  unfolding hex_digits
  count-hex_digits zero val = refl
  count-hex_digits (suc rounds) val = elim (Bool-cases (val == 0)) [
    | inl e ↦ rw (hex_digits, e) refl
    | inr e ↦
        let last : count x (hex_char true (val % 16) ∷ []) ≡ 0 =
          rw (count-hex_char (val % 16) (omega arith)) refl in
        rw (hex_digits, e)
          (count-append x (hex_digits rounds true (val / 16)) (hex_char true (val % 16) ∷ [])
            ∙ ap₂ (λ a b. a + b) (count-hex_digits rounds (val / 16)) last)
  ]

  -- A number, an address byte and two hexadecimal digits.
  Alike-utoa : (a b : ℕ) → a < 2 ^ 32 → b < 2 ^ 32 → Alike x 10 (utoa a) (utoa b)
  Alike-utoa a b h k = record {
    same =
        count-AllDigits (utoa a) (utoa-AllDigits a h)
        ∙ sym (count-AllDigits (utoa b) (utoa-AllDigits b k));
    left = length-utoa a;
    right = length-utoa b;
  }

  pub Alike-number :
      (a b : ℕ)
      → a < 2 ^ 32
      → b < 2 ^ 32
      → Alike x 10 (padded false 0 (utoa a)) (padded false 0 (utoa b))
  Alike-number a b h k =
      rw (padded_none false (utoa a), padded_none false (utoa b)) (Alike-utoa a b h k)

  count-zeros : (k : ℕ) → count x (replicate k 48) ≡ 0
  count-zeros zero = refl
  count-zeros (suc k) =
      let other : (48 == x) ≡ false =
        by_markup (λ y. (48 == y) ≡ false) x markup refl refl refl refl in
      rw other (count-zeros k)

  length-hex_digits : (rounds val : ℕ) → length (hex_digits rounds true val) ≤ rounds
  unfolding hex_digits
  length-hex_digits zero val = omega arith
  length-hex_digits (suc rounds) val = elim (Bool-cases (val == 0)) [
    | inl e ↦ rw (hex_digits, e) (omega arith)
    | inr e ↦
        rw (hex_digits, e)
          (omega (
            arith,
            length-append (hex_digits rounds true (val / 16)) (hex_char true (val % 16) ∷ []),
            length-hex_digits rounds (val / 16),
          ))
  ]

  utoa_hex-clean : (val : ℕ) → (count x (utoa_hex true val) ≡ 0) × (length (utoa_hex true val) ≤ 8)
  unfolding utoa_hex
  utoa_hex-clean val = elim (Bool-cases (val == 0)) [
    | inl e ↦
        rw e (by_markup (λ y. count y (48 ∷ []) ≡ 0) x markup refl refl refl refl, omega arith)
    | inr e ↦ rw e (count-hex_digits 8 val, length-hex_digits 8 val)
  ]

  count-padded : (d : List ℕ) → count x d ≡ 0 → count x (padded true 2 d) ≡ 0
  unfolding padded
  count-padded d h =
      count-append x (replicate (2 - length d) 48) d
      ∙ ap₂ (λ a b. a + b) (count-zeros (2 - length d)) h

  length-padded : (d : List ℕ) → length d ≤ 8 → length (padded true 2 d) ≤ 8
  unfolding padded
  length-padded d h = omega (
    arith,
    length-append (replicate (2 - length d) 48) d,
    length-replicate {A = ℕ} (2 - length d) 48,
  )

  pub Alike-hex :
      (a b : ℕ) → Alike x 8 (padded true 2 (utoa_hex true a)) (padded true 2 (utoa_hex true b))
  Alike-hex a b = record {
    same =
        count-padded (utoa_hex true a) (utoa_hex-clean a).0
        ∙ sym (count-padded (utoa_hex true b) (utoa_hex-clean b).0);
    left = length-padded (utoa_hex true a) (utoa_hex-clean a).1;
    right = length-padded (utoa_hex true b) (utoa_hex-clean b).1;
  }

  count-check : (b : Bool) → count x (check b) ≡ 0
  count-check true = by_markup (λ y. count y (codes " checked") ≡ 0) x markup refl refl refl refl
  count-check false = refl

  length-check : (b : Bool) → length (check b) ≤ 8
  length-check true = omega arith
  length-check false = omega arith

  pub Alike-check : (a b : Bool) → Alike x 8 (check a) (check b)
  Alike-check a b = record {
    same = count-check a ∙ sym (count-check b);
    left = length-check a;
    right = length-check b;
  }
