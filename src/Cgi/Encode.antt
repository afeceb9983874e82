-- ===== src/Cgi/Encode.antt =====
-- src/cgi/cgi_parse.h: a body in the encoding of HTML forms is read as the keys and values that it
-- was made of.
use sn.Base.{
  ap, ◌∙◌, ◌≡◌, ◌≢◌, refl, ◌≤◌, ◌<◌, ◌+◌, ◌*◌, ◌/◌, ◌%◌, ℕ, zero, suc, Bool, true, false, ◌&&◌,
  ◌||◌, some, List, [], ◌∷◌, ◌++◌, append_assoc, length, length-append, leb, ◌==◌, if◌then◌else◌,
  arith, Bool-cases, inl, inr,
}
use sn.Text.{span_to}
use sn.Text.Format.{hex_char}
use sn.Config.Value.{hex_digit}
use sn.Common.{NodeConfig}
use sn.Cgi.{
  percent, url_decode, c_string, skip_char, next_field, set_field, form_loop, clear_dhcp,
  parse_formdata,
}
use sn.Cgi.Enough.{form_loop-next_field}

-- A letter or a digit.
abbrev pub is_plain : ℕ → Bool
is_plain c = (leb 48 c && leb c 57) || ((leb 65 c && leb c 90) || (leb 97 c && leb c 122))

-- A byte in the encoding: a letter or a digit is itself, a blank a plus sign, all else a percent
-- sign and two digits.
abbrev pub form_char : ℕ → List ℕ
form_char c =
    if is_plain c
    then c ∷ []
    else if c == 32
    then 43 ∷ []
    else 37 ∷ hex_char true (c / 16) ∷ hex_char true (c % 16) ∷ []

unfoldable pub form_encode : List ℕ → List ℕ
form_encode [] = []
form_encode (c ∷ s) = form_char c ++ form_encode s

-- Bytes of a C string.
abbrev pub IsText : List ℕ → Type 0
IsText [] = Unit
IsText (c ∷ s) = (c ≢ 0) × (c < 256) × IsText s

hex_digit-hex_char : (d : ℕ) → d < 16 → hex_digit (hex_char true d) ≡ some d
unfolding hex_digit
hex_digit-hex_char d h = ground arith

percent-hex :
    (c : ℕ) (t : List ℕ)
    → c < 256
    → percent (hex_char true (c / 16) ∷ hex_char true (c % 16) ∷ t) ≡ some (c, t)
unfolding percent
percent-hex c t h =
    let whole : c / 16 * 16 + c % 16 ≡ c = omega arith in
    rw (hex_digit-hex_char (c / 16) (omega arith), hex_digit-hex_char (c % 16) (omega arith), whole)
      refl

plain_char :
    (room c : ℕ) (t : List ℕ)
    → (c == 37) ≡ false
    → (c == 43) ≡ false
    → url_decode (suc room) (c ∷ t) ≡ c ∷ url_decode room t
unfolding url_decode
plain_char room c t p q = rw (url_decode, p, q) refl

coded_char :
    (room c : ℕ) (t : List ℕ)
    → c < 256
    → url_decode (suc room) (37 ∷ hex_char true (c / 16) ∷ hex_char true (c % 16) ∷ t)
      ≡ c ∷ url_decode room t
unfolding url_decode
coded_char room c t h = rw (url_decode, percent-hex c t h) refl

decodes_char :
    (room c : ℕ) (t : List ℕ)
    → c < 256
    → url_decode (suc room) (form_char c ++ t) ≡ c ∷ url_decode room t
decodes_char room c t h = elim (Bool-cases (is_plain c)) [
  | inl plain ↦ rw plain (plain_char room c t (ground arith) (ground arith))
  | inr other ↦ elim (Bool-cases (c == 32)) [
    | inl blank ↦ let e : c ≡ 32 = ground arith in rw (other, blank, e) (unfold url_decode in refl)
    | inr code ↦ rw (other, code) (coded_char room c t h)
  ]
]

decodes : (room : ℕ) (s : List ℕ) → IsText s → length s ≤ room → url_decode room (form_encode s) ≡ s
unfolding url_decode form_encode
decodes zero [] h fits = refl
decodes (suc room) [] h fits = refl
decodes zero (c ∷ s) h fits = absurd (omega arith)
decodes (suc room) (c ∷ s) (_, byte, text) fits =
    decodes_char room c (form_encode s) byte ∙ ap (λ l. c ∷ l) (decodes room s text (omega arith))

c_string-IsText : (s : List ℕ) → IsText s → c_string s ≡ s
unfolding c_string
c_string-IsText [] h = refl
c_string-IsText (c ∷ s) (some_char, _, text) =
    let z : (c == 0) ≡ false = ground arith in
    rw (c_string, z) (ap (λ l. c ∷ l) (c_string-IsText s text))

-- The text does not have the character.
abbrev pub Lacks : ℕ → List ℕ → Type 0
Lacks stop [] = Unit
Lacks stop (c ∷ s) = (c ≢ stop) × Lacks stop s

Lacks-append : (stop : ℕ) (s t : List ℕ) → Lacks stop s → Lacks stop t → Lacks stop (s ++ t)
Lacks-append stop [] t h k = k
Lacks-append stop (c ∷ s) t (d, h) k = (d, Lacks-append stop s t h k)

hex_char-Lacks : (d : ℕ) → d < 16 → hex_char true d ≢ 38
hex_char-Lacks d h = ground arith

form_char-Lacks : (c : ℕ) → c < 256 → Lacks 38 (form_char c)
form_char-Lacks c h = elim (Bool-cases (is_plain c)) [
  | inl plain ↦ let p : c ≢ 38 = ground arith in rw plain (p, tt)
  | inr other ↦ elim (Bool-cases (c == 32)) [
    | inl blank ↦ rw (other, blank) (omega arith, tt)
    | inr code ↦
        rw (other, code)
          (
            omega arith,
            (hex_char-Lacks (c / 16) (omega arith), (hex_char-Lacks (c % 16) (omega arith), tt)),
          )
  ]
]

form_encode-Lacks : (s : List ℕ) → IsText s → Lacks 38 (form_encode s)
unfolding form_encode
form_encode-Lacks [] h = tt
form_encode-Lacks (c ∷ s) (_, byte, text) =
    Lacks-append 38 (form_char c) (form_encode s) (form_char-Lacks c byte)
      (form_encode-Lacks s text)

form_char-longer : (c : ℕ) → 1 ≤ length (form_char c)
form_char-longer c = elim (Bool-cases (is_plain c)) [
  | inl plain ↦ rw plain (omega arith)
  | inr other ↦ elim (Bool-cases (c == 32)) [
    | inl blank ↦ rw (other, blank) (omega arith)
    | inr code ↦ rw (other, code) (omega arith)
  ]
]

length-form_encode : (s : List ℕ) → length s ≤ length (form_encode s)
unfolding form_encode
length-form_encode [] = omega arith
length-form_encode (c ∷ s) =
    omega
      (arith, length-append (form_char c) (form_encode s), form_char-longer c, length-form_encode s)

-- The scan takes a text that lacks the character, up to it.
span_to-Lacks :
    (stop limit : ℕ) (s t : List ℕ)
    → Lacks stop s
    → length s ≤ limit
    → span_to (λ d. d == stop) limit (s ++ stop ∷ t) ≡ (s, stop ∷ t)
unfolding span_to
span_to-Lacks stop zero [] t h fits = refl
span_to-Lacks stop (suc limit) [] t h fits =
    let e : (stop == stop) ≡ true = ground arith in rw e refl
span_to-Lacks stop zero (c ∷ s) t h fits = absurd (omega arith)
span_to-Lacks stop (suc limit) (c ∷ s) t (d, h) fits =
    let e : (c == stop) ≡ false = ground arith in
    rw (span_to, e, span_to-Lacks stop limit s t h (omega arith)) refl

span_to-end :
    (stop limit : ℕ) (s : List ℕ)
    → Lacks stop s
    → length s ≤ limit
    → span_to (λ d. d == stop) limit s ≡ (s, [])
unfolding span_to
span_to-end stop zero [] h fits = refl
span_to-end stop (suc limit) [] h fits = refl
span_to-end stop zero (c ∷ s) h fits = absurd (omega arith)
span_to-end stop (suc limit) (c ∷ s) (d, h) fits =
    let e : (c == stop) ≡ false = ground arith in
    rw (span_to, e, span_to-end stop limit s h (omega arith)) refl

-- A key of at most 63 characters without an equals sign, and a value of bytes other than NUL that
-- takes at most 191 in the encoding.
pub record IsField (key value : List ℕ) : Type 0 where
  pub no_equals : Lacks 61 key
  pub short_key : length key ≤ 63
  pub is_text : IsText value
  pub short_value : length (form_encode value) ≤ 191

abbrev pub form_field : List ℕ → List ℕ → List ℕ
form_field key value = key ++ 61 ∷ form_encode value

-- The values of a form, each behind its key, with `&` between the fields.
unfoldable pub form_body : List (List ℕ × List ℕ) → List ℕ
form_body [] = []
form_body (f ∷ []) = form_field f.0 f.1
form_body (f ∷ g ∷ fields) = form_field f.0 f.1 ++ 38 ∷ form_body (g ∷ fields)

abbrev pub AllFields : List (List ℕ × List ℕ) → Type 0
AllFields [] = Unit
AllFields (f ∷ fields) = IsField f.0 f.1 × AllFields fields

module _ (key value : List ℕ) (f : IsField key value) where
  value_room : length value ≤ 191
  value_room = omega (arith, length-form_encode value, f.short_value)

  next_field-more :
      (more : List ℕ) → next_field (form_field key value ++ 38 ∷ more) ≡ (key, value, more)
  unfolding next_field skip_char
  next_field-more more =
      rw
        (
          append_assoc key (61 ∷ form_encode value) (38 ∷ more),
          span_to-Lacks 61 63 key (form_encode value ++ 38 ∷ more) f.no_equals f.short_key,
          span_to-Lacks 38 191 (form_encode value) more (form_encode-Lacks value f.is_text)
              f.short_value,
          decodes 191 value f.is_text value_room,
          c_string-IsText value f.is_text,
        )
        refl

  next_field-last : next_field (form_field key value) ≡ (key, value, [])
  unfolding next_field skip_char
  next_field-last =
      rw
        (
          span_to-Lacks 61 63 key (form_encode value) f.no_equals f.short_key,
          span_to-end 38 191 (form_encode value) (form_encode-Lacks value f.is_text) f.short_value,
          decodes 191 value f.is_text value_room,
          c_string-IsText value f.is_text,
        )
        refl

  form_field-some : 0 < length (form_field key value)
  form_field-some = omega (arith, length-append key (61 ∷ form_encode value))

-- The fields are set one after the other.
abbrev pub set_fields : List (List ℕ × List ℕ) → NodeConfig → NodeConfig
set_fields [] c = c
set_fields (f ∷ fields) c = set_fields fields (set_field f.0 f.1 c)

form_loop-form_body :
    (fields : List (List ℕ × List ℕ)) (c : NodeConfig)
    → AllFields fields
    → form_loop (length (form_body fields)) (form_body fields) c ≡ set_fields fields c
unfolding form_body form_loop
form_loop-form_body [] c h = refl
form_loop-form_body (f ∷ []) c (first, _) =
    form_loop-next_field (form_field f.0 f.1) f.0 f.1 [] c (form_field-some f.0 f.1 first)
      (next_field-last f.0 f.1 first)
form_loop-form_body (f ∷ g ∷ fields) c (first, others) =
    let more = form_body (g ∷ fields) in
    let some_char : 0 < length (form_field f.0 f.1 ++ 38 ∷ more) =
      omega (arith, length-append (form_field f.0 f.1) (38 ∷ more)) in
    form_loop-next_field (form_field f.0 f.1 ++ 38 ∷ more) f.0 f.1 more c some_char
      (next_field-more f.0 f.1 first more)
    ∙ form_loop-form_body (g ∷ fields) (set_field f.0 f.1 c) others

-- `parse_formdata` of the body that a form with the given fields is sent as, with keys of at most
-- 63 characters without an equals sign and values of bytes other than NUL that take at most 191 in
-- the encoding, sets each key to its value, in order, and then clears the addresses under DHCP.
pub parse_formdata-form_body :
    (fields : List (List ℕ × List ℕ)) (c : NodeConfig)
    → AllFields fields
    → parse_formdata (form_body fields) c ≡ clear_dhcp (set_fields fields c)
unfolding parse_formdata
parse_formdata-form_body fields c h = ap clear_dhcp (form_loop-form_body fields c h)
