-- ===== src/Text/Format.antt =====
-- src/oabi/minilib.c: `vsnprintf`. `format` is what its macro PUT is given, in order; `put` is the
-- macro, on a buffer with checked stores.
pub mod Bounds
use sn.Base.{
  ℕ, ◌+◌, ◌-◌, ◌*◌, ◌/◌, ◌%◌, zero, suc, codes, Bool, true, false, ◌&&◌, Option, none, some, List,
  [], ◌∷◌, ◌++◌, length, take, replicate, ltb, leb, ◌==◌, if◌then◌else◌, ◌>>=◌, Array, store, ℤ,
  pos, negsuc,
}
use sn.Text.{utoa, is_digit}

-- An argument: an int, an unsigned int or a pointer, a string, or the null pointer.
pub data Arg : Type 0 where
  signed : ℤ → Arg
  word : ℕ → Arg
  text : List ℕ → Arg
  null : Arg

-- A character of `digits`.
abbrev pub hex_char : Bool → ℕ → ℕ
hex_char uppercase d = if ltb d 10 then 48 + d else if uppercase then 55 + d else 87 + d

-- The loop of `_utoa` in base 16, at most 8 digits, the last one first in the source's `tmp`.
unfoldable pub hex_digits : ℕ → Bool → ℕ → List ℕ
hex_digits zero uppercase val = []
hex_digits (suc rounds) uppercase val =
    let high = hex_digits rounds uppercase (val / 16) in
    if val == 0 then [] else high ++ (hex_char uppercase (val % 16) ∷ [])

-- `_utoa(val, buf, 16, uppercase)`
unfoldable pub utoa_hex : Bool → ℕ → List ℕ
utoa_hex uppercase val = if val == 0 then 48 ∷ [] else hex_digits 8 uppercase val

-- `while (width > len) PUT(zero_pad ? '0' : ' ')`, and the digits.
unfoldable pub padded : Bool → ℕ → List ℕ → List ℕ
padded zero_pad width digits =
    replicate (width - length digits) (if zero_pad then 48 else 32) ++ digits

-- Where the loop is in the format: at a character, after a '%', or in a width.
pub data Place : Type 0 where
  plain percent : Place
  in_width : Bool → ℕ → Place

-- One conversion, of the next argument. C gives no meaning to an argument of another kind or to
-- none; it prints nothing here.
unfoldable pub convert : Bool → ℕ → ℕ → Arg → List ℕ
convert zero_pad width c (signed (pos v)) = if c == 100 then padded zero_pad width (utoa v) else []
convert zero_pad width c (signed (negsuc v)) =
    if c == 100 then 45 ∷ padded zero_pad width (utoa (v + 1)) else []
convert zero_pad width c (word v) =
    if c == 117
    then padded zero_pad width (utoa v)
    else if c == 120
    then padded zero_pad width (utoa_hex false v)
    else if c == 88
    then padded zero_pad width (utoa_hex true v)
    else if c == 112
    then 48 ∷ 120 ∷ utoa_hex false v
    else if c == 99
    then v % 256 ∷ []
    else []
convert zero_pad width c (text s) = if c == 115 then s else []
convert zero_pad width c null =
    if c == 115 then codes "(null)" else if c == 112 then 48 ∷ 120 ∷ utoa_hex false 0 else []

-- Does the conversion take an argument?
abbrev takes_arg : ℕ → Bool
takes_arg c = elim (c == 100) [
  | true ↦ true
  | false ↦ elim (c == 117) [
    | true ↦ true
    | false ↦ elim (c == 120) [
      | true ↦ true
      | false ↦ elim (c == 88) [
        | true ↦ true
        | false ↦ elim (c == 112) [
          | true ↦ true
          | false ↦ elim (c == 115) [ true ↦ true | false ↦ c == 99 ]
        ]
      ]
    ]
  ]
]

-- The conversion character: what it prints, and the arguments left.
unfoldable pub conversion : Bool → ℕ → ℕ → List Arg → List ℕ × List Arg
conversion zero_pad width c [] =
    (if takes_arg c then [] else if c == 37 then 37 ∷ [] else 37 ∷ c ∷ [], [])
conversion zero_pad width c (a ∷ args) = elim (takes_arg c) [
  | true ↦ (convert zero_pad width c a, args)
  | false ↦ (if c == 37 then 37 ∷ [] else 37 ∷ c ∷ [], a ∷ args)
]

-- A format that ends in a '%' or in its width: the NUL byte is taken for the conversion, and the
-- loop goes on behind the format.
unfoldable pub runs_past : Place → List ℕ → Bool
runs_past plain [] = false
runs_past percent [] = true
runs_past (in_width zero_pad width) [] = true
runs_past plain (c ∷ fmt) = elim (c == 37) [
  | true ↦ runs_past percent fmt
  | false ↦ runs_past plain fmt
]
runs_past percent (c ∷ fmt) = elim (c == 48) [
  | true ↦ runs_past (in_width true 0) fmt
  | false ↦ elim (is_digit c) [
    | true ↦ runs_past (in_width false (c - 48)) fmt
    | false ↦ runs_past plain fmt
  ]
]
runs_past (in_width zero_pad width) (c ∷ fmt) = elim (is_digit c) [
  | true ↦ runs_past (in_width zero_pad width) fmt
  | false ↦ runs_past plain fmt
]

-- The loop over the format up to its end. Of a format that runs past it, what is printed up to
-- there: the '%' and the NUL byte are the last.
unfoldable pub format : Place → List ℕ → List Arg → List ℕ
format plain [] args = []
format percent [] args = 37 ∷ 0 ∷ []
format (in_width zero_pad width) [] args = 37 ∷ 0 ∷ []
format plain (c ∷ fmt) args = elim (c == 37) [
  | true ↦ format percent fmt args
  | false ↦ c ∷ format plain fmt args
]
format percent (c ∷ fmt) args = elim (c == 48) [
  | true ↦ format (in_width true 0) fmt args
  | false ↦ elim (is_digit c) [
    | true ↦ format (in_width false (c - 48)) fmt args
    | false ↦ let (printed, left) = conversion false 0 c args in printed ++ format plain fmt left
  ]
]
format (in_width zero_pad width) (c ∷ fmt) args = elim (is_digit c) [
  | true ↦ format (in_width zero_pad (width * 10 + (c - 48))) fmt args
  | false ↦
      let (printed, left) = conversion zero_pad width c args in printed ++ format plain fmt left
]

-- `PUT(c)` on a buffer of n bytes, of which `size` may be used.
unfoldable pub put : (n : ℕ) → ℕ → ℕ → Array n × ℕ → Option (Array n × ℕ)
put n size c (buf, at) = do
  buf' ← if ltb at (size - 1) then store n buf at c else some buf
  some (buf', at + 1)

unfoldable pub put_all : (n : ℕ) → ℕ → List ℕ → Array n × ℕ → Option (Array n × ℕ)
put_all n size [] state = some state
put_all n size (c ∷ s) state = do next ← put n size c state; put_all n size s next

-- The NUL byte at the end.
unfoldable pub terminate : (n : ℕ) → ℕ → Array n × ℕ → Option (Array n × ℕ)
terminate n size (buf, at) = do
  buf' ← store n buf (if ltb at size then at else size - 1) 0
  some (buf', at)

-- `vsnprintf(buf, size, fmt, args)`: the buffer, and the number that is returned; `none` where a
-- store misses the buffer or the loop reads behind the format.
unfoldable pub vsnprintf : (n : ℕ) → Array n → ℕ → List ℕ → List Arg → Option (Array n × ℕ)
vsnprintf n buf size fmt args =
    let all = format plain fmt args in
    if size == 0
    then some (buf, 0)
    else if runs_past plain fmt
    then none
    else (put_all n size all (buf, 0) >>= terminate n size)

-- The string in the buffer after `snprintf(buf, size, fmt, ...)` for a format that ends well.
abbrev pub snprintf : ℕ → List ℕ → List Arg → List ℕ
snprintf size fmt args = take (size - 1) (format plain fmt args)
