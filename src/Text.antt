-- ===== src/Text.antt =====
-- src/oabi/minilib.c: the functions on C strings that the configuration uses. A C string is the
-- list of its bytes, without the NUL byte at its end.
pub mod Decimal
pub mod Digits
pub mod DecimalDigits
mod Tests
pub mod Format
pub mod Move
pub mod File
use sn.Base.{
  ℕ, ◌+◌, ◌-◌, ◌*◌, ◌/◌, ◌%◌, ◌^◌, Bool, true, false, not, ◌&&◌, ◌||◌, Option, none, some, List, [],
  ◌∷◌, ltb, leb, ◌==◌, if◌then◌else◌, zero, suc, ℤ, pos, negsuc,
}

-- `strcmp(s, t) == 0`
unfoldable pub streq : List ℕ → List ℕ → Bool
streq [] [] = true
streq [] (d ∷ t) = false
streq (c ∷ s) [] = false
streq (c ∷ s) (d ∷ t) = c == d && streq s t

-- `*s >= '0' && *s <= '9'`
abbrev pub is_digit : ℕ → Bool
is_digit c = leb 48 c && leb c 57

-- `while (digit) val = val * 10 + (*s++ - '0')` in unsigned int, and the rest of the string.
unfoldable pub scan_digits : ℕ → List ℕ → ℕ × List ℕ
scan_digits val [] = (val, [])
scan_digits val (c ∷ s) = elim (is_digit c) [
  | true ↦ scan_digits ((val * 10 + (c - 48)) % 2 ^ 32) s
  | false ↦ (val, c ∷ s)
]

-- `%u` of sscanf: it needs a digit.
unfoldable pub scan_u : List ℕ → Option (ℕ × List ℕ)
scan_u [] = none
scan_u (c ∷ s) = if is_digit c then some (scan_digits 0 (c ∷ s)) else none

-- A literal character of a format.
unfoldable pub expect : ℕ → List ℕ → Option (List ℕ)
expect d [] = none
expect d (c ∷ s) = if c == d then some s else none

-- An unsigned int read as an int.
abbrev pub to_int : ℕ → ℤ
to_int v = if ltb v (2 ^ 31) then pos v else negsuc (2 ^ 32 - 1 - v)

abbrev pub is_blank : ℕ → Bool
is_blank c = c == 32 || c == 9

-- `while (blank) s++`
unfoldable pub skip_blanks : List ℕ → List ℕ
skip_blanks [] = []
skip_blanks (c ∷ s) = elim (is_blank c) [ true ↦ skip_blanks s | false ↦ c ∷ s ]

-- `atoi` after the blanks.
abbrev signed_digits : List ℕ → ℤ
signed_digits [] = pos 0
signed_digits (c ∷ s) =
    if c == 45
    then to_int ((2 ^ 32 - (scan_digits 0 s).0) % 2 ^ 32)
    else if c == 43
    then to_int (scan_digits 0 s).0
    else to_int (scan_digits 0 (c ∷ s)).0

-- `atoi`, where an int wraps around.
unfoldable pub atoi : List ℕ → ℤ
atoi s = signed_digits (skip_blanks s)

-- An int stored in a uint16_t.
unfoldable pub to_u16 : ℤ → ℕ
to_u16 (pos n) = n % 2 ^ 16
to_u16 (negsuc n) = 2 ^ 16 - 1 - n % 2 ^ 16

abbrev pub pow10 : List ℕ
pow10 = 1000000000 ∷ 100000000 ∷ 10000000 ∷ 1000000 ∷ 100000 ∷ 10000 ∷ 1000 ∷ 100 ∷ 10 ∷ 1 ∷ []

-- The loop of `_utoa` over the powers of ten; the inner loop divides by subtracting.
unfoldable pub utoa_loop : List ℕ → ℕ → Bool → List ℕ
utoa_loop [] val started = []
utoa_loop (zero ∷ ps) val started = []
utoa_loop (suc p ∷ ps) val started = elim (not (val / suc p == 0) || started) [
  | true ↦ (48 + val / suc p) ∷ utoa_loop ps (val % suc p) true
  | false ↦ utoa_loop ps (val % suc p) false
]

-- `_utoa(val, buf, 10, 0)`
unfoldable pub utoa : ℕ → List ℕ
utoa val = if val == 0 then 48 ∷ [] else utoa_loop pow10 val false

-- `_clamp` of src/cgi/cgi_parse.h, for bounds that are not negative.
unfoldable pub clamp : ℤ → ℕ → ℕ → ℕ
clamp (negsuc _) lo hi = lo
clamp (pos n) lo hi = if ltb n lo then lo else if ltb hi n then hi else n

-- The characters up to one that stops, at most `limit` of them, and the rest.
unfoldable pub span_to : (ℕ → Bool) → ℕ → List ℕ → List ℕ × List ℕ
span_to stop zero s = ([], s)
span_to stop (suc limit) [] = ([], [])
span_to stop (suc limit) (c ∷ s) =
    let (taken, rest) = span_to stop limit s in if stop c then ([], c ∷ s) else (c ∷ taken, rest)
