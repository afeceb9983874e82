-- ===== src/Config/Save/Keys.antt =====
-- The values of the managed keys: each is one that a line gives back, and it is parsed as the field
-- that it was printed from.
use sn.Base.{
  ap, ap₂, sym, subst, fun_ext, ◌∙◌, inl, inr, ◌≡◌, refl, ◌≤◌, ◌<◌, ℕ, ◌+◌, ◌*◌, ◌/◌, ◌%◌, ◌^◌,
  zero, suc, Bool, true, false, ◌&&◌, some, List, [], ◌∷◌, ◌++◌, codes, length, length-append, ltb,
  leb, ◌==◌, if◌then◌else◌, Bool-cases, ==_iff, leb→le, Array, stored, IsBytes, success, arith,
}
use native.Mathlib.Decide.{dec_lt}
use sn.Text.{streq, utoa, atoi, to_u16, clamp, expect, scan_u, scan_digits}
use sn.Text.Digits.{AllFrom, utoa-AllFrom, length-utoa, atoi-utoa}
use sn.Text.Format.{padded, utoa_hex, hex_digits, hex_char}
use sn.Config.Value.{
  format_ip, parse_ip, parse_mac, mac_loop, parse_hex_byte, hex_loop, hex_digit, mode_name,
  protocol_name, addr_mode_name, backlight_name, parse_mode, parse_protocol, parse_addr_mode,
  parse_backlight, scan_ip, join_ip,
}
use sn.Config.Save.Line.{IsValue, AllFrom-IsValue, AllFrom-append, AllFrom-le}

pub number-IsValue : (n : ℕ) → IsValue (utoa n)
number-IsValue n =
    AllFrom-IsValue (utoa n) (AllFrom-le 33 48 (utoa n) (omega arith) (utoa-AllFrom n))
      (omega (arith, length-utoa n))

pub to_u16-atoi-utoa : (n : ℕ) → n < 2 ^ 16 → to_u16 (atoi (utoa n)) ≡ n
unfolding to_u16
to_u16-atoi-utoa n h = rw (atoi-utoa n h) (omega arith)

pub clamp-atoi-utoa : (n hi : ℕ) → n ≤ hi → hi < 2 ^ 16 → clamp (atoi (utoa n)) 0 hi ≡ n
unfolding clamp
clamp-atoi-utoa n hi h k = rw (atoi-utoa n (omega arith)) (ground arith)

-- The characters of an address, and how many they are.
dotted : (n : ℕ) (s : List ℕ) → AllFrom 33 s → AllFrom 33 (utoa n ++ (46 ∷ s))
unfolding AllFrom
dotted n s h =
    AllFrom-append 33 (utoa n) (46 ∷ s) (AllFrom-le 33 48 (utoa n) (omega arith) (utoa-AllFrom n))
      (omega arith, h)

length-dotted : (n k : ℕ) (s : List ℕ) → length s ≤ k → length (utoa n ++ (46 ∷ s)) ≤ k + 11
length-dotted n k s h = omega (arith, length-append (utoa n) (46 ∷ s), length-utoa n)

pub format_ip-IsValue : (ip : ℕ) → IsValue (format_ip ip)
unfolding format_ip
format_ip-IsValue ip =
    AllFrom-IsValue _
      (dotted (ip / 2 ^ 24 % 256) _ (
        dotted (ip / 2 ^ 16 % 256) _ (
          dotted (ip / 2 ^ 8 % 256) _
            (AllFrom-le 33 48 (utoa (ip % 256)) (omega arith) (utoa-AllFrom (ip % 256))))))
      (omega (
        arith,
        length-dotted (ip / 2 ^ 24 % 256) 32 _ (
            length-dotted (ip / 2 ^ 16 % 256) 21 _
              (length-dotted (ip / 2 ^ 8 % 256) 10 _ (length-utoa (ip % 256)))),
      ))

-- The test for "0" is not needed: it parses as 0.
streq_same : (s t : List ℕ) → streq s t ≡ true → s ≡ t
unfolding streq
streq_same [] [] h = refl
streq_same [] (d ∷ t) h = absurd (cc h)
streq_same (c ∷ s) [] h = absurd (cc h)
streq_same (c ∷ s) (d ∷ t) h = elim (Bool-cases (c == d)) [
  | inl e ↦
      ap₂ (λ a l. a ∷ l) ((==_iff c d).0 e)
        (streq_same s t (subst (λ b. b && streq s t ≡ true) e h))
  | inr e ↦ absurd (cc (subst (λ b. b && streq s t ≡ true) e h))
]

pub zero_address : (v : List ℕ) → (if streq v (codes "0") then 0 else parse_ip v) ≡ parse_ip v
unfolding parse_ip join_ip scan_ip scan_u expect scan_digits
zero_address v = elim (Bool-cases (streq v (codes "0"))) [
  | inl h ↦ rw h (sym (ap parse_ip (streq_same v (codes "0") h)))
  | inr h ↦ rw h refl
]

-- Six bytes over the ones that were there.
abbrev pub overlay : (ℕ → ℕ) → (ℕ → ℕ) → ℕ → ℕ
overlay mac old i = if ltb i 6 then mac i else old i

abbrev pub hex2 : ℕ → List ℕ
hex2 b = hex_char true (b / 16) ∷ hex_char true (b % 16) ∷ []

hex_zero : (rounds : ℕ) → hex_digits rounds true 0 ≡ []
unfolding hex_digits
hex_zero zero = refl
hex_zero (suc rounds) = refl

hex_step :
    (rounds val : ℕ)
    → (val == 0) ≡ false
    → hex_digits (suc rounds) true val
      ≡ hex_digits rounds true (val / 16) ++ (hex_char true (val % 16) ∷ [])
unfolding hex_digits
hex_step rounds val z = rw (hex_digits, z) refl

-- Two digits for a byte.
pub padded-hex2 : (b : ℕ) → b < 256 → padded true 2 (utoa_hex true b) ≡ hex2 b
unfolding padded utoa_hex
padded-hex2 b h = elim (Bool-cases (b == 0)) [
  | inl z ↦ subst (λ n. padded true 2 (utoa_hex true n) ≡ hex2 n) (sym ((==_iff b 0).0 z)) refl
  | inr z ↦ elim (dec_lt b 16) [
    | yes small ↦
        let q : b / 16 ≡ 0 = omega arith in
        let one : hex_digits 8 true b ≡ hex_char true (b % 16) ∷ [] =
          hex_step 7 b z ∙ rw (q, hex_zero 7) refl in
        rw (z, one, q) refl
    | no large ↦
        let q : b / 16 / 16 ≡ 0 = omega arith in
        let y : (b / 16 == 0) ≡ false = ground arith in
        let two : hex_digits 8 true b ≡ hex2 b =
          hex_step 7 b z
          ∙ rw (hex_step 6 (b / 16) y, q, hex_zero 6)
              (let m : b / 16 % 16 ≡ b / 16 = omega arith in rw m refl) in
        rw (z, two) refl
  ]
]

hex_digit-char : (d : ℕ) → d < 16 → hex_digit (hex_char true d) ≡ some d
unfolding hex_digit
hex_digit-char d h = ground arith

read_hex2 : (b : ℕ) (s : List ℕ) → b < 256 → parse_hex_byte (hex2 b ++ s) ≡ some (b, s)
unfolding parse_hex_byte hex_loop
read_hex2 b s h =
    let v : (0 * 16 + b / 16) * 16 + b % 16 ≡ b = omega arith in
    rw (hex_loop, hex_digit-char (b / 16) (omega arith), hex_digit-char (b % 16) (omega arith), v)
      refl

-- The text of a hardware address.
abbrev pub mac_text : (ℕ → ℕ) → List ℕ
mac_text m =
    hex2 (m 0)
    ++ (58
        ∷ (hex2 (m 1)
            ++ (58
                ∷ (hex2 (m 2)
                    ++ (58 ∷ (hex2 (m 3) ++ (58 ∷ (hex2 (m 4) ++ (58 ∷ (hex2 (m 5) ++ []))))))))))

stored_six :
    (m old : ℕ → ℕ) (i : ℕ)
    → stored
        (stored (stored (stored (stored (stored old 0 (m 0)) 1 (m 1)) 2 (m 2)) 3 (m 3)) 4 (m 4))
        5
        (m 5)
        i
      ≡ overlay m old i
stored_six m old zero = refl
stored_six m old (suc zero) = refl
stored_six m old (suc (suc zero)) = refl
stored_six m old (suc (suc (suc zero))) = refl
stored_six m old (suc (suc (suc (suc zero)))) = refl
stored_six m old (suc (suc (suc (suc (suc zero))))) = refl
stored_six m old (suc (suc (suc (suc (suc (suc i)))))) = ground arith

pub parse_mac-text :
    (m : Array 6) (old : Array 6)
    → IsBytes 6 m
    → parse_mac (mac_text m) old ≡ (success, overlay m old)
unfolding parse_mac mac_loop expect
parse_mac-text m old h =
    rw
      (
        mac_loop,
        read_hex2 (m 0) _ (h 0 (omega arith)),
        read_hex2 (m 1) _ (h 1 (omega arith)),
        read_hex2 (m 2) _ (h 2 (omega arith)),
        read_hex2 (m 3) _ (h 3 (omega arith)),
        read_hex2 (m 4) _ (h 4 (omega arith)),
        read_hex2 (m 5) _ (h 5 (omega arith)),
      )
      (ap (λ a. (success, a)) (fun_ext (stored_six m old)))

hex_char-low : (d : ℕ) → 33 ≤ hex_char true d
hex_char-low d = ground arith

mac_text-AllFrom : (m : ℕ → ℕ) → AllFrom 33 (mac_text m)
unfolding AllFrom
mac_text-AllFrom m =
    let low = hex_char-low in
    (
      low _,
      (
        low _,
        (
          omega arith,
          (
            low _,
            (
              low _,
              (
                omega arith,
                (
                  low _,
                  (
                    low _,
                    (
                      omega arith,
                      (
                        low _,
                        (
                          low _,
                          (omega arith, (low _, (low _, (omega arith, (low _, (low _, tt)))))),
                        ),
                      ),
                    ),
                  ),
                ),
              ),
            ),
          ),
        ),
      ),
    )

pub mac_text-IsValue : (m : ℕ → ℕ) → IsValue (mac_text m)
mac_text-IsValue m = AllFrom-IsValue (mac_text m) (mac_text-AllFrom m) (omega arith)

-- The names of the values.
abbrev all_from : ℕ → List ℕ → Bool
all_from low [] = true
all_from low (c ∷ s) = leb low c && all_from low s

all_from-AllFrom : (low : ℕ) (s : List ℕ) → all_from low s ≡ true → AllFrom low s
unfolding AllFrom
all_from-AllFrom low [] h = tt
all_from-AllFrom low (c ∷ s) h = elim (Bool-cases (leb low c)) [
  | inl e ↦ (leb→le low c e, all_from-AllFrom low s (subst (λ b. b && all_from low s ≡ true) e h))
  | inr e ↦ absurd (cc (subst (λ b. b && all_from low s ≡ true) e h))
]

-- A name is a value that is parsed as what it names.
abbrev NameBack : (ℕ → List ℕ) → (List ℕ → ℕ) → ℕ → Type 0
NameBack name parse n = IsValue (name n) × (parse (name n) ≡ n)

name_back :
    (name : ℕ → List ℕ) (parse : List ℕ → ℕ) (n : ℕ)
    → all_from 33 (name n) ≡ true
    → length (name n) ≤ 180
    → parse (name n) ≡ n
    → NameBack name parse n
name_back name parse n h k e = (AllFrom-IsValue (name n) (all_from-AllFrom 33 (name n) h) k, e)

pub mode-NameBack : (n : ℕ) → n ≤ 2 → NameBack mode_name parse_mode n
unfolding mode_name parse_mode streq
mode-NameBack zero h = name_back mode_name parse_mode 0 refl (omega arith) refl
mode-NameBack (suc zero) h = name_back mode_name parse_mode 1 refl (omega arith) refl
mode-NameBack (suc (suc zero)) h = name_back mode_name parse_mode 2 refl (omega arith) refl
mode-NameBack (suc (suc (suc n))) h = absurd (omega arith)

pub addr_mode-NameBack : (n : ℕ) → n ≤ 2 → NameBack addr_mode_name parse_addr_mode n
unfolding addr_mode_name parse_addr_mode streq
addr_mode-NameBack zero h = name_back addr_mode_name parse_addr_mode 0 refl (omega arith) refl
addr_mode-NameBack (suc zero) h = name_back addr_mode_name parse_addr_mode 1 refl (omega arith) refl
addr_mode-NameBack (suc (suc zero)) h =
    name_back addr_mode_name parse_addr_mode 2 refl (omega arith) refl
addr_mode-NameBack (suc (suc (suc n))) h = absurd (omega arith)

pub backlight-NameBack : (n : ℕ) → n ≤ 2 → NameBack backlight_name parse_backlight n
unfolding backlight_name parse_backlight streq
backlight-NameBack zero h = name_back backlight_name parse_backlight 0 refl (omega arith) refl
backlight-NameBack (suc zero) h = name_back backlight_name parse_backlight 1 refl (omega arith) refl
backlight-NameBack (suc (suc zero)) h =
    name_back backlight_name parse_backlight 2 refl (omega arith) refl
backlight-NameBack (suc (suc (suc n))) h = absurd (omega arith)

pub protocol-NameBack : (n : ℕ) → n ≤ 3 → NameBack protocol_name parse_protocol n
unfolding protocol_name parse_protocol streq
protocol-NameBack zero h = name_back protocol_name parse_protocol 0 refl (omega arith) refl
protocol-NameBack (suc zero) h = name_back protocol_name parse_protocol 1 refl (omega arith) refl
protocol-NameBack (suc (suc zero)) h =
    name_back protocol_name parse_protocol 2 refl (omega arith) refl
protocol-NameBack (suc (suc (suc zero))) h =
    name_back protocol_name parse_protocol 3 refl (omega arith) refl
protocol-NameBack (suc (suc (suc (suc n)))) h = absurd (omega arith)
