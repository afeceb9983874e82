-- ===== src/Config/Address.antt =====
-- An address that was printed is read back.
use sn.Base.{
  append_nil, subst, ℕ, ◌/◌, ◌%◌, ◌^◌, ◌<◌, ◌≡◌, refl, some, List, [], ◌∷◌, ◌++◌, ltb-false, arith,
}
use sn.Text.{scan_u, expect, utoa}
use sn.Text.Decimal.{Ends, scan_u-utoa}
use sn.Config.Value.{scan_ip, join_ip, parse_ip, format_ip}

-- A byte before a dot.
scan_dot :
    (b : ℕ) (s : List ℕ)
    → b < 256
    → (scan_u (utoa b ++ (46 ∷ s)) ≡ some (b, 46 ∷ s)) × (expect 46 (46 ∷ s) ≡ some s)
unfolding expect Ends
scan_dot b s h = (scan_u-utoa b (46 ∷ s) h refl, refl)

scan_last : (b : ℕ) → b < 256 → scan_u (utoa b) ≡ some (b, [])
unfolding Ends
scan_last b h =
    subst (λ s. scan_u s ≡ some (b, [])) (append_nil (utoa b)) (scan_u-utoa b [] h (omega arith))

scans :
    (a b c d : ℕ)
    → a < 256
    → b < 256
    → c < 256
    → d < 256
    → scan_ip (utoa a ++ (46 ∷ (utoa b ++ (46 ∷ (utoa c ++ (46 ∷ utoa d)))))) ≡ some (a, b, c, d)
unfolding scan_ip
scans a b c d ha hb hc hd =
    let (x, x') = scan_dot a (utoa b ++ (46 ∷ (utoa c ++ (46 ∷ utoa d)))) ha in
    let (y, y') = scan_dot b (utoa c ++ (46 ∷ utoa d)) hb in
    let (z, z') = scan_dot c (utoa d) hc in rw (x, x', y, y', z, z', scan_last d hd) refl

-- Every 32-bit address that `format_key` prints is what `parse_ip` reads.
pub parse_ip-format_ip : (ip : ℕ) → ip < 2 ^ 32 → parse_ip (format_ip ip) ≡ ip
unfolding parse_ip format_ip join_ip
parse_ip-format_ip ip h =
    let a = ip / 2 ^ 24 % 256 in
    let b = ip / 2 ^ 16 % 256 in
    let c = ip / 2 ^ 8 % 256 in
    let d = ip % 256 in
    rw
      (
        scans a b c d (omega arith) (omega arith) (omega arith) (omega arith),
        ltb-false 255 a (omega arith),
        ltb-false 255 b (omega arith),
        ltb-false 255 c (omega arith),
        ltb-false 255 d (omega arith),
      )
      (omega arith)
