-- ===== src/Text/Tests.antt =====
-- Runs of the formatting, and the theorem about it at a concrete buffer.
use sn.Base.{
  ◌+◌, ◌%◌, ◌&&◌, ltb, leb, if◌then◌else◌, copied, ◌≡◌, refl, none, [], ◌∷◌, codes, pos, negsuc,
}
use sn.Text.Move.{memmove, memset_loop, moves-copied}
use sn.Text.Format.{signed, word, text, null, format, vsnprintf, snprintf}

prints :
    snprintf 512
      (codes "%s %d %u %02X%%")
      (text (codes "ab") ∷ signed (negsuc 4) ∷ word 70 ∷ word 10 ∷ [])
    ≡ codes "ab -5 70 0A%"
unfolding format sn.Text.Format.conversion sn.Text.Format.convert sn.Text.Format.padded sn.Text.utoa
    sn.Text.utoa_loop sn.Text.Format.utoa_hex sn.Text.Format.hex_digits
prints = refl

prints_null : snprintf 512 (codes "<%s>") (null ∷ []) ≡ codes "<(null)>"
unfolding format sn.Text.Format.conversion sn.Text.Format.convert
prints_null = refl

-- A format that ends in a '%' is read past its end.
lone_percent : vsnprintf 8 (λ _. 7) 6 (codes "50%") [] ≡ none
unfolding vsnprintf sn.Text.Format.runs_past
lone_percent = refl

cuts : snprintf 4 (codes "%05d") (signed (pos 42) ∷ []) ≡ codes "000"
unfolding format sn.Text.Format.conversion sn.Text.Format.convert sn.Text.Format.padded sn.Text.utoa
    sn.Text.utoa_loop sn.Text.Format.utoa_hex sn.Text.Format.hex_digits
cuts = refl

-- Five bytes that move by two places.
moves-copied_example :
    (memmove 12 10 5 (λ i. i) 14 ≡ copied (λ i. i) 12 (λ i. i) 10 5 14)
    × (memset_loop 5 12 300 (λ i. i) 14 ≡ (if leb 12 14 && ltb 14 (12 + 5) then 300 % 256 else 14))
moves-copied_example = moves-copied 5 12 10 300 (λ i. i) 14
