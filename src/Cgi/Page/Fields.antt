-- ===== src/Cgi/Page/Fields.antt =====
-- src/cgi/cgi_config.c: the kinds of fields of the pages, and the pieces of a page in order.
use sn.Base.{
  ap, ap₂, sym, ◌∙◌, ◌≡◌, refl, ◌≤◌, ◌<◌, ℕ, ◌+◌, ◌/◌, ◌%◌, ◌^◌, Bool, true, false, List, [], ◌∷◌,
  ◌++◌, append_assoc, codes, length, take, arith,
}
use sn.Text.{utoa}
use sn.Text.Format.{padded, utoa_hex}
use sn.Cgi.Page.{page_text}
use sn.Cgi.Page.Alike.{
  count, is_markup, check, count-append, Alike, Alike-refl, Alike-append, Alike-le, Alike-cut,
  Alike-number, Alike-hex, Alike-check,
}

-- Pages of which the texts have equally many of a character.
pub record Same (x : ℕ) (s t : List (List ℕ)) : Type 0 where
  pub same : count x (page_text s) ≡ count x (page_text t)

pub Same-refl : (x : ℕ) (s : List (List ℕ)) → Same x s s
Same-refl x s = record { same = refl }

pub piece-Same :
    (x : ℕ) (a b : List ℕ) (s t : List (List ℕ))
    → count x a ≡ count x b
    → Same x s t
    → Same x (a ∷ s) (b ∷ t)
unfolding page_text
piece-Same x a b s t h k = record {
  same =
      count-append x a (page_text s)
      ∙ ap₂ (λ m n. m + n) h k.same
      ∙ sym (count-append x b (page_text t));
}

text-append : (s t : List (List ℕ)) → page_text (s ++ t) ≡ page_text s ++ page_text t
unfolding page_text
text-append [] t = refl
text-append (a ∷ s) t =
    ap (λ l. a ++ l) (text-append s t) ∙ sym (append_assoc a (page_text s) (page_text t))

pub append-Same :
    (x : ℕ) (s t s' t' : List (List ℕ)) → Same x s t → Same x s' t' → Same x (s ++ s') (t ++ t')
append-Same x s t s' t' h k = record {
  same =
      ap (λ l. count x l) (text-append s s')
      ∙ count-append x (page_text s) (page_text s')
      ∙ ap₂ (λ m n. m + n) h.same k.same
      ∙ sym (count-append x (page_text t) (page_text t'))
      ∙ sym (ap (λ l. count x l) (text-append t t'));
}

module _ (x : ℕ) (m : is_markup x ≡ true) where
  -- Alike texts, built from their ends: a text that is the same in both, and one that is not.
  final : (q : List ℕ) → Alike x (length q) q q
  final q = Alike-refl x (length q) q (omega arith)

  behind :
      (p : List ℕ) {n : ℕ} {s t : List ℕ} → Alike x n s t → Alike x (length p + n) (p ++ s) (p ++ t)
  behind p {n} {s} {t} h = Alike-append x (length p) n p p s t (final p) h

  before_number :
      (a b : ℕ) {n : ℕ} {s t : List ℕ}
      → a < 2 ^ 32
      → b < 2 ^ 32
      → Alike x n s t
      → Alike x (10 + n) (padded false 0 (utoa a) ++ s) (padded false 0 (utoa b) ++ t)
  before_number a b {n} {s} {t} h k rest =
      Alike-append x 10 n _ _ s t (Alike-number x m a b h k) rest

  before_hex :
      (a b : ℕ) {n : ℕ} {s t : List ℕ}
      → Alike x n s t
      → Alike x
          (8 + n)
          (padded true 2 (utoa_hex true a) ++ s)
          (padded true 2 (utoa_hex true b) ++ t)
  before_hex a b {n} {s} {t} rest = Alike-append x 8 n _ _ s t (Alike-hex x m a b) rest

  before_check :
      (a b : Bool) {n : ℕ} {s t : List ℕ}
      → Alike x n s t
      → Alike x (8 + n) (check a ++ s) (check b ++ t)
  before_check a b {n} {s} {t} rest = Alike-append x 8 n _ _ s t (Alike-check x m a b) rest

  fits :
      (n : ℕ) (s t : List ℕ) → n ≤ 511 → Alike x n s t → count x (take 511 s) ≡ count x (take 511 t)
  fits n s t h k = Alike-cut x s t (Alike-le x n 511 s t h k)

  -- The fields: a number, an address, the hardware address, and three radio buttons.
  pub number_field :
      (p q : List ℕ) (a b : ℕ)
      → length p + length q ≤ 400
      → a < 2 ^ 32
      → b < 2 ^ 32
      → count x (take 511 (p ++ (padded false 0 (utoa a) ++ q)))
        ≡ count x (take 511 (p ++ (padded false 0 (utoa b) ++ q)))
  number_field p q a b room h k =
      fits _ _ _ (omega arith) (behind p (before_number a b h k (final q)))

  pub address_field :
      (p q : List ℕ) (a b : ℕ)
      → length p + length q ≤ 400
      → count x (
          take 511 (
            p
            ++ (padded false 0 (utoa (a / 2 ^ 24 % 256))
                ++ (46
                    ∷ (padded false 0 (utoa (a / 2 ^ 16 % 256))
                        ++ (46
                            ∷ (padded false 0 (utoa (a / 2 ^ 8 % 256))
                                ++ (46 ∷ (padded false 0 (utoa (a % 256)) ++ q)))))))))
        ≡ count x (
            take 511 (
              p
              ++ (padded false 0 (utoa (b / 2 ^ 24 % 256))
                  ++ (46
                      ∷ (padded false 0 (utoa (b / 2 ^ 16 % 256))
                          ++ (46
                              ∷ (padded false 0 (utoa (b / 2 ^ 8 % 256))
                                  ++ (46 ∷ (padded false 0 (utoa (b % 256)) ++ q)))))))))
  address_field p q a b room = fits _ _ _ (omega arith) (
      behind p (
        before_number (a / 2 ^ 24 % 256) (b / 2 ^ 24 % 256) (omega arith) (omega arith) (
          behind (codes ".") (
            before_number (a / 2 ^ 16 % 256) (b / 2 ^ 16 % 256) (omega arith) (omega arith) (
              behind (codes ".") (
                before_number (a / 2 ^ 8 % 256) (b / 2 ^ 8 % 256) (omega arith) (omega arith) (
                  behind (codes ".")
                    (before_number (a % 256) (b % 256) (omega arith) (omega arith) (final q)))))))))

  pub mac_field :
      (p q : List ℕ) (a b : ℕ → ℕ)
      → length p + length q ≤ 400
      → count x (
          take 511 (
            p
            ++ (padded true 2 (utoa_hex true (a 0))
                ++ (58
                    ∷ (padded true 2 (utoa_hex true (a 1))
                        ++ (58
                            ∷ (padded true 2 (utoa_hex true (a 2))
                                ++ (58
                                    ∷ (padded true 2 (utoa_hex true (a 3))
                                        ++ (58
                                            ∷ (padded true 2 (utoa_hex true (a 4))
                                                ++ (58
                                                    ∷ (padded true 2 (utoa_hex true (a 5))
                                                        ++ q)))))))))))))
        ≡ count x (
            take 511 (
              p
              ++ (padded true 2 (utoa_hex true (b 0))
                  ++ (58
                      ∷ (padded true 2 (utoa_hex true (b 1))
                          ++ (58
                              ∷ (padded true 2 (utoa_hex true (b 2))
                                  ++ (58
                                      ∷ (padded true 2 (utoa_hex true (b 3))
                                          ++ (58
                                              ∷ (padded true 2 (utoa_hex true (b 4))
                                                  ++ (58
                                                      ∷ (padded true 2 (utoa_hex true (b 5))
                                                          ++ q)))))))))))))
  mac_field p q a b room = fits _ _ _ (omega arith) (
      behind p (
        before_hex (a 0) (b 0) (
          behind (codes ":") (
            before_hex (a 1) (b 1) (
              behind (codes ":") (
                before_hex (a 2) (b 2) (
                  behind (codes ":") (
                    before_hex (a 3) (b 3) (
                      behind (codes ":") (
                        before_hex (a 4) (b 4)
                          (behind (codes ":") (before_hex (a 5) (b 5) (final q)))))))))))))

  pub radio_field :
      (p q r s : List ℕ) (a₁ a₂ a₃ b₁ b₂ b₃ : Bool)
      → length p + length q + length r + length s ≤ 400
      → count x (take 511 (p ++ (check a₁ ++ (q ++ (check a₂ ++ (r ++ (check a₃ ++ s)))))))
        ≡ count x (take 511 (p ++ (check b₁ ++ (q ++ (check b₂ ++ (r ++ (check b₃ ++ s)))))))
  radio_field p q r s a₁ a₂ a₃ b₁ b₂ b₃ room = fits _ _ _ (omega arith) (
      behind p (
        before_check a₁ b₁
          (behind q (before_check a₂ b₂ (behind r (before_check a₃ b₃ (final s)))))))
