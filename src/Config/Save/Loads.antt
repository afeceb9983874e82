-- ===== src/Config/Save/Loads.antt =====
-- src/config/config.c: what loading does with each line that `config_save` writes.
use sn.Base.{
  ap, subst, ◌∙◌, ◌≡◌, refl, ℕ, ◌+◌, Bool, false, ◌||◌, Option, none, some, List, [], ◌∷◌, codes,
  ◌==◌, if◌then◌else◌, Bool-cases, inl, inr,
}
use sn.Common.{NodeConfig}
use sn.Text.{streq}
use sn.Config.{load_line, set_key, set_pair, scan_pair, trim}
use sn.Config.Save.{
  managed_keys, format_key, line_key, pair_key, find_key, mark, save_line, found_line, keyed_line,
}
use sn.Config.Save.Line.{IsChunk}
use sn.Config.Save.Merge.{merge}

pub some_injective : {A : Type 0} {a b : A} → some a ≡ some b → a ≡ b
some_injective {a = a} h = ap (λ o. elim o [ none ↦ a | some x ↦ x ]) h

no_pair :
    (pair : Option (List ℕ × List ℕ)) (st : NodeConfig)
    → pair_key pair ≡ none
    → set_pair pair st ≡ st
unfolding set_pair
no_pair none st h = refl
no_pair (some pair) st h = absurd (cc h)

one_pair :
    (pair : Option (List ℕ × List ℕ)) (k : List ℕ) (st : NodeConfig)
    → pair_key pair ≡ some k
    → (v : List ℕ) × (set_pair pair st ≡ set_key k v st)
unfolding set_pair
one_pair none k st h = absurd (cc h)
one_pair (some pair) k st h = (trim pair.1, ap (λ t. set_key t (trim pair.1) st) (some_injective h))

-- A line without a managed key changes nothing.
no_key : (line : List ℕ) (st : NodeConfig) → line_key line ≡ none → load_line line st ≡ st
unfolding line_key load_line
no_key [] st h = refl
no_key (d ∷ line) st h = elim (Bool-cases (d == 35 || d == 10 || d == 13)) [
  | inl e ↦ rw e refl
  | inr e ↦ rw e (
      no_pair (scan_pair (d ∷ line)) st
        (subst (λ b. (if b then none else pair_key (scan_pair (d ∷ line))) ≡ none) e h))
]

-- A line with a key sets it.
one_key :
    (line k : List ℕ) (st : NodeConfig)
    → line_key line ≡ some k
    → (v : List ℕ) × (load_line line st ≡ set_key k v st)
unfolding line_key load_line
one_key [] k st h = absurd (cc h)
one_key (d ∷ line) k st h = elim (Bool-cases (d == 35 || d == 10 || d == 13)) [
  | inl e ↦
      absurd (cc (subst (λ b. (if b then none else pair_key (scan_pair (d ∷ line))) ≡ some k) e h))
  | inr e ↦ rw e (
      one_pair (scan_pair (d ∷ line)) k st
        (subst (λ b. (if b then none else pair_key (scan_pair (d ∷ line))) ≡ some k) e h))
]

missing_here :
    (k key : List ℕ) (i : ℕ) (keys : List (List ℕ))
    → find_key k i (key ∷ keys) ≡ none
    → (streq k key ≡ false) × (find_key k (i + 1) keys ≡ none)
unfolding find_key
missing_here k key i keys h = elim (Bool-cases (streq k key)) [
  | inl e ↦
      absurd (cc (subst (λ b. (if b then some (i, key) else find_key k (i + 1) keys) ≡ none) e h))
  | inr e ↦ (e, subst (λ b. (if b then some (i, key) else find_key k (i + 1) keys) ≡ none) e h)
]

-- A key that is not managed sets nothing.
unmanaged :
    (k v : List ℕ) (st : NodeConfig) → find_key k 0 managed_keys ≡ none → set_key k v st ≡ st
unfolding set_key
unmanaged k v st h₀ =
    let (e₀, h₁) = missing_here k (codes "nodeaddr") 0 _ h₀ in
    let (e₁, h₂) = missing_here k (codes "hostname") 1 _ h₁ in
    let (e₂, h₃) = missing_here k (codes "macaddr") 2 _ h₂ in
    let (e₃, h₄) = missing_here k (codes "netmask") 3 _ h₃ in
    let (e₄, h₅) = missing_here k (codes "gateway") 4 _ h₄ in
    let (e₅, h₆) = missing_here k (codes "protocol") 5 _ h₅ in
    let (e₆, h₇) = missing_here k (codes "dmx_holdtime") 6 _ h₆ in
    let (e₇, h₈) = missing_here k (codes "sacn_universe_0") 7 _ h₇ in
    let (e₈, h₉) = missing_here k (codes "sacn_universe_1") 8 _ h₈ in
    let (e₉, h₁₀) = missing_here k (codes "dmx_port0_mode") 9 _ h₉ in
    let (e₁₀, h₁₁) = missing_here k (codes "dmx_port1_mode") 10 _ h₁₀ in
    let (e₁₁, h₁₂) = missing_here k (codes "dmx1_label") 11 _ h₁₁ in
    let (e₁₂, h₁₃) = missing_here k (codes "dmx2_label") 12 _ h₁₂ in
    let (e₁₃, h₁₄) = missing_here k (codes "addr_mode") 13 _ h₁₃ in
    let (e₁₄, h₁₅) = missing_here k (codes "lcd_contrast") 14 _ h₁₄ in
    let (e₁₅, h₁₆) = missing_here k (codes "lcd_backlight") 15 _ h₁₅ in
    let (e₁₆, h₁₇) = missing_here k (codes "dmx_slot_monitor_0") 16 _ h₁₆ in
    let (e₁₇, h₁₈) = missing_here k (codes "dmx_slot_monitor_1") 17 _ h₁₇ in
    rw (e₀, e₁, e₂, e₃, e₄, e₅, e₆, e₇, e₈, e₉, e₁₀, e₁₁, e₁₂, e₁₃, e₁₄, e₁₅, e₁₆, e₁₇) refl

module _ (c start : NodeConfig) where
  -- What the loops need of the line of a key.
  abbrev pub Restores : ℕ → List ℕ → Type 0
  Restores i k =
      IsChunk (format_key 256 k c)
      × ((w : ℕ → Bool)
          → load_line (format_key 256 k c) (merge w start c) ≡ merge (mark w i) start c)

  abbrev pub AllRestore : ℕ → List (List ℕ) → Type 0
  AllRestore i [] = Unit
  AllRestore i (k ∷ ks) = Restores i k × AllRestore (i + 1) ks

  found-Restores :
      (k key : List ℕ) (i j : ℕ) (keys : List (List ℕ))
      → AllRestore i keys
      → find_key k i keys ≡ some (j, key)
      → Restores j key
  unfolding find_key
  found-Restores k key i j [] all h = absurd (cc h)
  found-Restores k key i j (x ∷ keys) (first, all) h = elim (Bool-cases (streq k x)) [
    | inl e ↦
        let same =
          some_injective (
            subst (λ b. (if b then some (i, x) else find_key k (i + 1) keys) ≡ some (j, key)) e
              h) in
        subst (λ r. Restores r.0 r.1) same first
    | inr e ↦
        found-Restores k key (i + 1) j keys all
          (subst (λ b. (if b then some (i, x) else find_key k (i + 1) keys) ≡ some (j, key)) e h)
  ]

  -- One line that is saved is loaded as what its mark says.
  abbrev pub Loads : List ℕ × (ℕ → Bool) → (ℕ → Bool) → Type 0
  Loads saved w = IsChunk saved.0 × (load_line saved.0 (merge w start c) ≡ merge saved.1 start c)

  module _ (all : AllRestore 0 managed_keys) where
    found-Loads :
        (line k : List ℕ) (w : ℕ → Bool) (found : Option (ℕ × List ℕ))
        → IsChunk line
        → line_key line ≡ some k
        → find_key k 0 managed_keys ≡ found
        → Loads (found_line managed_keys false c line k found w) w
    found-Loads line k w none chunk h f =
        let (v, e) = one_key line k (merge w start c) h in
        (chunk, e ∙ unmanaged k v (merge w start c) f)
    found-Loads line k w (some (j, key)) chunk h f =
        let (chunk', sets) = found-Restores k key 0 j managed_keys all f in (chunk', sets w)

    keyed-Loads :
        (line : List ℕ) (w : ℕ → Bool) (key : Option (List ℕ))
        → IsChunk line
        → line_key line ≡ key
        → Loads (keyed_line managed_keys false c line key w) w
    keyed-Loads line w none chunk h = (chunk, no_key line (merge w start c) h)
    keyed-Loads line w (some k) chunk h =
        found-Loads line k w (find_key k 0 managed_keys) chunk h refl

    pub save_line-Loads :
        (line : List ℕ) (w : ℕ → Bool)
        → IsChunk line
        → Loads (save_line managed_keys false c line w) w
    unfolding save_line
    save_line-Loads line w chunk = keyed-Loads line w (line_key line) chunk refl
