-- ===== src/Config/Save/Preserves.antt =====
-- src/config/config.c: `config_save` keeps the lines that have no managed key.
use sn.Base.{
  ap, ap₂, sym, subst, ◌∙◌, ◌≡◌, refl, inl, inr, ◌≤◌, ℕ, ◌+◌, zero, suc, Bool, true, false, Option,
  none, some, List, [], ◌∷◌, ◌++◌, append_assoc, append_nil, length, length-append, take, drop,
  if◌then◌else◌, Bool-cases, success, arith,
}
use sn.Common.{NodeConfig}
use sn.Text.{streq}
use sn.Config.{fgets, config_defaults}
use sn.Config.Enough.{fgets_takes}
use sn.Config.Save.{
  managed_keys, format_key, line_length, line_key, find_key, is_extension, found_line, keyed_line,
  save_line, save_lines, append_missing, saved_text, config_save, config_save_internal,
}
use sn.Config.Save.Line.{IsChunk, HasNoNul}
use sn.Config.Save.Chunks.{Whole, line_length-fgets}
use sn.Config.Save.Merge.{IsSavable}
use sn.Config.Save.Loads.{AllRestore, save_line-Loads, some_injective}
use sn.Config.Save.Ready.{all_restored}
use sn.Config.Save.Managed.{is_managed, key_managed, AllManaged, managed_keys-AllManaged}
use sn.Config.Save.RoundTrip.{cut_takes, cut-IsChunk, read_text}

-- A line, if it has no managed key.
abbrev pub unmanaged_line : List ℕ → List ℕ
unmanaged_line line = if is_managed line then [] else line

-- The lines of a text that have no managed key, in order; a line is what `fgets` takes.
unfoldable pub unmanaged_lines : ℕ → List ℕ → List ℕ
unmanaged_lines fuel [] = []
unmanaged_lines zero (d ∷ s) = []
unmanaged_lines (suc fuel) (d ∷ s) =
    unmanaged_line (fgets 255 (d ∷ s)).0 ++ unmanaged_lines fuel (fgets 255 (d ∷ s)).1

abbrev pub unmanaged_text : List ℕ → List ℕ
unmanaged_text s = unmanaged_lines (length s) s

same_lines :
    (f k : ℕ) (s : List ℕ) → length s ≤ f → length s ≤ k → unmanaged_lines f s ≡ unmanaged_lines k s
unfolding unmanaged_lines
same_lines zero zero [] h h' = refl
same_lines zero (suc k) [] h h' = refl
same_lines (suc f) zero [] h h' = refl
same_lines (suc f) (suc k) [] h h' = refl
same_lines zero k (d ∷ s) h h' = absurd (omega arith)
same_lines (suc f) zero (d ∷ s) h h' = absurd (omega arith)
same_lines (suc f) (suc k) (d ∷ s) h h' =
    let short = fgets_takes 254 d s in
    ap (λ l. unmanaged_line (fgets 255 (d ∷ s)).0 ++ l)
      (same_lines f k (fgets 255 (d ∷ s)).1 (omega (arith, short)) (omega (arith, short)))

unmanaged_text-chunk :
    (l t : List ℕ) → IsChunk l → unmanaged_text (l ++ t) ≡ unmanaged_line l ++ unmanaged_text t
unfolding unmanaged_lines is_managed line_key
unmanaged_text-chunk [] t h = refl
unmanaged_text-chunk (d ∷ l) t h =
    let enough : length t ≤ length (l ++ t) = omega (arith, length-append l t) in
    rw (unmanaged_lines, h t)
      (ap (λ m. unmanaged_line (d ∷ l) ++ m)
        (same_lines (length (l ++ t)) (length t) t enough (omega arith)))

module _ (c : NodeConfig) where
  found-managed :
      (k key : List ℕ) (i j : ℕ) (keys : List (List ℕ))
      → AllManaged c keys
      → find_key k i keys ≡ some (j, key)
      → is_managed (format_key 256 key c) ≡ true
  unfolding find_key
  found-managed k key i j [] all h = absurd (cc h)
  found-managed k key i j (x ∷ keys) (first, all) h = elim (Bool-cases (streq k x)) [
    | inl e ↦
        let same =
          some_injective (
            subst (λ b. (if b then some (i, x) else find_key k (i + 1) keys) ≡ some (j, key)) e
              h) in
        subst (λ r. is_managed (format_key 256 r.1 c) ≡ true) same first
    | inr e ↦
        found-managed k key (i + 1) j keys all
          (subst (λ b. (if b then some (i, x) else find_key k (i + 1) keys) ≡ some (j, key)) e h)
  ]

  module _ (all : AllManaged c managed_keys) where
    -- What is written for a line has as much unmanaged text as the line.
    found-keeps :
        (line k : List ℕ) (w : ℕ → Bool) (found : Option (ℕ × List ℕ))
        → line_key line ≡ some k
        → find_key k 0 managed_keys ≡ found
        → unmanaged_line (found_line managed_keys false c line k found w).0 ≡ unmanaged_line line
    found-keeps line k w none h f = refl
    found-keeps line k w (some (j, key)) h f =
        let printed = found-managed k key 0 j managed_keys all f in
        let here : is_managed line ≡ true =
          (unfold is_managed in (ap key_managed h ∙ ap is_extension f)) in
        rw (printed, here) refl

    keyed-keeps :
        (line : List ℕ) (w : ℕ → Bool) (key : Option (List ℕ))
        → line_key line ≡ key
        → unmanaged_line (keyed_line managed_keys false c line key w).0 ≡ unmanaged_line line
    keyed-keeps line w none h = refl
    keyed-keeps line w (some k) h = found-keeps line k w (find_key k 0 managed_keys) h refl

    save_line-keeps :
        (line : List ℕ) (w : ℕ → Bool)
        → unmanaged_line (save_line managed_keys false c line w).0 ≡ unmanaged_line line
    unfolding save_line
    save_line-keeps line w = keyed-keeps line w (line_key line) refl

    module _ (lines : AllRestore c config_defaults 0 managed_keys) where
      save_lines-keeps :
          (fuel : ℕ) (s t : List ℕ) (w : ℕ → Bool)
          → length s ≤ fuel
          → Whole s
          → unmanaged_text ((save_lines managed_keys false c fuel s w).0 ++ t)
            ≡ unmanaged_lines fuel s ++ unmanaged_text t
      unfolding save_lines unmanaged_lines
      save_lines-keeps zero [] t w h whole = refl
      save_lines-keeps (suc fuel) [] t w h whole = refl
      save_lines-keeps zero (d ∷ s) t w h whole = absurd (omega arith)
      save_lines-keeps (suc fuel) (d ∷ s) t w h whole =
          let n = line_length (d ∷ s) in
          let cut = line_length-fgets (d ∷ s) in
          let (chunk, whole') = cut-IsChunk d s whole in
          let saved = save_line managed_keys false c (take n (d ∷ s)) w in
          let chunk' = (save_line-Loads c config_defaults lines (take n (d ∷ s)) w chunk).0 in
          let rest = save_lines managed_keys false c fuel (drop n (d ∷ s)) saved.1 in
          let kept : unmanaged_line saved.0 ≡ unmanaged_line (fgets 255 (d ∷ s)).0 =
            save_line-keeps (take n (d ∷ s)) w ∙ ap (λ r. unmanaged_line r.0) cut in
          let others : unmanaged_lines fuel (drop n (d ∷ s))
              ≡ unmanaged_lines fuel (fgets 255 (d ∷ s)).1 =
            ap (λ r. unmanaged_lines fuel r.1) cut in
          ap unmanaged_text (append_assoc saved.0 rest.0 t)
          ∙ unmanaged_text-chunk saved.0 (rest.0 ++ t) chunk'
          ∙ ap₂ (λ a b. a ++ b) kept
              (save_lines-keeps fuel (drop n (d ∷ s)) t saved.1 (omega (arith, cut_takes d s))
                  whole'
                ∙ ap (λ l. l ++ unmanaged_text t) others)
          ∙ sym (
              append_assoc (unmanaged_line (fgets 255 (d ∷ s)).0)
                (unmanaged_lines fuel (fgets 255 (d ∷ s)).1) (unmanaged_text t))

  -- The keys that are appended are managed.
  append_missing-keeps :
      (i : ℕ) (ks : List (List ℕ)) (w : ℕ → Bool)
      → AllRestore c config_defaults i ks
      → AllManaged c ks
      → unmanaged_text (append_missing managed_keys false c i ks w) ≡ []
  unfolding append_missing unmanaged_lines
  append_missing-keeps i [] w lines all = refl
  append_missing-keeps i (k ∷ ks) w ((chunk, _), lines) (first, all) = elim (Bool-cases (w i)) [
    | inl e ↦ rw (append_missing, e) (append_missing-keeps (i + 1) ks w lines all)
    | inr e ↦
        let rest = append_missing managed_keys false c (i + 1) ks w in
        let gone : unmanaged_line (format_key 256 k c) ≡ [] = rw first refl in
        rw (append_missing, e)
          (unmanaged_text-chunk (format_key 256 k c) rest chunk
            ∙ ap₂ (λ a b. a ++ b) gone (append_missing-keeps (i + 1) ks w lines all))
  ]

saved_text-unmanaged :
    (c : NodeConfig) (s : List ℕ)
    → IsSavable c
    → Whole s
    → unmanaged_text (saved_text managed_keys false c s) ≡ unmanaged_text s
unfolding saved_text
saved_text-unmanaged c s h whole =
    let lines = all_restored c config_defaults h in
    let all = managed_keys-AllManaged c h in
    let loop = save_lines managed_keys false c (length s) s (λ _. false) in
    save_lines-keeps c all lines (length s) s
      (append_missing managed_keys false c 0 managed_keys loop.1) (λ _. false) (omega arith) whole
    ∙ ap (λ l. unmanaged_text s ++ l) (append_missing-keeps c 0 managed_keys loop.1 lines all)
    ∙ append_nil (unmanaged_text s)

-- If the old file is whole lines of at most 2047 bytes without a NUL byte, `config_save` of a configuration that a file
-- can hold writes a file whose lines without a managed key are those of the old file, in the same
-- order.
pub config_save-unmanaged :
    (c : NodeConfig) (s : List ℕ)
    → IsSavable c
    → Whole s
    → HasNoNul s
    → length s ≤ 2047
    → (saved : List ℕ) × (config_save c (some s) true ≡ (success, some saved))
      × (unmanaged_text saved ≡ unmanaged_text s)
unfolding config_save config_save_internal
config_save-unmanaged c s h whole string fits = (
  saved_text managed_keys false c s,
  rw (read_text s string fits) refl,
  saved_text-unmanaged c s h whole,
)
