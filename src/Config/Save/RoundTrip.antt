-- ===== src/Config/Save/RoundTrip.antt =====
-- src/config/config.c: `config_load` after `config_save` gives the configuration back.
use sn.Base.{
  append_assoc, ap, ap₂, fun_ext, sym, subst, ◌∙◌, ◌≡◌, refl, ◌≤◌, ◌<◌, ℕ, ◌+◌, zero, suc, Bool,
  true, false, Option, none, some, List, [], ◌∷◌, ◌++◌, take, drop, take_length, length, ◌==◌,
  if◌then◌else◌, Bool-cases, inl, inr, success, arith,
}
use native.Mathlib.Decide.{dec_lt}
use sn.Common.{Port, port0, port1, NodeConfig}
use sn.Config.{fgets, load_lines, config_load, config_defaults, infer_addr_mode}
use sn.Config.Enough.{fgets_takes}
use sn.Config.Save.{
  managed_keys, format_key, line_length, mark, save_line, save_lines, append_missing, saved_text,
  config_save, config_save_internal, until_nul,
}
use sn.Config.Save.Line.{IsChunk, HasNoNul}
use sn.Config.Save.Chunks.{load_all, load_all-chunk, Whole, fgets-Whole, line_length-fgets}
use sn.Config.Save.Merge.{IsSavable, merge}
use sn.Config.Save.Loads.{AllRestore, save_line-Loads}
use sn.Config.Save.Ready.{all_restored}
use sn.Config.Save.Keys.{overlay}

-- `s` without its first line.
pub cut_takes : (d : ℕ) (s : List ℕ) → length (drop (line_length (d ∷ s)) (d ∷ s)) ≤ length s
cut_takes d s =
    subst (λ r. length r ≤ length s) (sym (ap (λ r. r.1) (line_length-fgets (d ∷ s))))
      (fgets_takes 254 d s)

pub cut-IsChunk :
    (d : ℕ) (s : List ℕ)
    → Whole (d ∷ s)
    → IsChunk (take (line_length (d ∷ s)) (d ∷ s)) × Whole (drop (line_length (d ∷ s)) (d ∷ s))
cut-IsChunk d s h =
    let e = line_length-fgets (d ∷ s) in
    (
      (λ t.
          subst (λ l. fgets 255 (l ++ t) ≡ (l, t)) (sym (ap (λ r. r.0) e))
            (fgets-Whole 255 d s t h).0),
      subst Whole (sym (ap (λ r. r.1) e)) (fgets-Whole 255 d s [] h).1,
    )

-- What the keys that are appended mark.
abbrev mark_missing : ℕ → List (List ℕ) → (ℕ → Bool) → (ℕ → Bool) → ℕ → Bool
mark_missing i [] written w = w
mark_missing i (k ∷ ks) written w =
    let rest = mark_missing (i + 1) ks written in rest (if written i then w else mark w i)

mark-kept : (w : ℕ → Bool) (b : Bool) (i j : ℕ) → w j ≡ true → (if b then w else mark w i) j ≡ true
mark-kept w true i j h = h
mark-kept w false i j h = ground arith

mark_missing-kept :
    (i j : ℕ) (ks : List (List ℕ)) (written w : ℕ → Bool)
    → w j ≡ true
    → mark_missing i ks written w j ≡ true
mark_missing-kept i j [] written w h = h
mark_missing-kept i j (k ∷ ks) written w h =
    mark_missing-kept (i + 1) j ks written _ (mark-kept w (written i) i j h)

mark-here :
    (w written : ℕ → Bool) (j : ℕ)
    → (written j ≡ true → w j ≡ true)
    → (if written j then w else mark w j) j ≡ true
mark-here w written j h = elim (Bool-cases (written j)) [
  | inl e ↦ rw e (h e)
  | inr e ↦ rw e (ground arith)
]

mark_missing-all :
    (i j : ℕ) (ks : List (List ℕ)) (written w : ℕ → Bool)
    → (written j ≡ true → w j ≡ true)
    → i ≤ j
    → j < i + length ks
    → mark_missing i ks written w j ≡ true
mark_missing-all i j [] written w h low high = absurd (omega arith)
mark_missing-all i j (k ∷ ks) written w h low high = elim (dec_lt i j) [
  | yes later ↦
      mark_missing-all (i + 1) j ks written _ (λ e. mark-kept w (written i) i j (h e)) (omega arith)
        (omega arith)
  | no here ↦
      let e : j ≡ i = omega arith in
      mark_missing-kept (i + 1) j ks written _
        (subst (λ n. (if written n then w else mark w n) j ≡ true) e (mark-here w written j h))
]

module _ (c start : NodeConfig) where
  -- The loop over the lines.
  save_lines-load_all :
      AllRestore c start 0 managed_keys
      → (fuel : ℕ) (s t : List ℕ) (w : ℕ → Bool) → length s ≤ fuel
      → Whole s
      → load_all ((save_lines managed_keys false c fuel s w).0 ++ t) (merge w start c)
        ≡ load_all t (merge (save_lines managed_keys false c fuel s w).1 start c)
  unfolding save_lines
  save_lines-load_all all zero [] t w h whole = refl
  save_lines-load_all all (suc fuel) [] t w h whole = refl
  save_lines-load_all all zero (d ∷ s) t w h whole = absurd (omega arith)
  save_lines-load_all all (suc fuel) (d ∷ s) t w h whole =
      let n = line_length (d ∷ s) in
      let (chunk, whole') = cut-IsChunk d s whole in
      let saved = save_line managed_keys false c (take n (d ∷ s)) w in
      let (chunk', loaded) = save_line-Loads c start all (take n (d ∷ s)) w chunk in
      let rest = save_lines managed_keys false c fuel (drop n (d ∷ s)) saved.1 in
      ap (λ l. load_all l (merge w start c)) (append_assoc saved.0 rest.0 t)
      ∙ load_all-chunk saved.0 (rest.0 ++ t) (merge w start c) chunk'
      ∙ ap (λ st. load_all (rest.0 ++ t) st) loaded
      ∙ save_lines-load_all all fuel (drop n (d ∷ s)) t saved.1 (omega (arith, cut_takes d s))
          whole'

  -- The keys that are appended.
  append_missing-load_all :
      (i : ℕ) (ks : List (List ℕ)) (written w : ℕ → Bool)
      → AllRestore c start i ks
      → load_all (append_missing managed_keys false c i ks written) (merge w start c)
        ≡ merge (mark_missing i ks written w) start c
  unfolding append_missing load_lines
  append_missing-load_all i [] written w all = refl
  append_missing-load_all i (k ∷ ks) written w ((chunk, sets), all) =
      elim (Bool-cases (written i)) [
        | inl e ↦ rw (append_missing, e) (append_missing-load_all (i + 1) ks written w all)
        | inr e ↦
            rw (append_missing, e)
              (load_all-chunk (format_key 256 k c)
                  (append_missing managed_keys false c (i + 1) ks written) (merge w start c) chunk
                ∙ ap (λ st. load_all (append_missing managed_keys false c (i + 1) ks written) st)
                    (sets w)
                ∙ append_missing-load_all (i + 1) ks written (mark w i) all)
      ]

  saved_text-load_all :
      (s : List ℕ)
      → AllRestore c start 0 managed_keys
      → Whole s
      → (w : ℕ → Bool) × (load_all (saved_text managed_keys false c s) (merge (λ _. false) start c)
          ≡ merge w start c)
        × ((j : ℕ) → j < 18 → w j ≡ true)
  unfolding saved_text
  saved_text-load_all s all whole =
      let loop = save_lines managed_keys false c (length s) s (λ _. false) in
      (
        mark_missing 0 managed_keys loop.1 loop.1,
        save_lines-load_all all (length s) s
              (append_missing managed_keys false c 0 managed_keys loop.1) (λ _. false) (omega arith)
              whole
            ∙ append_missing-load_all 0 managed_keys loop.1 loop.1 all,
        (λ j h.
            mark_missing-all 0 j managed_keys loop.1 loop.1 (λ e. e) (omega arith) (omega arith)),
      )

by_port : (P : Port → Type 0) → P port0 → P port1 → (p : Port) → P p
by_port P a b port0 = a
by_port P a b port1 = b

merge_none : (c start : NodeConfig) → merge (λ _. false) start c ≡ start
merge_none c start =
    ap₂ (λ f g. record start { ports = f; dmx_slot_monitor = g })
      (fun_ext (by_port (λ p. (merge (λ _. false) start c).ports p ≡ start.ports p) refl refl))
      (fun_ext (
        by_port (λ p. (merge (λ _. false) start c).dmx_slot_monitor p ≡ start.dmx_slot_monitor p)
          refl refl))

-- The values of `c` that the file holds are those of `d`.
pub record Restored (c d : NodeConfig) : Type 0 where
  pub hostname : d.hostname ≡ c.hostname
  pub ip_addr : d.ip_addr ≡ c.ip_addr
  pub netmask : d.netmask ≡ c.netmask
  pub gateway : d.gateway ≡ c.gateway
  pub mac : (i : ℕ) → i < 6 → d.mac i ≡ c.mac i
  pub mode : (p : Port) → (d.ports p).mode ≡ (c.ports p).mode
  pub universe : (p : Port) → (d.ports p).universe ≡ (c.ports p).universe
  pub label : (p : Port) → (d.ports p).label ≡ (c.ports p).label
  pub active_protocol : d.active_protocol ≡ c.active_protocol
  pub dmx_hold_time : d.dmx_hold_time ≡ c.dmx_hold_time
  pub addr_mode : d.addr_mode ≡ c.addr_mode
  pub lcd_contrast : d.lcd_contrast ≡ c.lcd_contrast
  pub lcd_backlight : d.lcd_backlight ≡ c.lcd_backlight
  pub dmx_slot_monitor : (p : Port) → d.dmx_slot_monitor p ≡ c.dmx_slot_monitor p

overlaid : (m old : ℕ → ℕ) (i : ℕ) → i < 6 → overlay m old i ≡ m i
overlaid m old i h = ground arith

merge-Restored :
    (w : ℕ → Bool) (start c : NodeConfig)
    → ((j : ℕ) → j < 18 → w j ≡ true)
    → Restored c (merge w start c)
merge-Restored w start c all = record {
  hostname = rw (all 1 (omega arith)) refl;
  ip_addr = rw (all 0 (omega arith)) refl;
  netmask = rw (all 3 (omega arith)) refl;
  gateway = rw (all 4 (omega arith)) refl;
  mac = λ i lt. rw (all 2 (omega arith)) (overlaid c.mac start.mac i lt);
  mode =
      by_port (λ p. ((merge w start c).ports p).mode ≡ (c.ports p).mode)
        (rw (all 9 (omega arith)) refl) (rw (all 10 (omega arith)) refl);
  universe =
      by_port (λ p. ((merge w start c).ports p).universe ≡ (c.ports p).universe)
        (rw (all 7 (omega arith)) refl) (rw (all 8 (omega arith)) refl);
  label =
      by_port (λ p. ((merge w start c).ports p).label ≡ (c.ports p).label)
        (rw (all 11 (omega arith)) refl) (rw (all 12 (omega arith)) refl);
  active_protocol = rw (all 5 (omega arith)) refl;
  dmx_hold_time = rw (all 6 (omega arith)) refl;
  addr_mode = rw (all 13 (omega arith)) refl;
  lcd_contrast = rw (all 14 (omega arith)) refl;
  lcd_backlight = rw (all 15 (omega arith)) refl;
  dmx_slot_monitor =
      by_port (λ p. (merge w start c).dmx_slot_monitor p ≡ c.dmx_slot_monitor p)
        (rw (all 16 (omega arith)) refl) (rw (all 17 (omega arith)) refl);
}

kept_addr_mode : (c : NodeConfig) → c.addr_mode ≤ 2 → infer_addr_mode c ≡ c
unfolding infer_addr_mode
kept_addr_mode c h = let e : (c.addr_mode == 255) ≡ false = ground arith in rw e refl

until_nul-HasNoNul : (s : List ℕ) → HasNoNul s → until_nul s ≡ s
unfolding until_nul
until_nul-HasNoNul [] h = refl
until_nul-HasNoNul (c ∷ s) (h, rest) =
    let z : (c == 0) ≡ false = ground arith in
    rw (until_nul, z) (ap (λ l. c ∷ l) (until_nul-HasNoNul s rest))

-- A file of whole lines that fits the buffer is read as it is.
pub read_text : (s : List ℕ) → HasNoNul s → length s ≤ 2047 → until_nul (take 2047 s) ≡ s
read_text s text fits = ap until_nul (take_length 2047 s fits) ∙ until_nul-HasNoNul s text

-- The old file: it is not there, or it has no NUL byte, its lines all have their newline and it
-- fits the buffer.
abbrev pub IsWholeFile : Option (List ℕ) → Type 0
IsWholeFile none = Unit
IsWholeFile (some s) = Whole s × HasNoNul s × (length s ≤ 2047)

loaded_text :
    (c : NodeConfig) (s : List ℕ)
    → IsSavable c
    → Whole s
    → ((config_load (some (saved_text managed_keys false c s))).0 ≡ success)
      × Restored c (config_load (some (saved_text managed_keys false c s))).1
unfolding config_load
loaded_text c s h whole =
    let (w, loads, all) =
      saved_text-load_all c config_defaults s (all_restored c config_defaults h) whole in
    let loaded =
      ap (λ st. load_all (saved_text managed_keys false c s) st)
        (sym (merge_none c config_defaults))
      ∙ loads in
    let mode : (merge w config_defaults c).addr_mode ≤ 2 = rw (all 13 (omega arith)) h.addr_mode in
    (
      refl,
      subst (λ d. Restored c (infer_addr_mode d)) (sym loaded)
          (subst (λ d. Restored c d) (sym (kept_addr_mode (merge w config_defaults c) mode))
            (merge-Restored w config_defaults c all)),
    )

-- If the old file is not there, or is whole lines of at most 2047 bytes without a NUL byte,
-- `config_save` of a configuration that a file can hold writes a file that `config_load` reads back
-- as the same values of all managed keys, whatever keys, comments and other lines the old file has.
pub config_load-config_save :
    (c : NodeConfig) (existing : Option (List ℕ))
    → IsSavable c
    → IsWholeFile existing
    → (saved : List ℕ) × (config_save c existing true ≡ (success, some saved))
      × ((config_load (some saved)).0 ≡ success)
      × Restored c (config_load (some saved)).1
unfolding config_save config_save_internal
config_load-config_save c none h whole =
    let (ok, same) = loaded_text c [] h (unfold Whole in tt) in (_, refl, ok, same)
config_load-config_save c (some s) h (whole, string, fits) =
    let (ok, same) = loaded_text c s h whole in
    (saved_text managed_keys false c s, rw (read_text s string fits) refl, ok, same)
