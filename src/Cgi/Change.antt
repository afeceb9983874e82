-- ===== src/Cgi/Change.antt =====
-- src/cgi/cgi_parse.h: the bounds of the numbers that a form sets.
use sn.Base.{
  ℕ, ◌≤◌, ◌≡◌, refl, zero, suc, List, [], ◌∷◌, ◌⊎◌, Bool, ℤ, pos, negsuc, codes, inl, inr,
  if◌then◌else◌, arith,
}
use sn.Common.{Port, port0, port1, set_port, PortConfig, NodeConfig}
use sn.Text.{streq, atoi, clamp}
use sn.Config.Valid.{by_cases, clamp-bound}
use sn.Cgi.{set_field, form_loop, next_field}
use sn.Config.{set_monitor}

-- A field keeps its value or has one within the bounds.
abbrev pub Within : ℕ → ℕ → ℕ → ℕ → Type 0
Within lo hi old new = (new ≡ old) ⊎ ((lo ≤ new) × (new ≤ hi))

-- What a form may do to the numbers of a configuration.
pub record IsFormChange (old new : NodeConfig) : Type 0 where
  pub universe : (p : Port) → Within 1 63999 (old.ports p).universe (new.ports p).universe
  pub dmx_hold_time : Within 0 300 old.dmx_hold_time new.dmx_hold_time
  pub lcd_contrast : Within 0 255 old.lcd_contrast new.lcd_contrast
  pub dmx_slot_monitor : (p : Port) → Within 0 512 (old.dmx_slot_monitor p) (new.dmx_slot_monitor p)

Within-trans : {lo hi x y z : ℕ} → Within lo hi x y → Within lo hi y z → Within lo hi x z
Within-trans (inl e) (inl k) = inl (cc (e, k))
Within-trans (inr (a, b)) (inl k) = inr (omega (arith, a, k), omega (arith, b, k))
Within-trans h (inr r) = inr r

IsFormChange-trans : (b c d : NodeConfig) → IsFormChange b c → IsFormChange c d → IsFormChange b d
IsFormChange-trans b c d h k = record {
  universe = λ p. Within-trans (h.universe p) (k.universe p);
  dmx_hold_time = Within-trans h.dmx_hold_time k.dmx_hold_time;
  lcd_contrast = Within-trans h.lcd_contrast k.lcd_contrast;
  dmx_slot_monitor = λ p. Within-trans (h.dmx_slot_monitor p) (k.dmx_slot_monitor p);
}

clamp-Within : (old : ℕ) (x : ℤ) (lo hi : ℕ) → lo ≤ hi → Within lo hi old (clamp x lo hi)
clamp-Within old x lo hi h = inr (bound x, clamp-bound x lo hi h)
  where
    bound : (x : ℤ) → lo ≤ clamp x lo hi
    bound (negsuc n) = unfold clamp in omega arith
    bound (pos n) = unfold clamp in ground arith

-- A change of one port's value within the bounds.
set_port-Within {ℓ} :
    {A : Type ℓ} (part : A → ℕ) (lo hi : ℕ) (f : Port → A) (p : Port) (v : A)
    → Within lo hi (part (f p)) (part v)
    → (q : Port) → Within lo hi (part (f q)) (part (set_port f p v q))
set_port-Within part lo hi f port0 v h port0 = h
set_port-Within part lo hi f port0 v h port1 = inl refl
set_port-Within part lo hi f port1 v h port0 = inl refl
set_port-Within part lo hi f port1 v h port1 = h

module _ (c : NodeConfig) where
  ports_change :
      (f : Port → PortConfig)
      → ((p : Port) → Within 1 63999 (c.ports p).universe (f p).universe)
      → IsFormChange c (record c { ports = f })
  ports_change f h = record {
    universe = h;
    dmx_hold_time = inl refl;
    lcd_contrast = inl refl;
    dmx_slot_monitor = λ p. inl refl;
  }

  port_change :
      (p : Port) (v : PortConfig)
      → Within 1 63999 (c.ports p).universe v.universe
      → IsFormChange c (record c { ports = set_port c.ports p v })
  port_change p v h =
      ports_change (set_port c.ports p v)
        (set_port-Within PortConfig.universe 1 63999 c.ports p v h)

  monitor_change : (p : Port) (v : ℤ) → IsFormChange c (set_monitor p (clamp v 0 512) c)
  monitor_change p v = record {
    universe = λ q. inl refl;
    dmx_hold_time = inl refl;
    lcd_contrast = inl refl;
    dmx_slot_monitor =
        set_port-Within (λ n. n) 0 512 c.dmx_slot_monitor p (clamp v 0 512)
          (clamp-Within (c.dmx_slot_monitor p) v 0 512 (omega arith));
  }

  -- None of the bounded fields changes.
  other_change :
      (d : NodeConfig)
      → d.ports ≡ c.ports
      → d.dmx_hold_time ≡ c.dmx_hold_time
      → d.lcd_contrast ≡ c.lcd_contrast
      → d.dmx_slot_monitor ≡ c.dmx_slot_monitor
      → IsFormChange c d
  other_change d a h k m = record {
    universe = λ p. inl (rw a refl);
    dmx_hold_time = inl h;
    lcd_contrast = inl k;
    dmx_slot_monitor = λ p. inl (rw m refl);
  }

  same_change : IsFormChange c c
  same_change = other_change c refl refl refl refl

  form_key :
      (b : Bool) (x y : NodeConfig)
      → IsFormChange c x
      → IsFormChange c y
      → IsFormChange c (if b then x else y)
  form_key b x y h k = by_cases (λ d. IsFormChange c d) b x y h k

  set_field-IsFormChange : (k v : List ℕ) → IsFormChange c (set_field k v c)
  unfolding set_field
  set_field-IsFormChange k v =
      form_key (streq k (codes "hostname")) _ _ (other_change _ refl refl refl refl) (
        form_key (streq k (codes "ipaddr")) _ _ (other_change _ refl refl refl refl) (
          form_key (streq k (codes "netmask")) _ _ (other_change _ refl refl refl refl) (
            form_key (streq k (codes "gateway")) _ _ (other_change _ refl refl refl refl) (
              form_key (streq k (codes "protocol")) _ _ (other_change _ refl refl refl refl) (
                form_key (streq k (codes "port0_mode")) _ _ (port_change port0 _ (inl refl)) (
                  form_key (streq k (codes "port1_mode")) _ _ (port_change port1 _ (inl refl)) (
                    form_key (streq k (codes "port0_universe")) _ _
                      (port_change port0 _
                        (clamp-Within (c.ports port0).universe (atoi v) 1 63999 (omega arith)))
                      (form_key (streq k (codes "port1_universe")) _ _
                        (port_change port1 _
                          (clamp-Within (c.ports port1).universe (atoi v) 1 63999 (omega arith)))
                        (form_key (streq k (codes "port0_label")) _ _
                          (port_change port0 _ (inl refl))
                          (form_key (streq k (codes "port1_label")) _ _
                            (port_change port1 _ (inl refl))
                            (form_key (streq k (codes "dmx_hold_time")) _ _
                              (record {
                                universe = λ p. inl refl;
                                dmx_hold_time =
                                    clamp-Within c.dmx_hold_time (atoi v) 0 300 (omega arith);
                                lcd_contrast = inl refl;
                                dmx_slot_monitor = λ p. inl refl;
                              })
                              (form_key (streq k (codes "addr_mode")) _ _
                                (other_change _ refl refl refl refl)
                                (form_key (streq k (codes "lcd_contrast")) _ _
                                  (record {
                                    universe = λ p. inl refl;
                                    dmx_hold_time = inl refl;
                                    lcd_contrast =
                                        clamp-Within c.lcd_contrast (atoi v) 0 255 (omega arith);
                                    dmx_slot_monitor = λ p. inl refl;
                                  })
                                  (form_key (streq k (codes "lcd_backlight")) _ _
                                    (other_change _ refl refl refl refl)
                                    (form_key (streq k (codes "slot_monitor_0")) _ _
                                      (monitor_change port0 (atoi v))
                                      (form_key (streq k (codes "slot_monitor_1")) _ _
                                        (monitor_change port1 (atoi v)) same_change))))))))))))))))

pub form_loop-IsFormChange :
    (fuel : ℕ) (body : List ℕ) (c : NodeConfig) → IsFormChange c (form_loop fuel body c)
unfolding form_loop
form_loop-IsFormChange zero [] c = same_change c
form_loop-IsFormChange (suc fuel) [] c = same_change c
form_loop-IsFormChange zero (d ∷ body) c = same_change c
form_loop-IsFormChange (suc fuel) (d ∷ body) c =
    let (key, value, rest) = next_field (d ∷ body) in
    IsFormChange-trans c (set_field key value c) (form_loop fuel rest (set_field key value c))
      (set_field-IsFormChange c key value)
      (form_loop-IsFormChange fuel rest (set_field key value c))

-- Clearing the addresses leaves the bounded fields.
pub cleared :
    {c d : NodeConfig}
    → IsFormChange c d
    → IsFormChange c (record d { ip_addr = 0; netmask = 0; gateway = 0 })
cleared h = record {
  universe = h.universe;
  dmx_hold_time = h.dmx_hold_time;
  lcd_contrast = h.lcd_contrast;
  dmx_slot_monitor = h.dmx_slot_monitor;
}
