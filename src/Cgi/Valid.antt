-- ===== src/Cgi/Valid.antt =====
-- What `parse_formdata` makes of any form body.
use sn.Base.{
  ℕ, ◌^◌, ◌≤◌, ◌<◌, ◌≡◌, refl, zero, suc, List, [], ◌∷◌, length, length-take-le, codes, ◌==◌,
  ==_iff, Bool-cases, inl, inr, arith,
}
use sn.Common.{port0, port1, NodeConfig}
use sn.Text.{streq, atoi}
use sn.Config.Valid.{
  IsValid, InRange, by_key, set_universe-IsValid, set_mode-IsValid, set_label-IsValid,
  set_monitor-IsValid, clamp-bound, parse_mode-bound, parse_protocol-bound,
}
use sn.Cgi.{set_field, form_loop, next_field, clear_dhcp, parse_formdata}
use sn.Cgi.Change.{IsFormChange, form_loop-IsFormChange, cleared}

le_trans_16 : {n : ℕ} → n ≤ 63999 → n < 2 ^ 16
le_trans_16 h = omega (arith, h)

small_hold : {n : ℕ} → n ≤ 300 → n ≤ 63999
small_hold h = omega (arith, h)

set_field-IsValid : (k v : List ℕ) (c : NodeConfig) → InRange c → IsValid (set_field k v c)
unfolding set_field
set_field-IsValid k v c w =
    by_key (streq k (codes "hostname")) _ _
      (record { in_range = (w.0, length-take-le 15 v, w.2, w.3, w.4, w.5) })
      (by_key (streq k (codes "ipaddr")) _ _ (record { in_range = w })
        (by_key (streq k (codes "netmask")) _ _ (record { in_range = w })
          (by_key (streq k (codes "gateway")) _ _ (record { in_range = w })
            (by_key (streq k (codes "protocol")) _ _
              (record { in_range = (w.0, w.1, parse_protocol-bound v, w.3, w.4, w.5) })
              (by_key (streq k (codes "port0_mode")) _ _
                (set_mode-IsValid c w port0 _ (parse_mode-bound v))
                (by_key (streq k (codes "port1_mode")) _ _
                  (set_mode-IsValid c w port1 _ (parse_mode-bound v))
                  (by_key (streq k (codes "port0_universe")) _ _
                    (set_universe-IsValid c w port0 _
                      (le_trans_16 (clamp-bound (atoi v) 1 63999 (omega arith))))
                    (by_key (streq k (codes "port1_universe")) _ _
                      (set_universe-IsValid c w port1 _
                        (le_trans_16 (clamp-bound (atoi v) 1 63999 (omega arith))))
                      (by_key (streq k (codes "port0_label")) _ _ (set_label-IsValid c w port0 v) (
                        by_key (streq k (codes "port1_label")) _ _ (set_label-IsValid c w port1 v) (
                          by_key (streq k (codes "dmx_hold_time")) _ _
                            (record {
                              in_range = (
                                w.0,
                                w.1,
                                w.2,
                                le_trans_16 (small_hold (clamp-bound (atoi v) 0 300 (omega arith))),
                                w.4,
                                w.5,
                              );
                            })
                            (by_key (streq k (codes "addr_mode")) _ _ (record { in_range = w })
                              (by_key (streq k (codes "lcd_contrast")) _ _
                                (record {
                                  in_range = (
                                    w.0,
                                    w.1,
                                    w.2,
                                    w.3,
                                    clamp-bound (atoi v) 0 255 (omega arith),
                                    w.5,
                                  );
                                })
                                (by_key (streq k (codes "lcd_backlight")) _ _
                                  (record { in_range = w })
                                  (by_key (streq k (codes "slot_monitor_0")) _ _
                                    (set_monitor-IsValid c w port0 _
                                      (clamp-bound (atoi v) 0 512 (omega arith)))
                                    (by_key (streq k (codes "slot_monitor_1")) _ _
                                      (set_monitor-IsValid c w port1 _
                                        (clamp-bound (atoi v) 0 512 (omega arith)))
                                      (record { in_range = w })))))))))))))))))

form_loop-IsValid :
    (fuel : ℕ) (body : List ℕ) (c : NodeConfig) → IsValid c → IsValid (form_loop fuel body c)
unfolding form_loop
form_loop-IsValid zero [] c w = w
form_loop-IsValid (suc fuel) [] c w = w
form_loop-IsValid zero (d ∷ body) c w = w
form_loop-IsValid (suc fuel) (d ∷ body) c w =
    let (key, value, rest) = next_field (d ∷ body) in
    form_loop-IsValid fuel rest (set_field key value c) (set_field-IsValid key value c w.in_range)

-- Whatever the body of the form is, a configuration with values in range is changed to one with
-- values in range; each universe, the hold time, the contrast and each monitored slot is the old one
-- or within the bounds of the form, 1 to 63999, 0 to 300, 0 to 255 and 0 to 512; and under DHCP its
-- address, netmask and gateway are 0.
pub parse_formdata-IsValid :
    (body : List ℕ) (c : NodeConfig)
    → IsValid c
    → IsValid (parse_formdata body c)
      × IsFormChange c (parse_formdata body c)
      × ((parse_formdata body c).addr_mode ≡ 1
          → ((parse_formdata body c).ip_addr ≡ 0)
            × ((parse_formdata body c).netmask ≡ 0)
            × ((parse_formdata body c).gateway ≡ 0))
unfolding parse_formdata clear_dhcp
parse_formdata-IsValid body c w =
    let d = form_loop (length body) body c in
    let w' = form_loop-IsValid (length body) body c w in
    let f = form_loop-IsFormChange (length body) body c in
    elim (Bool-cases (d.addr_mode == 1)) [
      | inl dhcp ↦ rw dhcp (record { in_range = w'.in_range }, cleared f, (λ _. (refl, refl, refl)))
      | inr other ↦ rw other (w', f, (λ h. absurd (cc (other, (==_iff d.addr_mode 1).1 h))))
    ]
