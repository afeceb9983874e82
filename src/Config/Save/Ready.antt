-- ===== src/Config/Save/Ready.antt =====
-- src/config/config.c: every managed key is written as a line that loading takes, and restored.
use sn.Base.{
  sym, subst, ◌≤◌, ◌≡◌, refl, ℕ, ◌||◌, ◌&&◌, ◌==◌, not, Bool, true, Bool-cases, inl, inr, List, [],
  ◌∷◌, ◌++◌, codes, length, arith,
}
use sn.Common.{port0, port1, NodeConfig}
use sn.Text.{utoa}
use sn.Config.Value.{mode_name, protocol_name, addr_mode_name, backlight_name, format_ip}
use sn.Config.Save.{managed_keys, format_key}
use sn.Config.Save.Line.{IsValue, IsChunk, IsChunk-key, NoBreak}
use sn.Config.Save.Keys.{
  mac_text, mac_text-IsValue, number-IsValue, format_ip-IsValue, mode-NameBack, addr_mode-NameBack,
  backlight-NameBack, protocol-NameBack,
}
use sn.Config.Save.Printed.{
  node_text, line_nodeaddr, line_hostname, line_macaddr, line_netmask, line_gateway, line_protocol,
  line_dmx_holdtime, line_sacn_universe_0, line_sacn_universe_1, line_dmx_port0_mode,
  line_dmx_port1_mode, line_dmx1_label, line_dmx2_label, line_addr_mode, line_lcd_contrast,
  line_lcd_backlight, line_dmx_slot_monitor_0, line_dmx_slot_monitor_1,
}
use sn.Config.Save.Merge.{IsSavable, node_text-IsValue}
use sn.Config.Save.Restore.{
  restores_nodeaddr, restores_hostname, restores_macaddr, restores_netmask, restores_gateway,
  restores_protocol, restores_dmx_holdtime, restores_sacn_universe_0, restores_sacn_universe_1,
  restores_dmx_port0_mode, restores_dmx_port1_mode, restores_dmx1_label, restores_dmx2_label,
  restores_addr_mode, restores_lcd_contrast, restores_lcd_backlight, restores_dmx_slot_monitor_0,
  restores_dmx_slot_monitor_1,
}
use sn.Config.Save.Loads.{AllRestore}

abbrev no_breaks : List ℕ → Bool
no_breaks [] = true
no_breaks (c ∷ s) = not (c == 10 || c == 13) && no_breaks s

no_breaks-NoBreak : (s : List ℕ) → no_breaks s ≡ true → NoBreak s
unfolding NoBreak
no_breaks-NoBreak [] h = tt
no_breaks-NoBreak (c ∷ s) h = elim (Bool-cases (c == 10 || c == 13)) [
  | inl e ↦ absurd (cc (subst (λ b. not b && no_breaks s ≡ true) e h))
  | inr e ↦ (e, no_breaks-NoBreak s (subst (λ b. not b && no_breaks s ≡ true) e h))
]

-- A printed line is one that loading takes.
printed-IsChunk :
    (p v line : List ℕ)
    → line ≡ p ++ (v ++ 10 ∷ [])
    → no_breaks p ≡ true
    → length p ≤ 40
    → IsValue v
    → IsChunk line
printed-IsChunk p v line e h k value =
    subst IsChunk (sym e) (IsChunk-key p v (no_breaks-NoBreak p h) k value)

module _ (c start : NodeConfig) (h : IsSavable c) where
  nodeaddr-IsChunk : IsChunk (format_key 256 (codes "nodeaddr") c)
  nodeaddr-IsChunk =
      printed-IsChunk (codes "nodeaddr = ") (node_text c) _ (line_nodeaddr c) refl (omega arith)
        (node_text-IsValue c)

  hostname-IsChunk : IsChunk (format_key 256 (codes "hostname") c)
  hostname-IsChunk =
      printed-IsChunk (codes "hostname = ") (c.hostname) _ (line_hostname c (h.hostname)) refl
        (omega arith) (h.hostname)

  macaddr-IsChunk : IsChunk (format_key 256 (codes "macaddr") c)
  macaddr-IsChunk =
      printed-IsChunk (codes "macaddr = ") (mac_text c.mac) _ (line_macaddr c h.mac) refl
        (omega arith) (mac_text-IsValue c.mac)

  netmask-IsChunk : IsChunk (format_key 256 (codes "netmask") c)
  netmask-IsChunk =
      printed-IsChunk (codes "netmask = ") (format_ip c.netmask) _ (line_netmask c) refl
        (omega arith) (format_ip-IsValue c.netmask)

  gateway-IsChunk : IsChunk (format_key 256 (codes "gateway") c)
  gateway-IsChunk =
      printed-IsChunk (codes "gateway = ") (format_ip c.gateway) _ (line_gateway c) refl
        (omega arith) (format_ip-IsValue c.gateway)

  protocol-IsChunk : IsChunk (format_key 256 (codes "protocol") c)
  protocol-IsChunk =
      printed-IsChunk (codes "protocol = ") (protocol_name c.active_protocol) _
        (line_protocol c ((protocol-NameBack c.active_protocol h.valid.in_range.2).0)) refl
        (omega arith) ((protocol-NameBack c.active_protocol h.valid.in_range.2).0)

  dmx_holdtime-IsChunk : IsChunk (format_key 256 (codes "dmx_holdtime") c)
  dmx_holdtime-IsChunk =
      printed-IsChunk (codes "dmx_holdtime = ") (utoa c.dmx_hold_time) _ (line_dmx_holdtime c) refl
        (omega arith) (number-IsValue _)

  sacn_universe_0-IsChunk : IsChunk (format_key 256 (codes "sacn_universe_0") c)
  sacn_universe_0-IsChunk =
      printed-IsChunk (codes "sacn_universe_0 = ") (utoa (c.ports port0).universe) _
        (line_sacn_universe_0 c) refl (omega arith) (number-IsValue _)

  sacn_universe_1-IsChunk : IsChunk (format_key 256 (codes "sacn_universe_1") c)
  sacn_universe_1-IsChunk =
      printed-IsChunk (codes "sacn_universe_1 = ") (utoa (c.ports port1).universe) _
        (line_sacn_universe_1 c) refl (omega arith) (number-IsValue _)

  dmx_port0_mode-IsChunk : IsChunk (format_key 256 (codes "dmx_port0_mode") c)
  dmx_port0_mode-IsChunk =
      printed-IsChunk (codes "dmx_port0_mode = ") (mode_name (c.ports port0).mode) _
        (line_dmx_port0_mode c ((mode-NameBack _ (h.valid.in_range.0 port0).mode).0)) refl
        (omega arith) ((mode-NameBack _ (h.valid.in_range.0 port0).mode).0)

  dmx_port1_mode-IsChunk : IsChunk (format_key 256 (codes "dmx_port1_mode") c)
  dmx_port1_mode-IsChunk =
      printed-IsChunk (codes "dmx_port1_mode = ") (mode_name (c.ports port1).mode) _
        (line_dmx_port1_mode c ((mode-NameBack _ (h.valid.in_range.0 port1).mode).0)) refl
        (omega arith) ((mode-NameBack _ (h.valid.in_range.0 port1).mode).0)

  dmx1_label-IsChunk : IsChunk (format_key 256 (codes "dmx1_label") c)
  dmx1_label-IsChunk =
      printed-IsChunk (codes "dmx1_label = ") ((c.ports port0).label) _
        (line_dmx1_label c (h.label port0)) refl (omega arith) (h.label port0)

  dmx2_label-IsChunk : IsChunk (format_key 256 (codes "dmx2_label") c)
  dmx2_label-IsChunk =
      printed-IsChunk (codes "dmx2_label = ") ((c.ports port1).label) _
        (line_dmx2_label c (h.label port1)) refl (omega arith) (h.label port1)

  addr_mode-IsChunk : IsChunk (format_key 256 (codes "addr_mode") c)
  addr_mode-IsChunk =
      printed-IsChunk (codes "addr_mode = ") (addr_mode_name c.addr_mode) _
        (line_addr_mode c ((addr_mode-NameBack c.addr_mode h.addr_mode).0)) refl (omega arith)
        ((addr_mode-NameBack c.addr_mode h.addr_mode).0)

  lcd_contrast-IsChunk : IsChunk (format_key 256 (codes "lcd_contrast") c)
  lcd_contrast-IsChunk =
      printed-IsChunk (codes "lcd_contrast = ") (utoa c.lcd_contrast) _ (line_lcd_contrast c) refl
        (omega arith) (number-IsValue _)

  lcd_backlight-IsChunk : IsChunk (format_key 256 (codes "lcd_backlight") c)
  lcd_backlight-IsChunk =
      printed-IsChunk (codes "lcd_backlight = ") (backlight_name c.lcd_backlight) _
        (line_lcd_backlight c ((backlight-NameBack c.lcd_backlight h.lcd_backlight).0)) refl
        (omega arith) ((backlight-NameBack c.lcd_backlight h.lcd_backlight).0)

  dmx_slot_monitor_0-IsChunk : IsChunk (format_key 256 (codes "dmx_slot_monitor_0") c)
  dmx_slot_monitor_0-IsChunk =
      printed-IsChunk (codes "dmx_slot_monitor_0 = ") (utoa (c.dmx_slot_monitor port0)) _
        (line_dmx_slot_monitor_0 c) refl (omega arith) (number-IsValue _)

  dmx_slot_monitor_1-IsChunk : IsChunk (format_key 256 (codes "dmx_slot_monitor_1") c)
  dmx_slot_monitor_1-IsChunk =
      printed-IsChunk (codes "dmx_slot_monitor_1 = ") (utoa (c.dmx_slot_monitor port1)) _
        (line_dmx_slot_monitor_1 c) refl (omega arith) (number-IsValue _)

  pub all_restored : AllRestore c start 0 managed_keys
  all_restored = (
    (nodeaddr-IsChunk, λ w. restores_nodeaddr c start h w),
    (
      (hostname-IsChunk, λ w. restores_hostname c start h w),
      (
        (macaddr-IsChunk, λ w. restores_macaddr c start h w),
        (
          (netmask-IsChunk, λ w. restores_netmask c start h w),
          (
            (gateway-IsChunk, λ w. restores_gateway c start h w),
            (
              (protocol-IsChunk, λ w. restores_protocol c start h w),
              (
                (dmx_holdtime-IsChunk, λ w. restores_dmx_holdtime c start h w),
                (
                  (sacn_universe_0-IsChunk, λ w. restores_sacn_universe_0 c start h w),
                  (
                    (sacn_universe_1-IsChunk, λ w. restores_sacn_universe_1 c start h w),
                    (
                      (dmx_port0_mode-IsChunk, λ w. restores_dmx_port0_mode c start h w),
                      (
                        (dmx_port1_mode-IsChunk, λ w. restores_dmx_port1_mode c start h w),
                        (
                          (dmx1_label-IsChunk, λ w. restores_dmx1_label c start h w),
                          (
                            (dmx2_label-IsChunk, λ w. restores_dmx2_label c start h w),
                            (
                              (addr_mode-IsChunk, λ w. restores_addr_mode c start h w),
                              (
                                (lcd_contrast-IsChunk, λ w. restores_lcd_contrast c start h w),
                                (
                                  (lcd_backlight-IsChunk, λ w. restores_lcd_backlight c start h w),
                                  (
                                    (
                                      dmx_slot_monitor_0-IsChunk,
                                      λ w. restores_dmx_slot_monitor_0 c start h w,
                                    ),
                                    (
                                      (
                                        dmx_slot_monitor_1-IsChunk,
                                        λ w. restores_dmx_slot_monitor_1 c start h w,
                                      ),
                                      tt,
                                    ),
                                  ),
                                ),
                              ),
                            ),
                          ),
                        ),
                      ),
                    ),
                  ),
                ),
              ),
            ),
          ),
        ),
      ),
    ),
  )
