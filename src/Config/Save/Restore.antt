-- ===== src/Config/Save/Restore.antt =====
-- src/config/config.c: what loading a saved line does to the configuration.
use sn.Base.{ap, fun_ext, ◌∙◌, ◌≡◌, refl, ℕ, Bool, codes, take_length, arith}
use sn.Common.{port0, port1, set_port, NodeConfig}
use sn.Text.{streq, utoa}
use sn.Config.Value.{mode_name, protocol_name, addr_mode_name, backlight_name, format_ip}
use sn.Config.Address.{parse_ip-format_ip}
use sn.Config.{set_key, load_line}
use sn.Config.Save.{format_key, mark}
use sn.Config.Save.Keys.{
  mac_text, parse_mac-text, to_u16-atoi-utoa, clamp-atoi-utoa, mode-NameBack, addr_mode-NameBack,
  backlight-NameBack, protocol-NameBack, mac_text-IsValue, number-IsValue, format_ip-IsValue,
}
use sn.Config.Save.Printed.{
  node_text, line_nodeaddr, line_hostname, line_macaddr, line_netmask, line_gateway, line_protocol,
  line_dmx_holdtime, line_sacn_universe_0, line_sacn_universe_1, line_dmx_port0_mode,
  line_dmx_port1_mode, line_dmx1_label, line_dmx2_label, line_addr_mode, line_lcd_contrast,
  line_lcd_backlight, line_dmx_slot_monitor_0, line_dmx_slot_monitor_1,
}
use sn.Config.Save.Reads.{
  reads_nodeaddr, reads_hostname, reads_macaddr, reads_netmask, reads_gateway, reads_protocol,
  reads_dmx_holdtime, reads_sacn_universe_0, reads_sacn_universe_1, reads_dmx_port0_mode,
  reads_dmx_port1_mode, reads_dmx1_label, reads_dmx2_label, reads_addr_mode, reads_lcd_contrast,
  reads_lcd_backlight, reads_dmx_slot_monitor_0, reads_dmx_slot_monitor_1,
}
use sn.Config.Save.Merge.{
  IsSavable, merge, merge_ports, merge_monitor, overlay_twice, node_back, node_text-IsValue,
}

module _ (c start : NodeConfig) (h : IsSavable c) (w : ℕ → Bool) where
  set_nodeaddr :
      set_key (codes "nodeaddr") (node_text c) (merge w start c) ≡ merge (mark w 0) start c
  unfolding set_key streq
  set_nodeaddr = ap (λ x. record (merge w start c) { ip_addr = x }) (node_back c h)

  pub restores_nodeaddr :
      load_line (format_key 256 (codes "nodeaddr") c) (merge w start c) ≡ merge (mark w 0) start c
  restores_nodeaddr =
      ap (λ l. load_line l (merge w start c)) (line_nodeaddr c)
      ∙ reads_nodeaddr (node_text c) (merge w start c) (node_text-IsValue c)
      ∙ set_nodeaddr

  set_hostname :
      set_key (codes "hostname") (c.hostname) (merge w start c) ≡ merge (mark w 1) start c
  unfolding set_key streq
  set_hostname =
      ap (λ x. record (merge w start c) { hostname = x })
        (take_length 15 c.hostname h.valid.in_range.1)

  pub restores_hostname :
      load_line (format_key 256 (codes "hostname") c) (merge w start c) ≡ merge (mark w 1) start c
  restores_hostname =
      ap (λ l. load_line l (merge w start c)) (line_hostname c h.hostname)
      ∙ reads_hostname (c.hostname) (merge w start c) (h.hostname)
      ∙ set_hostname

  set_macaddr :
      set_key (codes "macaddr") (mac_text c.mac) (merge w start c) ≡ merge (mark w 2) start c
  unfolding set_key streq
  set_macaddr =
      ap (λ x. record (merge w start c) { mac = x })
        (ap (λ r. r.1) (parse_mac-text c.mac (merge w start c).mac h.mac)
          ∙ overlay_twice (w 2) c.mac start.mac)

  pub restores_macaddr :
      load_line (format_key 256 (codes "macaddr") c) (merge w start c) ≡ merge (mark w 2) start c
  restores_macaddr =
      ap (λ l. load_line l (merge w start c)) (line_macaddr c h.mac)
      ∙ reads_macaddr (mac_text c.mac) (merge w start c) (mac_text-IsValue c.mac)
      ∙ set_macaddr

  set_netmask :
      set_key (codes "netmask") (format_ip c.netmask) (merge w start c) ≡ merge (mark w 3) start c
  unfolding set_key streq
  set_netmask =
      ap (λ x. record (merge w start c) { netmask = x }) (parse_ip-format_ip c.netmask h.netmask)

  pub restores_netmask :
      load_line (format_key 256 (codes "netmask") c) (merge w start c) ≡ merge (mark w 3) start c
  restores_netmask =
      ap (λ l. load_line l (merge w start c)) (line_netmask c)
      ∙ reads_netmask (format_ip c.netmask) (merge w start c) (format_ip-IsValue c.netmask)
      ∙ set_netmask

  set_gateway :
      set_key (codes "gateway") (format_ip c.gateway) (merge w start c) ≡ merge (mark w 4) start c
  unfolding set_key streq
  set_gateway =
      ap (λ x. record (merge w start c) { gateway = x }) (parse_ip-format_ip c.gateway h.gateway)

  pub restores_gateway :
      load_line (format_key 256 (codes "gateway") c) (merge w start c) ≡ merge (mark w 4) start c
  restores_gateway =
      ap (λ l. load_line l (merge w start c)) (line_gateway c)
      ∙ reads_gateway (format_ip c.gateway) (merge w start c) (format_ip-IsValue c.gateway)
      ∙ set_gateway

  set_protocol :
      set_key (codes "protocol") (protocol_name c.active_protocol) (merge w start c)
      ≡ merge (mark w 5) start c
  unfolding set_key streq
  set_protocol =
      ap (λ x. record (merge w start c) { active_protocol = x })
        ((protocol-NameBack c.active_protocol h.valid.in_range.2).1)

  pub restores_protocol :
      load_line (format_key 256 (codes "protocol") c) (merge w start c) ≡ merge (mark w 5) start c
  restores_protocol =
      ap (λ l. load_line l (merge w start c))
        (line_protocol c ((protocol-NameBack c.active_protocol h.valid.in_range.2).0))
      ∙ reads_protocol (protocol_name c.active_protocol) (merge w start c)
          ((protocol-NameBack c.active_protocol h.valid.in_range.2).0)
      ∙ set_protocol

  set_dmx_holdtime :
      set_key (codes "dmx_holdtime") (utoa c.dmx_hold_time) (merge w start c)
      ≡ merge (mark w 6) start c
  unfolding set_key streq
  set_dmx_holdtime =
      ap (λ x. record (merge w start c) { dmx_hold_time = x })
        (to_u16-atoi-utoa c.dmx_hold_time h.valid.in_range.3)

  pub restores_dmx_holdtime :
      load_line (format_key 256 (codes "dmx_holdtime") c) (merge w start c)
      ≡ merge (mark w 6) start c
  restores_dmx_holdtime =
      ap (λ l. load_line l (merge w start c)) (line_dmx_holdtime c)
      ∙ reads_dmx_holdtime (utoa c.dmx_hold_time) (merge w start c) (number-IsValue c.dmx_hold_time)
      ∙ set_dmx_holdtime

  set_sacn_universe_0 :
      set_key (codes "sacn_universe_0") (utoa (c.ports port0).universe) (merge w start c)
      ≡ merge (mark w 7) start c
  unfolding set_key streq
  set_sacn_universe_0 =
      ap
        (λ x. record (merge w start c) {
          ports =
              set_port (merge_ports w start c) port0
                (record (merge_ports w start c port0) { universe = x });
        })
        (to_u16-atoi-utoa _ (h.valid.in_range.0 port0).universe)
      ∙ ap (λ f. record (merge w start c) { ports = f })
          (fun_ext (λ q. elim q [ port0 ↦ refl | port1 ↦ refl ]))

  pub restores_sacn_universe_0 :
      load_line (format_key 256 (codes "sacn_universe_0") c) (merge w start c)
      ≡ merge (mark w 7) start c
  restores_sacn_universe_0 =
      ap (λ l. load_line l (merge w start c)) (line_sacn_universe_0 c)
      ∙ reads_sacn_universe_0 (utoa (c.ports port0).universe) (merge w start c) (number-IsValue _)
      ∙ set_sacn_universe_0

  set_sacn_universe_1 :
      set_key (codes "sacn_universe_1") (utoa (c.ports port1).universe) (merge w start c)
      ≡ merge (mark w 8) start c
  unfolding set_key streq
  set_sacn_universe_1 =
      ap
        (λ x. record (merge w start c) {
          ports =
              set_port (merge_ports w start c) port1
                (record (merge_ports w start c port1) { universe = x });
        })
        (to_u16-atoi-utoa _ (h.valid.in_range.0 port1).universe)
      ∙ ap (λ f. record (merge w start c) { ports = f })
          (fun_ext (λ q. elim q [ port0 ↦ refl | port1 ↦ refl ]))

  pub restores_sacn_universe_1 :
      load_line (format_key 256 (codes "sacn_universe_1") c) (merge w start c)
      ≡ merge (mark w 8) start c
  restores_sacn_universe_1 =
      ap (λ l. load_line l (merge w start c)) (line_sacn_universe_1 c)
      ∙ reads_sacn_universe_1 (utoa (c.ports port1).universe) (merge w start c) (number-IsValue _)
      ∙ set_sacn_universe_1

  set_dmx_port0_mode :
      set_key (codes "dmx_port0_mode") (mode_name (c.ports port0).mode) (merge w start c)
      ≡ merge (mark w 9) start c
  unfolding set_key streq
  set_dmx_port0_mode =
      ap
        (λ x. record (merge w start c) {
          ports =
              set_port (merge_ports w start c) port0
                (record (merge_ports w start c port0) { mode = x });
        })
        ((mode-NameBack _ (h.valid.in_range.0 port0).mode).1)
      ∙ ap (λ f. record (merge w start c) { ports = f })
          (fun_ext (λ q. elim q [ port0 ↦ refl | port1 ↦ refl ]))

  pub restores_dmx_port0_mode :
      load_line (format_key 256 (codes "dmx_port0_mode") c) (merge w start c)
      ≡ merge (mark w 9) start c
  restores_dmx_port0_mode =
      ap (λ l. load_line l (merge w start c))
        (line_dmx_port0_mode c ((mode-NameBack _ (h.valid.in_range.0 port0).mode).0))
      ∙ reads_dmx_port0_mode (mode_name (c.ports port0).mode) (merge w start c)
          ((mode-NameBack _ (h.valid.in_range.0 port0).mode).0)
      ∙ set_dmx_port0_mode

  set_dmx_port1_mode :
      set_key (codes "dmx_port1_mode") (mode_name (c.ports port1).mode) (merge w start c)
      ≡ merge (mark w 10) start c
  unfolding set_key streq
  set_dmx_port1_mode =
      ap
        (λ x. record (merge w start c) {
          ports =
              set_port (merge_ports w start c) port1
                (record (merge_ports w start c port1) { mode = x });
        })
        ((mode-NameBack _ (h.valid.in_range.0 port1).mode).1)
      ∙ ap (λ f. record (merge w start c) { ports = f })
          (fun_ext (λ q. elim q [ port0 ↦ refl | port1 ↦ refl ]))

  pub restores_dmx_port1_mode :
      load_line (format_key 256 (codes "dmx_port1_mode") c) (merge w start c)
      ≡ merge (mark w 10) start c
  restores_dmx_port1_mode =
      ap (λ l. load_line l (merge w start c))
        (line_dmx_port1_mode c ((mode-NameBack _ (h.valid.in_range.0 port1).mode).0))
      ∙ reads_dmx_port1_mode (mode_name (c.ports port1).mode) (merge w start c)
          ((mode-NameBack _ (h.valid.in_range.0 port1).mode).0)
      ∙ set_dmx_port1_mode

  set_dmx1_label :
      set_key (codes "dmx1_label") ((c.ports port0).label) (merge w start c)
      ≡ merge (mark w 11) start c
  unfolding set_key streq
  set_dmx1_label =
      ap
        (λ x. record (merge w start c) {
          ports =
              set_port (merge_ports w start c) port0
                (record (merge_ports w start c port0) { label = x });
        })
        (take_length 8 _ (h.valid.in_range.0 port0).label)
      ∙ ap (λ f. record (merge w start c) { ports = f })
          (fun_ext (λ q. elim q [ port0 ↦ refl | port1 ↦ refl ]))

  pub restores_dmx1_label :
      load_line (format_key 256 (codes "dmx1_label") c) (merge w start c)
      ≡ merge (mark w 11) start c
  restores_dmx1_label =
      ap (λ l. load_line l (merge w start c)) (line_dmx1_label c (h.label port0))
      ∙ reads_dmx1_label ((c.ports port0).label) (merge w start c) (h.label port0)
      ∙ set_dmx1_label

  set_dmx2_label :
      set_key (codes "dmx2_label") ((c.ports port1).label) (merge w start c)
      ≡ merge (mark w 12) start c
  unfolding set_key streq
  set_dmx2_label =
      ap
        (λ x. record (merge w start c) {
          ports =
              set_port (merge_ports w start c) port1
                (record (merge_ports w start c port1) { label = x });
        })
        (take_length 8 _ (h.valid.in_range.0 port1).label)
      ∙ ap (λ f. record (merge w start c) { ports = f })
          (fun_ext (λ q. elim q [ port0 ↦ refl | port1 ↦ refl ]))

  pub restores_dmx2_label :
      load_line (format_key 256 (codes "dmx2_label") c) (merge w start c)
      ≡ merge (mark w 12) start c
  restores_dmx2_label =
      ap (λ l. load_line l (merge w start c)) (line_dmx2_label c (h.label port1))
      ∙ reads_dmx2_label ((c.ports port1).label) (merge w start c) (h.label port1)
      ∙ set_dmx2_label

  set_addr_mode :
      set_key (codes "addr_mode") (addr_mode_name c.addr_mode) (merge w start c)
      ≡ merge (mark w 13) start c
  unfolding set_key streq
  set_addr_mode =
      ap (λ x. record (merge w start c) { addr_mode = x })
        ((addr_mode-NameBack c.addr_mode h.addr_mode).1)

  pub restores_addr_mode :
      load_line (format_key 256 (codes "addr_mode") c) (merge w start c) ≡ merge (mark w 13) start c
  restores_addr_mode =
      ap (λ l. load_line l (merge w start c))
        (line_addr_mode c ((addr_mode-NameBack c.addr_mode h.addr_mode).0))
      ∙ reads_addr_mode (addr_mode_name c.addr_mode) (merge w start c)
          ((addr_mode-NameBack c.addr_mode h.addr_mode).0)
      ∙ set_addr_mode

  set_lcd_contrast :
      set_key (codes "lcd_contrast") (utoa c.lcd_contrast) (merge w start c)
      ≡ merge (mark w 14) start c
  unfolding set_key streq
  set_lcd_contrast =
      ap (λ x. record (merge w start c) { lcd_contrast = x })
        (clamp-atoi-utoa c.lcd_contrast 255 h.valid.in_range.4 (omega arith))

  pub restores_lcd_contrast :
      load_line (format_key 256 (codes "lcd_contrast") c) (merge w start c)
      ≡ merge (mark w 14) start c
  restores_lcd_contrast =
      ap (λ l. load_line l (merge w start c)) (line_lcd_contrast c)
      ∙ reads_lcd_contrast (utoa c.lcd_contrast) (merge w start c) (number-IsValue c.lcd_contrast)
      ∙ set_lcd_contrast

  set_lcd_backlight :
      set_key (codes "lcd_backlight") (backlight_name c.lcd_backlight) (merge w start c)
      ≡ merge (mark w 15) start c
  unfolding set_key streq
  set_lcd_backlight =
      ap (λ x. record (merge w start c) { lcd_backlight = x })
        ((backlight-NameBack c.lcd_backlight h.lcd_backlight).1)

  pub restores_lcd_backlight :
      load_line (format_key 256 (codes "lcd_backlight") c) (merge w start c)
      ≡ merge (mark w 15) start c
  restores_lcd_backlight =
      ap (λ l. load_line l (merge w start c))
        (line_lcd_backlight c ((backlight-NameBack c.lcd_backlight h.lcd_backlight).0))
      ∙ reads_lcd_backlight (backlight_name c.lcd_backlight) (merge w start c)
          ((backlight-NameBack c.lcd_backlight h.lcd_backlight).0)
      ∙ set_lcd_backlight

  set_dmx_slot_monitor_0 :
      set_key (codes "dmx_slot_monitor_0") (utoa (c.dmx_slot_monitor port0)) (merge w start c)
      ≡ merge (mark w 16) start c
  unfolding set_key streq
  set_dmx_slot_monitor_0 =
      ap
        (λ x. record (merge w start c) {
          dmx_slot_monitor = set_port (merge_monitor w start c) port0 x;
        })
        (clamp-atoi-utoa _ 512 (h.valid.in_range.5 port0) (omega arith))
      ∙ ap (λ f. record (merge w start c) { dmx_slot_monitor = f })
          (fun_ext (λ q. elim q [ port0 ↦ refl | port1 ↦ refl ]))

  pub restores_dmx_slot_monitor_0 :
      load_line (format_key 256 (codes "dmx_slot_monitor_0") c) (merge w start c)
      ≡ merge (mark w 16) start c
  restores_dmx_slot_monitor_0 =
      ap (λ l. load_line l (merge w start c)) (line_dmx_slot_monitor_0 c)
      ∙ reads_dmx_slot_monitor_0 (utoa (c.dmx_slot_monitor port0)) (merge w start c)
          (number-IsValue _)
      ∙ set_dmx_slot_monitor_0

  set_dmx_slot_monitor_1 :
      set_key (codes "dmx_slot_monitor_1") (utoa (c.dmx_slot_monitor port1)) (merge w start c)
      ≡ merge (mark w 17) start c
  unfolding set_key streq
  set_dmx_slot_monitor_1 =
      ap
        (λ x. record (merge w start c) {
          dmx_slot_monitor = set_port (merge_monitor w start c) port1 x;
        })
        (clamp-atoi-utoa _ 512 (h.valid.in_range.5 port1) (omega arith))
      ∙ ap (λ f. record (merge w start c) { dmx_slot_monitor = f })
          (fun_ext (λ q. elim q [ port0 ↦ refl | port1 ↦ refl ]))

  pub restores_dmx_slot_monitor_1 :
      load_line (format_key 256 (codes "dmx_slot_monitor_1") c) (merge w start c)
      ≡ merge (mark w 17) start c
  restores_dmx_slot_monitor_1 =
      ap (λ l. load_line l (merge w start c)) (line_dmx_slot_monitor_1 c)
      ∙ reads_dmx_slot_monitor_1 (utoa (c.dmx_slot_monitor port1)) (merge w start c)
          (number-IsValue _)
      ∙ set_dmx_slot_monitor_1
