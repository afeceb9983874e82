-- ===== src/Config/Save/Printed.antt =====
-- src/config/config.c: the lines of `format_key`, as a key and a value.
use sn.Base.{
  append_assoc, ap, ◌∙◌, ◌≡◌, refl, ◌≤◌, ℕ, ◌/◌, ◌%◌, ◌^◌, false, ◌||◌, List, [], ◌∷◌, ◌++◌, codes,
  take, take_length, length, length-append, ◌==◌, if◌then◌else◌, Bool-cases, inl, inr, IsBytes,
  arith,
}
use sn.Common.{port0, port1, NodeConfig}
use sn.Text.{streq, utoa}
use sn.Text.Format.{format, conversion, convert, padded}
use sn.Config.Value.{mode_name, protocol_name, addr_mode_name, backlight_name, format_ip}
use sn.Config.Save.{format_key}
use sn.Config.Save.Line.{IsValue, padded_none}
use sn.Config.Save.Keys.{number-IsValue, format_ip-IsValue, mac_text, padded-hex2}

-- A line is not cut.
pub uncut :
    (p v : List ℕ)
    → length p ≤ 40
    → IsValue v
    → take 255 (p ++ (v ++ 10 ∷ [])) ≡ p ++ (v ++ 10 ∷ [])
uncut p v h k =
    let short = k.short in
    take_length 255 _ (omega (arith, length-append p (v ++ 10 ∷ []), length-append v (10 ∷ [])))

-- Four numbers with dots, as the format prints them.
dots :
    (ip : ℕ)
    → padded false 0 (utoa (ip / 2 ^ 24 % 256))
        ++ (46
            ∷ (padded false 0 (utoa (ip / 2 ^ 16 % 256))
                ++ (46
                    ∷ (padded false 0 (utoa (ip / 2 ^ 8 % 256))
                        ++ (46 ∷ (padded false 0 (utoa (ip % 256)) ++ (10 ∷ [])))))))
      ≡ format_ip ip ++ 10 ∷ []
unfolding format_ip
dots ip =
    let end : List ℕ = 10 ∷ [] in
    rw
      (
        padded_none false (utoa (ip / 2 ^ 24 % 256)),
        padded_none false (utoa (ip / 2 ^ 16 % 256)),
        padded_none false (utoa (ip / 2 ^ 8 % 256)),
        padded_none false (utoa (ip % 256)),
        append_assoc (utoa (ip / 2 ^ 24 % 256))
            (46
              ∷ (utoa (ip / 2 ^ 16 % 256)
                  ++ (46 ∷ (utoa (ip / 2 ^ 8 % 256) ++ (46 ∷ utoa (ip % 256))))))
            end,
        append_assoc (utoa (ip / 2 ^ 16 % 256))
            (46 ∷ (utoa (ip / 2 ^ 8 % 256) ++ (46 ∷ utoa (ip % 256)))) end,
        append_assoc (utoa (ip / 2 ^ 8 % 256)) (46 ∷ utoa (ip % 256)) end,
      )
      refl

-- The value of `nodeaddr`.
abbrev pub node_text : NodeConfig → List ℕ
node_text c = if c.addr_mode == 1 || c.ip_addr == 0 then codes "0" else format_ip c.ip_addr

module _ (c : NodeConfig) where
  pub line_nodeaddr :
      format_key 256 (codes "nodeaddr") c ≡ codes "nodeaddr = " ++ ((node_text c) ++ 10 ∷ [])
  unfolding format_key streq format conversion convert
  line_nodeaddr = elim (Bool-cases (c.addr_mode == 1 || c.ip_addr == 0)) [
    | inl z ↦ rw z refl
    | inr z ↦ rw z (
        ap (λ d. take 255 ((codes "nodeaddr = ") ++ d)) (dots c.ip_addr)
        ∙ uncut (codes "nodeaddr = ") (format_ip c.ip_addr) (omega arith)
            (format_ip-IsValue c.ip_addr))
  ]

  pub line_hostname :
      (h : IsValue (c.hostname))
      → format_key 256 (codes "hostname") c ≡ codes "hostname = " ++ ((c.hostname) ++ 10 ∷ [])
  unfolding format_key streq format conversion convert
  line_hostname h = uncut (codes "hostname = ") (c.hostname) (omega arith) h

  pub line_macaddr :
      (h : IsBytes 6 c.mac)
      → format_key 256 (codes "macaddr") c ≡ codes "macaddr = " ++ ((mac_text c.mac) ++ 10 ∷ [])
  unfolding format_key streq format conversion convert
  line_macaddr h =
      rw
        (
          padded-hex2 (c.mac 0) (h 0 (omega arith)),
          padded-hex2 (c.mac 1) (h 1 (omega arith)),
          padded-hex2 (c.mac 2) (h 2 (omega arith)),
          padded-hex2 (c.mac 3) (h 3 (omega arith)),
          padded-hex2 (c.mac 4) (h 4 (omega arith)),
          padded-hex2 (c.mac 5) (h 5 (omega arith)),
        )
        refl

  pub line_netmask :
      format_key 256 (codes "netmask") c ≡ codes "netmask = " ++ ((format_ip c.netmask) ++ 10 ∷ [])
  unfolding format_key streq format conversion convert
  line_netmask =
      ap (λ d. take 255 ((codes "netmask = ") ++ d)) (dots c.netmask)
      ∙ uncut (codes "netmask = ") (format_ip c.netmask) (omega arith) (format_ip-IsValue c.netmask)

  pub line_gateway :
      format_key 256 (codes "gateway") c ≡ codes "gateway = " ++ ((format_ip c.gateway) ++ 10 ∷ [])
  unfolding format_key streq format conversion convert
  line_gateway =
      ap (λ d. take 255 ((codes "gateway = ") ++ d)) (dots c.gateway)
      ∙ uncut (codes "gateway = ") (format_ip c.gateway) (omega arith) (format_ip-IsValue c.gateway)

  pub line_protocol :
      (h : IsValue (protocol_name c.active_protocol))
      → format_key 256 (codes "protocol") c
        ≡ codes "protocol = " ++ ((protocol_name c.active_protocol) ++ 10 ∷ [])
  unfolding format_key streq format conversion convert
  line_protocol h = uncut (codes "protocol = ") (protocol_name c.active_protocol) (omega arith) h

  pub line_dmx_holdtime :
      format_key 256 (codes "dmx_holdtime") c
      ≡ codes "dmx_holdtime = " ++ ((utoa c.dmx_hold_time) ++ 10 ∷ [])
  unfolding format_key streq format conversion convert
  line_dmx_holdtime =
      ap (λ d. take 255 ((codes "dmx_holdtime = ") ++ (d ++ 10 ∷ [])))
        (padded_none false (utoa c.dmx_hold_time))
      ∙ uncut (codes "dmx_holdtime = ") (utoa c.dmx_hold_time) (omega arith)
          (number-IsValue c.dmx_hold_time)

  pub line_sacn_universe_0 :
      format_key 256 (codes "sacn_universe_0") c
      ≡ codes "sacn_universe_0 = " ++ ((utoa (c.ports port0).universe) ++ 10 ∷ [])
  unfolding format_key streq format conversion convert
  line_sacn_universe_0 =
      ap (λ d. take 255 ((codes "sacn_universe_0 = ") ++ (d ++ 10 ∷ [])))
        (padded_none false (utoa (c.ports port0).universe))
      ∙ uncut (codes "sacn_universe_0 = ") (utoa (c.ports port0).universe) (omega arith)
          (number-IsValue (c.ports port0).universe)

  pub line_sacn_universe_1 :
      format_key 256 (codes "sacn_universe_1") c
      ≡ codes "sacn_universe_1 = " ++ ((utoa (c.ports port1).universe) ++ 10 ∷ [])
  unfolding format_key streq format conversion convert
  line_sacn_universe_1 =
      ap (λ d. take 255 ((codes "sacn_universe_1 = ") ++ (d ++ 10 ∷ [])))
        (padded_none false (utoa (c.ports port1).universe))
      ∙ uncut (codes "sacn_universe_1 = ") (utoa (c.ports port1).universe) (omega arith)
          (number-IsValue (c.ports port1).universe)

  pub line_dmx_port0_mode :
      (h : IsValue (mode_name (c.ports port0).mode))
      → format_key 256 (codes "dmx_port0_mode") c
        ≡ codes "dmx_port0_mode = " ++ ((mode_name (c.ports port0).mode) ++ 10 ∷ [])
  unfolding format_key streq format conversion convert
  line_dmx_port0_mode h =
      uncut (codes "dmx_port0_mode = ") (mode_name (c.ports port0).mode) (omega arith) h

  pub line_dmx_port1_mode :
      (h : IsValue (mode_name (c.ports port1).mode))
      → format_key 256 (codes "dmx_port1_mode") c
        ≡ codes "dmx_port1_mode = " ++ ((mode_name (c.ports port1).mode) ++ 10 ∷ [])
  unfolding format_key streq format conversion convert
  line_dmx_port1_mode h =
      uncut (codes "dmx_port1_mode = ") (mode_name (c.ports port1).mode) (omega arith) h

  pub line_dmx1_label :
      (h : IsValue ((c.ports port0).label))
      → format_key 256 (codes "dmx1_label") c
        ≡ codes "dmx1_label = " ++ (((c.ports port0).label) ++ 10 ∷ [])
  unfolding format_key streq format conversion convert
  line_dmx1_label h = uncut (codes "dmx1_label = ") ((c.ports port0).label) (omega arith) h

  pub line_dmx2_label :
      (h : IsValue ((c.ports port1).label))
      → format_key 256 (codes "dmx2_label") c
        ≡ codes "dmx2_label = " ++ (((c.ports port1).label) ++ 10 ∷ [])
  unfolding format_key streq format conversion convert
  line_dmx2_label h = uncut (codes "dmx2_label = ") ((c.ports port1).label) (omega arith) h

  pub line_addr_mode :
      (h : IsValue (addr_mode_name c.addr_mode))
      → format_key 256 (codes "addr_mode") c
        ≡ codes "addr_mode = " ++ ((addr_mode_name c.addr_mode) ++ 10 ∷ [])
  unfolding format_key streq format conversion convert
  line_addr_mode h = uncut (codes "addr_mode = ") (addr_mode_name c.addr_mode) (omega arith) h

  pub line_lcd_contrast :
      format_key 256 (codes "lcd_contrast") c
      ≡ codes "lcd_contrast = " ++ ((utoa c.lcd_contrast) ++ 10 ∷ [])
  unfolding format_key streq format conversion convert
  line_lcd_contrast =
      ap (λ d. take 255 ((codes "lcd_contrast = ") ++ (d ++ 10 ∷ [])))
        (padded_none false (utoa c.lcd_contrast))
      ∙ uncut (codes "lcd_contrast = ") (utoa c.lcd_contrast) (omega arith)
          (number-IsValue c.lcd_contrast)

  pub line_lcd_backlight :
      (h : IsValue (backlight_name c.lcd_backlight))
      → format_key 256 (codes "lcd_backlight") c
        ≡ codes "lcd_backlight = " ++ ((backlight_name c.lcd_backlight) ++ 10 ∷ [])
  unfolding format_key streq format conversion convert
  line_lcd_backlight h =
      uncut (codes "lcd_backlight = ") (backlight_name c.lcd_backlight) (omega arith) h

  pub line_dmx_slot_monitor_0 :
      format_key 256 (codes "dmx_slot_monitor_0") c
      ≡ codes "dmx_slot_monitor_0 = " ++ ((utoa (c.dmx_slot_monitor port0)) ++ 10 ∷ [])
  unfolding format_key streq format conversion convert
  line_dmx_slot_monitor_0 =
      ap (λ d. take 255 ((codes "dmx_slot_monitor_0 = ") ++ (d ++ 10 ∷ [])))
        (padded_none false (utoa (c.dmx_slot_monitor port0)))
      ∙ uncut (codes "dmx_slot_monitor_0 = ") (utoa (c.dmx_slot_monitor port0)) (omega arith)
          (number-IsValue (c.dmx_slot_monitor port0))

  pub line_dmx_slot_monitor_1 :
      format_key 256 (codes "dmx_slot_monitor_1") c
      ≡ codes "dmx_slot_monitor_1 = " ++ ((utoa (c.dmx_slot_monitor port1)) ++ 10 ∷ [])
  unfolding format_key streq format conversion convert
  line_dmx_slot_monitor_1 =
      ap (λ d. take 255 ((codes "dmx_slot_monitor_1 = ") ++ (d ++ 10 ∷ [])))
        (padded_none false (utoa (c.dmx_slot_monitor port1)))
      ∙ uncut (codes "dmx_slot_monitor_1 = ") (utoa (c.dmx_slot_monitor port1)) (omega arith)
          (number-IsValue (c.dmx_slot_monitor port1))
