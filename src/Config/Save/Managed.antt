-- ===== src/Config/Save/Managed.antt =====
-- src/config/config.c: which lines of a file have a managed key, and that every printed one has.
use sn.Base.{
  ap, ◌∙◌, ◌≡◌, refl, ℕ, Bool, true, false, Option, none, some, List, [], ◌∷◌, ◌++◌, codes, length,
  ◌==◌, arith,
}
use sn.Common.{port0, port1, NodeConfig}
use sn.Text.{streq, span_to, skip_blanks, utoa}
use sn.Config.{scan_pair, scan_value, trim, trim_end}
use sn.Config.Value.{mode_name, protocol_name, addr_mode_name, backlight_name, format_ip}
use sn.Config.Save.{managed_keys, format_key, line_key, find_key, is_extension}
use sn.Config.Save.Line.{IsValue, NoBreak, is_break, span-NoBreak}
use sn.Config.Save.Keys.{
  mac_text, mac_text-IsValue, number-IsValue, format_ip-IsValue, mode-NameBack, addr_mode-NameBack,
  backlight-NameBack, protocol-NameBack,
}
use sn.Config.Save.Printed.{
  node_text, line_nodeaddr, line_hostname, line_macaddr, line_netmask, line_gateway, line_protocol,
  line_dmx_holdtime, line_sacn_universe_0, line_sacn_universe_1, line_dmx_port0_mode,
  line_dmx_port1_mode, line_dmx1_label, line_dmx2_label, line_addr_mode, line_lcd_contrast,
  line_lcd_backlight, line_dmx_slot_monitor_0, line_dmx_slot_monitor_1,
}
use sn.Config.Save.Merge.{IsSavable, node_text-IsValue}

abbrev pub key_managed : Option (List ℕ) → Bool
key_managed none = false
key_managed (some k) = is_extension (find_key k 0 managed_keys)

-- Has the line a managed key?
unfoldable pub is_managed : List ℕ → Bool
is_managed line = key_managed (line_key line)

scan_value-some :
    (key v : List ℕ)
    → IsValue v
    → (length key == 0) ≡ false
    → scan_value key (61 ∷ 32 ∷ (v ++ 10 ∷ [])) ≡ some (key, 32 ∷ v)
unfolding scan_value
scan_value-some key v h k =
    let short = h.short in
    let all : span_to is_break 191 (32 ∷ (v ++ 10 ∷ [])) ≡ (32 ∷ v, 10 ∷ []) =
      span-NoBreak 191 (32 ∷ v) (unfold NoBreak in (refl, h.no_break)) (omega arith) in
    let z : (length (32 ∷ v) == 0) ≡ false = ground arith in rw (all, k, z) refl

managed_nodeaddr :
    (v : List ℕ) → IsValue v → is_managed (codes "nodeaddr = " ++ (v ++ 10 ∷ [])) ≡ true
unfolding is_managed line_key scan_pair span_to trim trim_end skip_blanks find_key streq
managed_nodeaddr v h = rw (scan_value-some (codes "nodeaddr ") v h refl) refl

managed_hostname :
    (v : List ℕ) → IsValue v → is_managed (codes "hostname = " ++ (v ++ 10 ∷ [])) ≡ true
unfolding is_managed line_key scan_pair span_to trim trim_end skip_blanks find_key streq
managed_hostname v h = rw (scan_value-some (codes "hostname ") v h refl) refl

managed_macaddr :
    (v : List ℕ) → IsValue v → is_managed (codes "macaddr = " ++ (v ++ 10 ∷ [])) ≡ true
unfolding is_managed line_key scan_pair span_to trim trim_end skip_blanks find_key streq
managed_macaddr v h = rw (scan_value-some (codes "macaddr ") v h refl) refl

managed_netmask :
    (v : List ℕ) → IsValue v → is_managed (codes "netmask = " ++ (v ++ 10 ∷ [])) ≡ true
unfolding is_managed line_key scan_pair span_to trim trim_end skip_blanks find_key streq
managed_netmask v h = rw (scan_value-some (codes "netmask ") v h refl) refl

managed_gateway :
    (v : List ℕ) → IsValue v → is_managed (codes "gateway = " ++ (v ++ 10 ∷ [])) ≡ true
unfolding is_managed line_key scan_pair span_to trim trim_end skip_blanks find_key streq
managed_gateway v h = rw (scan_value-some (codes "gateway ") v h refl) refl

managed_protocol :
    (v : List ℕ) → IsValue v → is_managed (codes "protocol = " ++ (v ++ 10 ∷ [])) ≡ true
unfolding is_managed line_key scan_pair span_to trim trim_end skip_blanks find_key streq
managed_protocol v h = rw (scan_value-some (codes "protocol ") v h refl) refl

managed_dmx_holdtime :
    (v : List ℕ) → IsValue v → is_managed (codes "dmx_holdtime = " ++ (v ++ 10 ∷ [])) ≡ true
unfolding is_managed line_key scan_pair span_to trim trim_end skip_blanks find_key streq
managed_dmx_holdtime v h = rw (scan_value-some (codes "dmx_holdtime ") v h refl) refl

managed_sacn_universe_0 :
    (v : List ℕ) → IsValue v → is_managed (codes "sacn_universe_0 = " ++ (v ++ 10 ∷ [])) ≡ true
unfolding is_managed line_key scan_pair span_to trim trim_end skip_blanks find_key streq
managed_sacn_universe_0 v h = rw (scan_value-some (codes "sacn_universe_0 ") v h refl) refl

managed_sacn_universe_1 :
    (v : List ℕ) → IsValue v → is_managed (codes "sacn_universe_1 = " ++ (v ++ 10 ∷ [])) ≡ true
unfolding is_managed line_key scan_pair span_to trim trim_end skip_blanks find_key streq
managed_sacn_universe_1 v h = rw (scan_value-some (codes "sacn_universe_1 ") v h refl) refl

managed_dmx_port0_mode :
    (v : List ℕ) → IsValue v → is_managed (codes "dmx_port0_mode = " ++ (v ++ 10 ∷ [])) ≡ true
unfolding is_managed line_key scan_pair span_to trim trim_end skip_blanks find_key streq
managed_dmx_port0_mode v h = rw (scan_value-some (codes "dmx_port0_mode ") v h refl) refl

managed_dmx_port1_mode :
    (v : List ℕ) → IsValue v → is_managed (codes "dmx_port1_mode = " ++ (v ++ 10 ∷ [])) ≡ true
unfolding is_managed line_key scan_pair span_to trim trim_end skip_blanks find_key streq
managed_dmx_port1_mode v h = rw (scan_value-some (codes "dmx_port1_mode ") v h refl) refl

managed_dmx1_label :
    (v : List ℕ) → IsValue v → is_managed (codes "dmx1_label = " ++ (v ++ 10 ∷ [])) ≡ true
unfolding is_managed line_key scan_pair span_to trim trim_end skip_blanks find_key streq
managed_dmx1_label v h = rw (scan_value-some (codes "dmx1_label ") v h refl) refl

managed_dmx2_label :
    (v : List ℕ) → IsValue v → is_managed (codes "dmx2_label = " ++ (v ++ 10 ∷ [])) ≡ true
unfolding is_managed line_key scan_pair span_to trim trim_end skip_blanks find_key streq
managed_dmx2_label v h = rw (scan_value-some (codes "dmx2_label ") v h refl) refl

managed_addr_mode :
    (v : List ℕ) → IsValue v → is_managed (codes "addr_mode = " ++ (v ++ 10 ∷ [])) ≡ true
unfolding is_managed line_key scan_pair span_to trim trim_end skip_blanks find_key streq
managed_addr_mode v h = rw (scan_value-some (codes "addr_mode ") v h refl) refl

managed_lcd_contrast :
    (v : List ℕ) → IsValue v → is_managed (codes "lcd_contrast = " ++ (v ++ 10 ∷ [])) ≡ true
unfolding is_managed line_key scan_pair span_to trim trim_end skip_blanks find_key streq
managed_lcd_contrast v h = rw (scan_value-some (codes "lcd_contrast ") v h refl) refl

managed_lcd_backlight :
    (v : List ℕ) → IsValue v → is_managed (codes "lcd_backlight = " ++ (v ++ 10 ∷ [])) ≡ true
unfolding is_managed line_key scan_pair span_to trim trim_end skip_blanks find_key streq
managed_lcd_backlight v h = rw (scan_value-some (codes "lcd_backlight ") v h refl) refl

managed_dmx_slot_monitor_0 :
    (v : List ℕ) → IsValue v → is_managed (codes "dmx_slot_monitor_0 = " ++ (v ++ 10 ∷ [])) ≡ true
unfolding is_managed line_key scan_pair span_to trim trim_end skip_blanks find_key streq
managed_dmx_slot_monitor_0 v h = rw (scan_value-some (codes "dmx_slot_monitor_0 ") v h refl) refl

managed_dmx_slot_monitor_1 :
    (v : List ℕ) → IsValue v → is_managed (codes "dmx_slot_monitor_1 = " ++ (v ++ 10 ∷ [])) ≡ true
unfolding is_managed line_key scan_pair span_to trim trim_end skip_blanks find_key streq
managed_dmx_slot_monitor_1 v h = rw (scan_value-some (codes "dmx_slot_monitor_1 ") v h refl) refl

-- Every line that `format_key` prints has a managed key.
abbrev pub AllManaged : NodeConfig → List (List ℕ) → Type 0
AllManaged c [] = Unit
AllManaged c (k ∷ ks) = (is_managed (format_key 256 k c) ≡ true) × AllManaged c ks

pub managed_keys-AllManaged : (c : NodeConfig) → IsSavable c → AllManaged c managed_keys
managed_keys-AllManaged c h = (
  ap is_managed (line_nodeaddr c) ∙ managed_nodeaddr (node_text c) (node_text-IsValue c),
  (
    ap is_managed (line_hostname c (h.hostname)) ∙ managed_hostname (c.hostname) (h.hostname),
    (
      ap is_managed (line_macaddr c h.mac)
          ∙ managed_macaddr (mac_text c.mac) (mac_text-IsValue c.mac),
      (
        ap is_managed (line_netmask c)
            ∙ managed_netmask (format_ip c.netmask) (format_ip-IsValue c.netmask),
        (
          ap is_managed (line_gateway c)
              ∙ managed_gateway (format_ip c.gateway) (format_ip-IsValue c.gateway),
          (
            ap is_managed
                  (line_protocol c ((protocol-NameBack c.active_protocol h.valid.in_range.2).0))
                ∙ managed_protocol (protocol_name c.active_protocol)
                    ((protocol-NameBack c.active_protocol h.valid.in_range.2).0),
            (
              ap is_managed (line_dmx_holdtime c)
                  ∙ managed_dmx_holdtime (utoa c.dmx_hold_time) (number-IsValue _),
              (
                ap is_managed (line_sacn_universe_0 c)
                    ∙ managed_sacn_universe_0 (utoa (c.ports port0).universe) (number-IsValue _),
                (
                  ap is_managed (line_sacn_universe_1 c)
                      ∙ managed_sacn_universe_1 (utoa (c.ports port1).universe) (number-IsValue _),
                  (
                    ap is_managed (
                          line_dmx_port0_mode c
                            ((mode-NameBack _ (h.valid.in_range.0 port0).mode).0))
                        ∙ managed_dmx_port0_mode (mode_name (c.ports port0).mode)
                            ((mode-NameBack _ (h.valid.in_range.0 port0).mode).0),
                    (
                      ap is_managed (
                            line_dmx_port1_mode c
                              ((mode-NameBack _ (h.valid.in_range.0 port1).mode).0))
                          ∙ managed_dmx_port1_mode (mode_name (c.ports port1).mode)
                              ((mode-NameBack _ (h.valid.in_range.0 port1).mode).0),
                      (
                        ap is_managed (line_dmx1_label c (h.label port0))
                            ∙ managed_dmx1_label ((c.ports port0).label) (h.label port0),
                        (
                          ap is_managed (line_dmx2_label c (h.label port1))
                              ∙ managed_dmx2_label ((c.ports port1).label) (h.label port1),
                          (
                            ap is_managed (
                                  line_addr_mode c ((addr_mode-NameBack c.addr_mode h.addr_mode).0))
                                ∙ managed_addr_mode (addr_mode_name c.addr_mode)
                                    ((addr_mode-NameBack c.addr_mode h.addr_mode).0),
                            (
                              ap is_managed (line_lcd_contrast c)
                                  ∙ managed_lcd_contrast (utoa c.lcd_contrast) (number-IsValue _),
                              (
                                ap is_managed (
                                      line_lcd_backlight c
                                        ((backlight-NameBack c.lcd_backlight h.lcd_backlight).0))
                                    ∙ managed_lcd_backlight (backlight_name c.lcd_backlight)
                                        ((backlight-NameBack c.lcd_backlight h.lcd_backlight).0),
                                (
                                  ap is_managed (line_dmx_slot_monitor_0 c)
                                      ∙ managed_dmx_slot_monitor_0 (utoa (c.dmx_slot_monitor port0))
                                          (number-IsValue _),
                                  (
                                    ap is_managed (line_dmx_slot_monitor_1 c)
                                        ∙ managed_dmx_slot_monitor_1
                                            (utoa (c.dmx_slot_monitor port1)) (number-IsValue _),
                                    tt,
                                  ),
                                ),
                              ),
                            ),
                          ),
                        ),
                      ),
                    ),
                  ),
                ),
              ),
            ),
          ),
        ),
      ),
    ),
  ),
)
