-- ===== src/Config/Save/Reads.antt =====
-- src/config/config.c: how `load_line` takes a line of each managed key apart.
use sn.Base.{ℕ, ◌≡◌, refl, List, [], ◌∷◌, ◌++◌, codes}
use sn.Common.{NodeConfig}
use sn.Text.{span_to, skip_blanks}
use sn.Config.{set_key, load_line, scan_pair, trim, trim_end}
use sn.Config.Save.Line.{IsValue, load_pair}

module _ (v : List ℕ) (st : NodeConfig) (h : IsValue v) where
  pub reads_nodeaddr :
      load_line (codes "nodeaddr = " ++ (v ++ 10 ∷ [])) st ≡ set_key (codes "nodeaddr") v st
  unfolding load_line scan_pair span_to trim trim_end skip_blanks
  reads_nodeaddr = load_pair (codes "nodeaddr ") v st h refl

  pub reads_hostname :
      load_line (codes "hostname = " ++ (v ++ 10 ∷ [])) st ≡ set_key (codes "hostname") v st
  unfolding load_line scan_pair span_to trim trim_end skip_blanks
  reads_hostname = load_pair (codes "hostname ") v st h refl

  pub reads_macaddr :
      load_line (codes "macaddr = " ++ (v ++ 10 ∷ [])) st ≡ set_key (codes "macaddr") v st
  unfolding load_line scan_pair span_to trim trim_end skip_blanks
  reads_macaddr = load_pair (codes "macaddr ") v st h refl

  pub reads_netmask :
      load_line (codes "netmask = " ++ (v ++ 10 ∷ [])) st ≡ set_key (codes "netmask") v st
  unfolding load_line scan_pair span_to trim trim_end skip_blanks
  reads_netmask = load_pair (codes "netmask ") v st h refl

  pub reads_gateway :
      load_line (codes "gateway = " ++ (v ++ 10 ∷ [])) st ≡ set_key (codes "gateway") v st
  unfolding load_line scan_pair span_to trim trim_end skip_blanks
  reads_gateway = load_pair (codes "gateway ") v st h refl

  pub reads_protocol :
      load_line (codes "protocol = " ++ (v ++ 10 ∷ [])) st ≡ set_key (codes "protocol") v st
  unfolding load_line scan_pair span_to trim trim_end skip_blanks
  reads_protocol = load_pair (codes "protocol ") v st h refl

  pub reads_dmx_holdtime :
      load_line (codes "dmx_holdtime = " ++ (v ++ 10 ∷ [])) st ≡ set_key (codes "dmx_holdtime") v st
  unfolding load_line scan_pair span_to trim trim_end skip_blanks
  reads_dmx_holdtime = load_pair (codes "dmx_holdtime ") v st h refl

  pub reads_sacn_universe_0 :
      load_line (codes "sacn_universe_0 = " ++ (v ++ 10 ∷ [])) st
      ≡ set_key (codes "sacn_universe_0") v st
  unfolding load_line scan_pair span_to trim trim_end skip_blanks
  reads_sacn_universe_0 = load_pair (codes "sacn_universe_0 ") v st h refl

  pub reads_sacn_universe_1 :
      load_line (codes "sacn_universe_1 = " ++ (v ++ 10 ∷ [])) st
      ≡ set_key (codes "sacn_universe_1") v st
  unfolding load_line scan_pair span_to trim trim_end skip_blanks
  reads_sacn_universe_1 = load_pair (codes "sacn_universe_1 ") v st h refl

  pub reads_dmx_port0_mode :
      load_line (codes "dmx_port0_mode = " ++ (v ++ 10 ∷ [])) st
      ≡ set_key (codes "dmx_port0_mode") v st
  unfolding load_line scan_pair span_to trim trim_end skip_blanks
  reads_dmx_port0_mode = load_pair (codes "dmx_port0_mode ") v st h refl

  pub reads_dmx_port1_mode :
      load_line (codes "dmx_port1_mode = " ++ (v ++ 10 ∷ [])) st
      ≡ set_key (codes "dmx_port1_mode") v st
  unfolding load_line scan_pair span_to trim trim_end skip_blanks
  reads_dmx_port1_mode = load_pair (codes "dmx_port1_mode ") v st h refl

  pub reads_dmx1_label :
      load_line (codes "dmx1_label = " ++ (v ++ 10 ∷ [])) st ≡ set_key (codes "dmx1_label") v st
  unfolding load_line scan_pair span_to trim trim_end skip_blanks
  reads_dmx1_label = load_pair (codes "dmx1_label ") v st h refl

  pub reads_dmx2_label :
      load_line (codes "dmx2_label = " ++ (v ++ 10 ∷ [])) st ≡ set_key (codes "dmx2_label") v st
  unfolding load_line scan_pair span_to trim trim_end skip_blanks
  reads_dmx2_label = load_pair (codes "dmx2_label ") v st h refl

  pub reads_addr_mode :
      load_line (codes "addr_mode = " ++ (v ++ 10 ∷ [])) st ≡ set_key (codes "addr_mode") v st
  unfolding load_line scan_pair span_to trim trim_end skip_blanks
  reads_addr_mode = load_pair (codes "addr_mode ") v st h refl

  pub reads_lcd_contrast :
      load_line (codes "lcd_contrast = " ++ (v ++ 10 ∷ [])) st ≡ set_key (codes "lcd_contrast") v st
  unfolding load_line scan_pair span_to trim trim_end skip_blanks
  reads_lcd_contrast = load_pair (codes "lcd_contrast ") v st h refl

  pub reads_lcd_backlight :
      load_line (codes "lcd_backlight = " ++ (v ++ 10 ∷ [])) st
      ≡ set_key (codes "lcd_backlight") v st
  unfolding load_line scan_pair span_to trim trim_end skip_blanks
  reads_lcd_backlight = load_pair (codes "lcd_backlight ") v st h refl

  pub reads_dmx_slot_monitor_0 :
      load_line (codes "dmx_slot_monitor_0 = " ++ (v ++ 10 ∷ [])) st
      ≡ set_key (codes "dmx_slot_monitor_0") v st
  unfolding load_line scan_pair span_to trim trim_end skip_blanks
  reads_dmx_slot_monitor_0 = load_pair (codes "dmx_slot_monitor_0 ") v st h refl

  pub reads_dmx_slot_monitor_1 :
      load_line (codes "dmx_slot_monitor_1 = " ++ (v ++ 10 ∷ [])) st
      ≡ set_key (codes "dmx_slot_monitor_1") v st
  unfolding load_line scan_pair span_to trim trim_end skip_blanks
  reads_dmx_slot_monitor_1 = load_pair (codes "dmx_slot_monitor_1 ") v st h refl
