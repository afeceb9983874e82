-- ===== src/Config/Save/Tests.antt =====
-- Runs of the saving of a configuration, and the theorems about it at concrete files.
use sn.Base.{ℕ, ◌≡◌, refl, some, true, List, [], codes, success, arith}
use sn.Common.{Port, port0, port1, NodeConfig}
use sn.Text.{streq, skip_blanks}
use sn.Config.{config_load, config_defaults, trim, trim_end}
use sn.Config.Valid.{IsValidPort}
use sn.Config.Save.{config_save}
use sn.Config.Save.Line.{IsValue, HasNoNul, NoBreak}
use sn.Config.Save.Chunks.{Whole}
use sn.Config.Save.Preserves.{unmanaged_text, config_save-unmanaged}
use sn.Config.Save.Merge.{IsSavable}
use sn.Config.Save.RoundTrip.{Restored, IsWholeFile, config_load-config_save}

abbrev device : NodeConfig
device = record config_defaults {
  hostname = codes "FOH rack";
  ip_addr = 0xC0A80047;
  netmask = 0xFFFFFF00;
  addr_mode = 0;
  dmx_hold_time = 30;
}

abbrev old_file : List ℕ
old_file = codes "# node\nfoo = 1\nhostname = x\n"

label-IsValue : IsValue []
unfolding NoBreak trim trim_end skip_blanks
label-IsValue = record { no_break = tt; trimmed = refl; short = omega arith }

hostname-IsValue : IsValue (codes "FOH rack")
unfolding NoBreak trim trim_end skip_blanks
hostname-IsValue = record {
  no_break = (refl, (refl, (refl, (refl, (refl, (refl, (refl, (refl, tt))))))));
  trimmed = refl;
  short = omega arith;
}

ports-IsValidPort : (p : Port) → IsValidPort (device.ports p)
unfolding config_defaults
ports-IsValidPort port0 = record { universe = omega arith; mode = omega arith; label = omega arith }
ports-IsValidPort port1 = record { universe = omega arith; mode = omega arith; label = omega arith }

labels-IsValue : (p : Port) → IsValue (device.ports p).label
unfolding config_defaults
labels-IsValue port0 = label-IsValue
labels-IsValue port1 = label-IsValue

labels-HasNoNul : (p : Port) → HasNoNul (device.ports p).label
unfolding config_defaults
labels-HasNoNul port0 = tt
labels-HasNoNul port1 = tt

device-IsSavable : IsSavable device
unfolding config_defaults
device-IsSavable = record {
  valid = record {
    in_range =
        (ports-IsValidPort, omega arith, omega arith, omega arith, omega arith, (λ _. omega arith));
  };
  hostname = hostname-IsValue;
  label = labels-IsValue;
  no_nul = (omega arith, labels-HasNoNul);
  ip_addr = omega arith;
  netmask = omega arith;
  gateway = omega arith;
  mac = λ _ _. omega arith;
  addr_mode = omega arith;
  lcd_backlight = omega arith;
  dhcp = λ h. absurd (cc h);
}

old_file-IsWholeFile : IsWholeFile (some old_file)
unfolding Whole
old_file-IsWholeFile = (refl, omega arith, omega arith)

config_load-config_save_example :
    (saved : List ℕ) × (config_save device (some old_file) true ≡ (success, some saved))
    × ((config_load (some saved)).0 ≡ success)
    × Restored device (config_load (some saved)).1
config_load-config_save_example =
    config_load-config_save device (some old_file) device-IsSavable old_file-IsWholeFile

abbrev saved_file : List ℕ
saved_file =
    codes
      "# node\nfoo = 1\nhostname = FOH rack\nnodeaddr = 192.168.0.71\nmacaddr = 00:00:00:00:00:00\nnetmask = 255.255.255.0\ngateway = 0.0.0.0\nprotocol = sacn\ndmx_holdtime = 30\nsacn_universe_0 = 1\nsacn_universe_1 = 2\ndmx_port0_mode = tx\ndmx_port1_mode = tx\ndmx1_label = \ndmx2_label = \naddr_mode = static\nlcd_contrast = 128\nlcd_backlight = on\ndmx_slot_monitor_0 = 0\ndmx_slot_monitor_1 = 0\n"

saves_file : config_save device (some old_file) true ≡ (success, some saved_file)
unfolding config_save sn.Config.Save.config_save_internal sn.Config.Save.saved_text
    sn.Config.Save.until_nul sn.Config.Save.save_lines sn.Config.Save.save_line
    sn.Config.Save.line_key sn.Config.Save.line_length sn.Config.Save.strchr sn.Config.scan_pair
    sn.Config.scan_value sn.Text.span_to sn.Config.Save.find_key streq trim trim_end skip_blanks
    sn.Config.Save.format_key sn.Text.Format.format sn.Config.Save.append_missing
    sn.Config.Value.addr_mode_name sn.Config.Value.backlight_name sn.Config.Value.mode_name
    sn.Config.Value.protocol_name sn.Text.Format.conversion sn.Text.Format.convert
    sn.Text.Format.hex_digits sn.Text.Format.padded sn.Text.Format.utoa_hex sn.Text.utoa
    sn.Text.utoa_loop config_defaults
saves_file = refl

config_save-unmanaged_example :
    (saved : List ℕ) × (config_save device (some old_file) true ≡ (success, some saved))
    × (unmanaged_text saved ≡ unmanaged_text old_file)
config_save-unmanaged_example =
    config_save-unmanaged device old_file device-IsSavable old_file-IsWholeFile.0
      old_file-IsWholeFile.1 old_file-IsWholeFile.2
