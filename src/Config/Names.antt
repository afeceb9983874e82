-- ===== src/Config/Names.antt =====
-- The names of the values are read back.
use sn.Base.{ℕ, ◌≡◌, refl, ◌||◌, List, codes, if◌then◌else◌}
use sn.Text.{streq}
use sn.Config.Valid.{by_cases}
use sn.Config.Value.{
  parse_mode, parse_protocol, parse_addr_mode, parse_backlight, mode_name, protocol_name,
  addr_mode_name, backlight_name,
}

mode_back : (s : List ℕ) → parse_mode (mode_name (parse_mode s)) ≡ parse_mode s
unfolding parse_mode mode_name streq
mode_back s =
    by_cases (λ m. parse_mode (mode_name m) ≡ m) (streq s (codes "tx") || streq s (codes "TX")) 1
      (if streq s (codes "rx") || streq s (codes "RX")
        then 2
        else (if streq s (codes "off") || streq s (codes "OFF") then 0 else (1)))
      refl
      (by_cases (λ m. parse_mode (mode_name m) ≡ m) (streq s (codes "rx") || streq s (codes "RX")) 2
        (if streq s (codes "off") || streq s (codes "OFF") then 0 else (1)) refl
        (by_cases (λ m. parse_mode (mode_name m) ≡ m)
          (streq s (codes "off") || streq s (codes "OFF")) 0 (1) refl (refl)))

protocol_back : (s : List ℕ) → parse_protocol (protocol_name (parse_protocol s)) ≡ parse_protocol s
unfolding parse_protocol protocol_name streq
protocol_back s =
    by_cases (λ m. parse_protocol (protocol_name m) ≡ m)
      (streq s (codes "sacn") || streq s (codes "sACN")) 1
      (if streq s (codes "artnet") || streq s (codes "Art-Net")
        then 2
        else (if streq s (codes "shownet") || streq s (codes "ShowNet") then 3 else (0)))
      refl
      (by_cases (λ m. parse_protocol (protocol_name m) ≡ m)
        (streq s (codes "artnet") || streq s (codes "Art-Net")) 2
        (if streq s (codes "shownet") || streq s (codes "ShowNet") then 3 else (0)) refl
        (by_cases (λ m. parse_protocol (protocol_name m) ≡ m)
          (streq s (codes "shownet") || streq s (codes "ShowNet")) 3 (0) refl (refl)))

addr_mode_back :
    (s : List ℕ) → parse_addr_mode (addr_mode_name (parse_addr_mode s)) ≡ parse_addr_mode s
unfolding parse_addr_mode addr_mode_name streq
addr_mode_back s =
    by_cases (λ m. parse_addr_mode (addr_mode_name m) ≡ m) (streq s (codes "dhcp")) 1
      (if streq s (codes "static") then 0 else (if streq s (codes "dhcp_static") then 2 else (0)))
      refl
      (by_cases (λ m. parse_addr_mode (addr_mode_name m) ≡ m) (streq s (codes "static")) 0
        (if streq s (codes "dhcp_static") then 2 else (0)) refl
        (by_cases (λ m. parse_addr_mode (addr_mode_name m) ≡ m) (streq s (codes "dhcp_static")) 2
          (0) refl (refl)))

backlight_back :
    (s : List ℕ) → parse_backlight (backlight_name (parse_backlight s)) ≡ parse_backlight s
unfolding parse_backlight backlight_name streq
backlight_back s =
    by_cases (λ m. parse_backlight (backlight_name m) ≡ m) (streq s (codes "off")) 0
      (if streq s (codes "on") then 1 else (if streq s (codes "auto") then 2 else (1))) refl
      (by_cases (λ m. parse_backlight (backlight_name m) ≡ m) (streq s (codes "on")) 1
        (if streq s (codes "auto") then 2 else (1)) refl
        (by_cases (λ m. parse_backlight (backlight_name m) ≡ m) (streq s (codes "auto")) 2 (1) refl
          (refl)))

-- For every string, the name of the value that it was read as is read as the same value, for
-- modes, protocols, address modes and backlight settings.
pub parse-name :
    (s : List ℕ)
    → (parse_mode (mode_name (parse_mode s)) ≡ parse_mode s)
      × (parse_protocol (protocol_name (parse_protocol s)) ≡ parse_protocol s)
      × (parse_addr_mode (addr_mode_name (parse_addr_mode s)) ≡ parse_addr_mode s)
      × (parse_backlight (backlight_name (parse_backlight s)) ≡ parse_backlight s)
parse-name s = (mode_back s, protocol_back s, addr_mode_back s, backlight_back s)
