-- ===== src/Config/Value.antt =====
-- src/config/config.c: the parsers and the names of the values.
use sn.Base.{
  ℕ, ◌+◌, ◌-◌, ◌*◌, ◌/◌, ◌%◌, ◌^◌, zero, suc, ◌&&◌, ◌||◌, Option, none, some, List, [], ◌∷◌, ◌++◌,
  Array, stored, codes, ltb, leb, ◌==◌, if◌then◌else◌, ◌>>=◌, ℤ, success, failure,
}
use sn.Common.{
  addr_mode_static, addr_mode_dhcp, addr_mode_dhcp_static, lcd_backlight_off, lcd_backlight_on,
  lcd_backlight_auto, proto_none, proto_sacn, proto_artnet, proto_shownet, dmx_mode_off,
  dmx_mode_tx, dmx_mode_rx,
}
use sn.Text.{streq, scan_u, expect, utoa}

-- `sscanf(str, "%u.%u.%u.%u", &a, &b, &c, &d) == 4`; what follows is ignored.
unfoldable pub scan_ip : List ℕ → Option (ℕ × ℕ × ℕ × ℕ)
scan_ip s = do
  (a, s₁) ← scan_u s
  s₂ ← expect 46 s₁
  (b, s₃) ← scan_u s₂
  s₄ ← expect 46 s₃
  (c, s₅) ← scan_u s₄
  s₆ ← expect 46 s₅
  (d, _) ← scan_u s₆
  some (a, b, c, d)

-- The address of four numbers; the shifted bytes share no bit.
unfoldable pub join_ip : Option (ℕ × ℕ × ℕ × ℕ) → ℕ
join_ip none = 0
join_ip (some (a, b, c, d)) =
    if ltb 255 a || ltb 255 b || ltb 255 c || ltb 255 d
    then 0
    else a * 2 ^ 24 + b * 2 ^ 16 + c * 2 ^ 8 + d

unfoldable pub parse_ip : List ℕ → ℕ
parse_ip s = join_ip (scan_ip s)

-- An address as `format_key` prints it, with "%u.%u.%u.%u".
unfoldable pub format_ip : ℕ → List ℕ
format_ip ip =
    utoa (ip / 2 ^ 24 % 256)
    ++ (46
        ∷ (utoa (ip / 2 ^ 16 % 256) ++ (46 ∷ (utoa (ip / 2 ^ 8 % 256) ++ (46 ∷ utoa (ip % 256))))))

-- The value of a hexadecimal digit.
unfoldable pub hex_digit : ℕ → Option ℕ
hex_digit c =
    if leb 48 c && leb c 57
    then some (c - 48)
    else if leb 97 c && leb c 102
    then some (c - 97 + 10)
    else if leb 65 c && leb c 70
    then some (c - 65 + 10)
    else none

-- The loop of `_parse_hex_byte` with room for `room` digits: value, digits read, rest.
unfoldable pub hex_loop : ℕ → ℕ → ℕ → List ℕ → ℕ × ℕ × List ℕ
hex_loop zero val digits s = (val, digits, s)
hex_loop (suc room) val digits [] = (val, digits, [])
hex_loop (suc room) val digits (c ∷ s) = elim (hex_digit c) [
  | none ↦ (val, digits, c ∷ s)
  | some d ↦ hex_loop room (val * 16 + d) (digits + 1) s
]

-- `_parse_hex_byte`, `none` for -1.
unfoldable pub parse_hex_byte : List ℕ → Option (ℕ × List ℕ)
parse_hex_byte s =
    let (val, digits, rest) = hex_loop 2 0 0 s in if ltb 0 digits then some (val, rest) else none

-- The loop of `parse_mac` from byte i, with `left` bytes to read; what was read before a failure stays.
unfoldable pub mac_loop : ℕ → ℕ → List ℕ → Array 6 → ℤ × Array 6
mac_loop zero i s mac = (success, mac)
mac_loop (suc left) i s mac = elim (parse_hex_byte s) [
  | none ↦ (failure, mac)
  | some read ↦
      let mac' = stored mac i read.0 in
      if left == 0 then (success, mac') else elim (expect 58 read.1) [
        | none ↦ (failure, mac')
        | some rest ↦ mac_loop left (i + 1) rest mac'
      ]
]

unfoldable pub parse_mac : List ℕ → Array 6 → ℤ × Array 6
parse_mac s mac = mac_loop 6 0 s mac

unfoldable pub parse_mode : List ℕ → ℕ
parse_mode s =
    if streq s (codes "tx") || streq s (codes "TX")
    then dmx_mode_tx
    else if streq s (codes "rx") || streq s (codes "RX")
    then dmx_mode_rx
    else if streq s (codes "off") || streq s (codes "OFF")
    then dmx_mode_off
    else dmx_mode_tx

unfoldable pub parse_protocol : List ℕ → ℕ
parse_protocol s =
    if streq s (codes "sacn") || streq s (codes "sACN")
    then proto_sacn
    else if streq s (codes "artnet") || streq s (codes "Art-Net")
    then proto_artnet
    else if streq s (codes "shownet") || streq s (codes "ShowNet")
    then proto_shownet
    else proto_none

unfoldable pub parse_addr_mode : List ℕ → ℕ
parse_addr_mode s =
    if streq s (codes "dhcp")
    then addr_mode_dhcp
    else if streq s (codes "static")
    then addr_mode_static
    else if streq s (codes "dhcp_static")
    then addr_mode_dhcp_static
    else addr_mode_static

unfoldable pub parse_backlight : List ℕ → ℕ
parse_backlight s =
    if streq s (codes "off")
    then lcd_backlight_off
    else if streq s (codes "on")
    then lcd_backlight_on
    else if streq s (codes "auto")
    then lcd_backlight_auto
    else lcd_backlight_on

unfoldable pub backlight_name : ℕ → List ℕ
backlight_name mode =
    if mode == lcd_backlight_off
    then codes "off"
    else if mode == lcd_backlight_on
    then codes "on"
    else if mode == lcd_backlight_auto
    then codes "auto"
    else codes "on"

unfoldable pub addr_mode_name : ℕ → List ℕ
addr_mode_name mode =
    if mode == addr_mode_dhcp
    then codes "dhcp"
    else if mode == addr_mode_static
    then codes "static"
    else if mode == addr_mode_dhcp_static
    then codes "dhcp_static"
    else codes "static"

unfoldable pub mode_name : ℕ → List ℕ
mode_name mode =
    if mode == dmx_mode_tx
    then codes "tx"
    else if mode == dmx_mode_rx
    then codes "rx"
    else if mode == dmx_mode_off
    then codes "off"
    else codes "tx"

unfoldable pub protocol_name : ℕ → List ℕ
protocol_name proto =
    if proto == proto_sacn
    then codes "sacn"
    else if proto == proto_artnet
    then codes "artnet"
    else if proto == proto_shownet
    then codes "shownet"
    else codes "none"
