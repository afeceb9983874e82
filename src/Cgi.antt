-- ===== src/Cgi.antt =====
-- src/cgi/cgi_parse.h: the form parser. `_hex_digit` is the test of `_parse_hex_byte`. A decoded NUL
-- byte ends the value that it stands in.
pub mod Html
pub mod Page
pub mod Request
pub mod Change
pub mod Valid
pub mod Enough
pub mod Encode
mod Tests
use sn.Base.{
  ℕ, ◌+◌, ◌*◌, ◌==◌, zero, suc, Bool, true, false, Option, none, some, List, [], ◌∷◌, codes, take,
  length, if◌then◌else◌, ◌>>=◌,
}
use sn.Common.{Port, port0, port1, NodeConfig, addr_mode_dhcp}
use sn.Text.{streq, atoi, clamp, span_to}
use sn.Config.{set_mode, set_universe, set_label, set_monitor}
use sn.Config.Value.{
  hex_digit, parse_ip, parse_mode, parse_protocol, parse_addr_mode, parse_backlight,
}

-- The byte of the two digits after a '%', and what follows them.
unfoldable pub percent : List ℕ → Option (ℕ × List ℕ)
percent [] = none
percent (h ∷ []) = none
percent (h ∷ l ∷ s) = do hi ← hex_digit h; lo ← hex_digit l; some (hi * 16 + lo, s)

-- The loop of `url_decode` with room for `room` bytes.
unfoldable pub url_decode : ℕ → List ℕ → List ℕ
url_decode zero s = []
url_decode (suc room) [] = []
url_decode (suc room) (c ∷ s) = elim (if c == 37 then percent s else none) [
  | some decoded ↦ decoded.0 ∷ url_decode room decoded.1
  | none ↦ (if c == 43 then 32 else c) ∷ url_decode room s
]

-- An array of bytes read as a C string.
unfoldable pub c_string : List ℕ → List ℕ
c_string [] = []
c_string (c ∷ s) = let rest = c_string s in if c == 0 then [] else c ∷ rest

-- The chain on the key.
unfoldable pub set_field : List ℕ → List ℕ → NodeConfig → NodeConfig
set_field k v c =
    if streq k (codes "hostname")
    then record c { hostname = take 15 v }
    else if streq k (codes "ipaddr")
    then record c { ip_addr = parse_ip v }
    else if streq k (codes "netmask")
    then record c { netmask = parse_ip v }
    else if streq k (codes "gateway")
    then record c { gateway = parse_ip v }
    else if streq k (codes "protocol")
    then record c { active_protocol = parse_protocol v }
    else if streq k (codes "port0_mode")
    then set_mode port0 (parse_mode v) c
    else if streq k (codes "port1_mode")
    then set_mode port1 (parse_mode v) c
    else if streq k (codes "port0_universe")
    then set_universe port0 (clamp (atoi v) 1 63999) c
    else if streq k (codes "port1_universe")
    then set_universe port1 (clamp (atoi v) 1 63999) c
    else if streq k (codes "port0_label")
    then set_label port0 v c
    else if streq k (codes "port1_label")
    then set_label port1 v c
    else if streq k (codes "dmx_hold_time")
    then record c { dmx_hold_time = clamp (atoi v) 0 300 }
    else if streq k (codes "addr_mode")
    then record c { addr_mode = parse_addr_mode v }
    else if streq k (codes "lcd_contrast")
    then record c { lcd_contrast = clamp (atoi v) 0 255 }
    else if streq k (codes "lcd_backlight")
    then record c { lcd_backlight = parse_backlight v }
    else if streq k (codes "slot_monitor_0")
    then set_monitor port0 (clamp (atoi v) 0 512) c
    else if streq k (codes "slot_monitor_1")
    then set_monitor port1 (clamp (atoi v) 0 512) c
    else c

-- `if (*body == c) body++`
unfoldable pub skip_char : ℕ → List ℕ → List ℕ
skip_char c [] = []
skip_char c (d ∷ s) = if d == c then s else d ∷ s

-- One round: a key, a value, and the rest of the body.
unfoldable pub next_field : List ℕ → List ℕ × List ℕ × List ℕ
next_field body =
    let (key, after_key) = span_to (λ d. d == 61) 63 body in
    let (raw, after_raw) = span_to (λ d. d == 38) 191 (skip_char 61 after_key) in
    (key, c_string (url_decode 191 raw), skip_char 38 after_raw)

-- The loop over the fields. Each takes a character at least.
unfoldable pub form_loop : ℕ → List ℕ → NodeConfig → NodeConfig
form_loop fuel [] c = c
form_loop zero (d ∷ body) c = c
form_loop (suc fuel) (d ∷ body) c =
    let (key, value, rest) = next_field (d ∷ body) in form_loop fuel rest (set_field key value c)

-- The address fields of a node with DHCP.
unfoldable pub clear_dhcp : NodeConfig → NodeConfig
clear_dhcp c =
    if c.addr_mode == addr_mode_dhcp then record c { ip_addr = 0; netmask = 0; gateway = 0 } else c

unfoldable pub parse_formdata : List ℕ → NodeConfig → NodeConfig
parse_formdata body c = clear_dhcp (form_loop (length body) body c)
