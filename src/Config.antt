-- ===== src/Config.antt =====
-- src/config/config.c: the defaults and `config_load`, on the contents of the file. The file
-- that is loaded has no NUL byte; a `char` array that a string was copied to is the string that it holds.
pub mod Value
mod Tests
pub mod Valid
pub mod Enough
pub mod Names
pub mod Address
pub mod Save
pub mod Ifup
use sn.Base.{
  ℕ, ◌+◌, ◌%◌, ◌^◌, zero, suc, Bool, true, false, not, ◌&&◌, ◌||◌, Option, none, some, List, [],
  ◌∷◌, codes, take, length, ◌==◌, if◌then◌else◌, ℤ, success, failure,
}
use sn.Common.{
  Port, port0, port1, set_port, PortConfig, NodeConfig, addr_mode_static, addr_mode_dhcp,
  addr_mode_sentinel, lcd_backlight_on, proto_sacn, dmx_mode_tx,
}
use sn.Text.{streq, is_blank, skip_blanks, atoi, to_u16, clamp, span_to}
use sn.Config.Value.{
  parse_ip, parse_mac, parse_mode, parse_protocol, parse_addr_mode, parse_backlight,
}

-- Trailing blanks removed.
unfoldable pub trim_end : List ℕ → List ℕ
trim_end [] = []
trim_end (c ∷ s) = let r = trim_end s in if is_blank c && length r == 0 then [] else c ∷ r

unfoldable pub trim : List ℕ → List ℕ
trim s = trim_end (skip_blanks s)

-- The configuration of a port after `config_defaults`.
abbrev default_port : ℕ → PortConfig
default_port universe = record {
  mode = dmx_mode_tx;
  protocol = proto_sacn;
  universe = universe;
  label = [];
}

unfoldable pub config_defaults : NodeConfig
config_defaults = record {
  hostname = codes "SN110";
  ip_addr = 0;
  netmask = 0;
  gateway = 0;
  mac = λ _. 0;
  ports = set_port (λ _. default_port 1) port1 (default_port 2);
  active_protocol = proto_sacn;
  dmx_hold_time = 5;
  addr_mode = addr_mode_sentinel;
  lcd_contrast = 128;
  lcd_backlight = lcd_backlight_on;
  dmx_slot_monitor = λ _. 0;
}

-- Assignments to a field of a port.
abbrev pub set_mode : Port → ℕ → NodeConfig → NodeConfig
set_mode p m c = record c { ports = set_port c.ports p (record (c.ports p) { mode = m }) }

abbrev pub set_universe : Port → ℕ → NodeConfig → NodeConfig
set_universe p u c = record c { ports = set_port c.ports p (record (c.ports p) { universe = u }) }

abbrev pub set_label : Port → List ℕ → NodeConfig → NodeConfig
set_label p l c = record c { ports = set_port c.ports p (record (c.ports p) { label = take 8 l }) }

abbrev pub set_monitor : Port → ℕ → NodeConfig → NodeConfig
set_monitor p n c = record c { dmx_slot_monitor = set_port c.dmx_slot_monitor p n }

-- The chain on the key.
unfoldable pub set_key : List ℕ → List ℕ → NodeConfig → NodeConfig
set_key k v c =
    if streq k (codes "nodeaddr")
    then record c { ip_addr = if streq v (codes "0") then 0 else parse_ip v }
    else if streq k (codes "hostname")
    then record c { hostname = take 15 v }
    else if streq k (codes "macaddr")
    then record c { mac = (parse_mac v c.mac).1 }
    else if streq k (codes "netmask")
    then record c { netmask = parse_ip v }
    else if streq k (codes "gateway")
    then record c { gateway = parse_ip v }
    else if streq k (codes "protocol")
    then record c { active_protocol = parse_protocol v }
    else if streq k (codes "dmx_holdtime")
    then record c { dmx_hold_time = to_u16 (atoi v) }
    else if streq k (codes "sacn_universe_0")
    then set_universe port0 (to_u16 (atoi v)) c
    else if streq k (codes "sacn_universe_1")
    then set_universe port1 (to_u16 (atoi v)) c
    else if streq k (codes "dmx1_label")
    then set_label port0 v c
    else if streq k (codes "dmx2_label")
    then set_label port1 v c
    else if streq k (codes "dmx_port0_mode")
    then set_mode port0 (parse_mode v) c
    else if streq k (codes "dmx_port1_mode")
    then set_mode port1 (parse_mode v) c
    else if streq k (codes "addr_mode")
    then record c { addr_mode = parse_addr_mode v }
    else if streq k (codes "lcd_contrast")
    then record c { lcd_contrast = clamp (atoi v) 0 255 }
    else if streq k (codes "lcd_backlight")
    then record c { lcd_backlight = parse_backlight v }
    else if streq k (codes "dmx_slot_monitor_0")
    then set_monitor port0 (clamp (atoi v) 0 512) c
    else if streq k (codes "dmx_slot_monitor_1")
    then set_monitor port1 (clamp (atoi v) 0 512) c
    else c

-- The value in `sscanf(line, "%63[^=]=%191[^\n\r]", key, value) == 2`, after the key.
unfoldable pub scan_value : List ℕ → List ℕ → Option (List ℕ × List ℕ)
scan_value key [] = none
scan_value key (c ∷ s) =
    let value = (span_to (λ d. d == 10 || d == 13) 191 s).0 in
    if length key == 0 || not (c == 61) || length value == 0 then none else some (key, value)

unfoldable pub scan_pair : List ℕ → Option (List ℕ × List ℕ)
scan_pair line = let (key, rest) = span_to (λ d. d == 61) 63 line in scan_value key rest

-- The pair of a line, if it has one.
unfoldable pub set_pair : Option (List ℕ × List ℕ) → NodeConfig → NodeConfig
set_pair none c = c
set_pair (some pair) c = set_key (trim pair.0) (trim pair.1) c

-- One round of the loop.
unfoldable pub load_line : List ℕ → NodeConfig → NodeConfig
load_line [] c = c
load_line (d ∷ line) c =
    if d == 35 || d == 10 || d == 13 then c else set_pair (scan_pair (d ∷ line)) c

-- `fgets` with room for `room` characters: a line with its newline, and the rest.
unfoldable pub fgets : ℕ → List ℕ → List ℕ × List ℕ
fgets zero s = ([], s)
fgets (suc room) [] = ([], [])
fgets (suc room) (c ∷ s) =
    let (line, rest) = fgets room s in if c == 10 then (c ∷ [], s) else (c ∷ line, rest)

-- The loop over the lines. Each takes a character at least.
unfoldable pub load_lines : ℕ → List ℕ → NodeConfig → NodeConfig
load_lines fuel [] c = c
load_lines zero (d ∷ s) c = c
load_lines (suc fuel) (d ∷ s) c =
    let (line, rest) = fgets 255 (d ∷ s) in load_lines fuel rest (load_line line c)

-- The address mode of a file that does not set it.
unfoldable pub infer_addr_mode : NodeConfig → NodeConfig
infer_addr_mode c =
    if c.addr_mode == addr_mode_sentinel
    then record c { addr_mode = if c.ip_addr == 0 then addr_mode_dhcp else addr_mode_static }
    else c

-- `config_load` on the contents of the file, `none` if it does not open.
unfoldable pub config_load : Option (List ℕ) → ℤ × NodeConfig
config_load none = (failure, config_defaults)
config_load (some s) = (success, infer_addr_mode (load_lines (length s) s config_defaults))
