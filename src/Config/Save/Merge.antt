-- ===== src/Config/Save/Merge.antt =====
-- src/config/config.c: a configuration that a file can hold, and what a part of its keys set.
use sn.Base.{
  sym, fun_ext, ◌∙◌, ◌≡◌, refl, ◌≤◌, ◌<◌, ℕ, ◌^◌, Bool, true, false, ◌||◌, codes, ◌==◌,
  if◌then◌else◌, Bool-cases, inl, inr, ==_iff, IsBytes, arith,
}
use sn.Common.{Port, port0, port1, PortConfig, NodeConfig}
use sn.Text.{streq, utoa, scan_u, expect, scan_digits}
use sn.Config.Value.{format_ip, parse_ip, join_ip, scan_ip}
use sn.Config.Address.{parse_ip-format_ip}
use sn.Config.Valid.{IsValid, by_cases}
use sn.Config.Save.Line.{IsValue, HasNoNul}
use sn.Config.Save.Keys.{overlay, zero_address, number-IsValue, format_ip-IsValue}
use sn.Config.Save.Printed.{node_text}

-- A configuration that its file can hold: values in range, a host name and labels that are their
-- own trimmed lines, and no address next to DHCP.
pub record IsSavable (c : NodeConfig) : Type 0 where
  pub valid : IsValid c
  pub hostname : IsValue c.hostname
  pub label : (p : Port) → IsValue (c.ports p).label
  pub no_nul : HasNoNul c.hostname × ((p : Port) → HasNoNul (c.ports p).label)
  pub ip_addr : c.ip_addr < 2 ^ 32
  pub netmask : c.netmask < 2 ^ 32
  pub gateway : c.gateway < 2 ^ 32
  pub mac : IsBytes 6 c.mac
  pub addr_mode : c.addr_mode ≤ 2
  pub lcd_backlight : c.lcd_backlight ≤ 2
  pub dhcp : c.addr_mode ≡ 1 → c.ip_addr ≡ 0

-- The ports of `start` with what the written keys set.
abbrev pub merge_ports : (ℕ → Bool) → NodeConfig → NodeConfig → Port → PortConfig
merge_ports w start c port0 = record {
  mode = if w 9 then (c.ports port0).mode else (start.ports port0).mode;
  protocol = (start.ports port0).protocol;
  universe = if w 7 then (c.ports port0).universe else (start.ports port0).universe;
  label = if w 11 then (c.ports port0).label else (start.ports port0).label;
}
merge_ports w start c port1 = record {
  mode = if w 10 then (c.ports port1).mode else (start.ports port1).mode;
  protocol = (start.ports port1).protocol;
  universe = if w 8 then (c.ports port1).universe else (start.ports port1).universe;
  label = if w 12 then (c.ports port1).label else (start.ports port1).label;
}

abbrev pub merge_monitor : (ℕ → Bool) → NodeConfig → NodeConfig → Port → ℕ
merge_monitor w start c port0 =
    if w 16 then c.dmx_slot_monitor port0 else start.dmx_slot_monitor port0
merge_monitor w start c port1 =
    if w 17 then c.dmx_slot_monitor port1 else start.dmx_slot_monitor port1

-- The fields of `c` whose key is written, and the others of `start`.
abbrev pub merge : (ℕ → Bool) → NodeConfig → NodeConfig → NodeConfig
merge w start c = record {
  hostname = if w 1 then c.hostname else start.hostname;
  ip_addr = if w 0 then c.ip_addr else start.ip_addr;
  netmask = if w 3 then c.netmask else start.netmask;
  gateway = if w 4 then c.gateway else start.gateway;
  mac = if w 2 then overlay c.mac start.mac else start.mac;
  ports = merge_ports w start c;
  active_protocol = if w 5 then c.active_protocol else start.active_protocol;
  dmx_hold_time = if w 6 then c.dmx_hold_time else start.dmx_hold_time;
  addr_mode = if w 13 then c.addr_mode else start.addr_mode;
  lcd_contrast = if w 14 then c.lcd_contrast else start.lcd_contrast;
  lcd_backlight = if w 15 then c.lcd_backlight else start.lcd_backlight;
  dmx_slot_monitor = merge_monitor w start c;
}

pub overlay_twice :
    (b : Bool) (m old : ℕ → ℕ) → overlay m (if b then overlay m old else old) ≡ overlay m old
overlay_twice true m old = fun_ext (λ i. ground arith)
overlay_twice false m old = refl

node_parse : (c : NodeConfig) → IsSavable c → parse_ip (node_text c) ≡ c.ip_addr
unfolding parse_ip join_ip scan_ip scan_u expect scan_digits
node_parse c h = elim (Bool-cases (c.addr_mode == 1)) [
  | inl e ↦ rw e (sym (h.dhcp ((==_iff c.addr_mode 1).0 e)))
  | inr e ↦ elim (Bool-cases (c.ip_addr == 0)) [
    | inl z ↦ rw (e, z) (sym ((==_iff c.ip_addr 0).0 z))
    | inr z ↦ rw (e, z) (parse_ip-format_ip c.ip_addr h.ip_addr)
  ]
]

pub node_back :
    (c : NodeConfig)
    → IsSavable c
    → (if streq (node_text c) (codes "0") then 0 else parse_ip (node_text c)) ≡ c.ip_addr
node_back c h = zero_address (node_text c) ∙ node_parse c h

pub node_text-IsValue : (c : NodeConfig) → IsValue (node_text c)
unfolding utoa
node_text-IsValue c =
    by_cases IsValue (c.addr_mode == 1 || c.ip_addr == 0) (codes "0") (format_ip c.ip_addr)
      (number-IsValue 0) (format_ip-IsValue c.ip_addr)
