-- ===== src/Common.antt =====
-- src/common.h: the constants, the frame buffer and the configuration that all parts share. A
-- `char` array is the C string that it holds; the field `data` of a frame is called `channels`.
use sn.Base.{ℕ, List, Array, ◌≡◌, refl}

-- An index into the arrays of DMX_MAX_PORTS elements.
pub data Port : Type 0 where
  port0 port1 : Port

-- `a[port] = v`
abbrev pub set_port {ℓ} : {A : Type ℓ} → (Port → A) → Port → A → Port → A
set_port a port0 v port0 = v
set_port a port0 v port1 = a port1
set_port a port1 v port0 = a port0
set_port a port1 v port1 = v

-- A change of one port's value that keeps a part of it keeps that part for every port.
pub set_port-part {ℓ κ} :
    {A : Type ℓ} {B : Type κ} (part : A → B) (f : Port → A) (p : Port) (v : A)
    → part v ≡ part (f p)
    → (q : Port) → part (set_port f p v q) ≡ part (f q)
set_port-part part f port0 v h port0 = h
set_port-part part f port0 v h port1 = refl
set_port-part part f port1 v h port0 = refl
set_port-part part f port1 v h port1 = h

abbrev pub addr_mode_static : ℕ
addr_mode_static = 0

abbrev pub addr_mode_dhcp : ℕ
addr_mode_dhcp = 1

abbrev pub addr_mode_dhcp_static : ℕ
addr_mode_dhcp_static = 2

abbrev pub addr_mode_sentinel : ℕ
addr_mode_sentinel = 255

abbrev pub lcd_backlight_off : ℕ
lcd_backlight_off = 0

abbrev pub lcd_backlight_on : ℕ
lcd_backlight_on = 1

abbrev pub lcd_backlight_auto : ℕ
lcd_backlight_auto = 2

abbrev pub proto_none : ℕ
proto_none = 0

abbrev pub proto_sacn : ℕ
proto_sacn = 1

abbrev pub proto_artnet : ℕ
proto_artnet = 2

abbrev pub proto_shownet : ℕ
proto_shownet = 3

abbrev pub dmx_mode_off : ℕ
dmx_mode_off = 0

abbrev pub dmx_mode_tx : ℕ
dmx_mode_tx = 1

abbrev pub dmx_mode_rx : ℕ
dmx_mode_rx = 2

pub record DmxFrame : Type 0 where
  pub channels : Array 512
  pub length : ℕ
  pub priority : ℕ
  pub sequence : ℕ
  pub source_ip : ℕ
  pub last_update_ms : ℕ

-- A frame after `memset(&frame, 0, sizeof(frame))`.
abbrev pub zero_frame : DmxFrame
zero_frame = record {
  channels = λ _. 0;
  length = 0;
  priority = 0;
  sequence = 0;
  source_ip = 0;
  last_update_ms = 0;
}

pub record PortConfig : Type 0 where
  pub mode : ℕ
  pub protocol : ℕ
  pub universe : ℕ
  pub label : List ℕ

pub record NodeConfig : Type 0 where
  pub hostname : List ℕ
  pub ip_addr : ℕ
  pub netmask : ℕ
  pub gateway : ℕ
  pub mac : Array 6
  pub ports : Port → PortConfig
  pub active_protocol : ℕ
  pub dmx_hold_time : ℕ
  pub addr_mode : ℕ
  pub lcd_contrast : ℕ
  pub lcd_backlight : ℕ
  pub dmx_slot_monitor : Port → ℕ
