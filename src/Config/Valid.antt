-- ===== src/Config/Valid.antt =====
-- What `config_load` gives for any file.
use sn.Base.{
  ℕ, ◌^◌, ◌≤◌, ◌<◌, Bool, true, false, zero, suc, ◌||◌, Option, none, some, List, [], ◌∷◌, take,
  length, length-take-le, codes, ◌==◌, if◌then◌else◌, ℤ, pos, negsuc, arith,
}
use sn.Common.{Port, port0, port1, set_port, PortConfig, NodeConfig}
use sn.Text.{streq, atoi, to_u16, clamp}
use sn.Config.Value.{parse_mode, parse_protocol}
use sn.Config.{
  config_defaults, set_key, set_pair, load_line, load_lines, infer_addr_mode, config_load,
  scan_pair, trim, fgets, set_universe, set_mode, set_label, set_monitor,
}

-- The values of a port are in range, and its label fits.
pub record IsValidPort (p : PortConfig) : Type 0 where
  pub universe : p.universe < 2 ^ 16
  pub mode : p.mode ≤ 2
  pub label : length p.label ≤ 8

-- The values are in range, and the host name fits.
abbrev pub InRange : NodeConfig → Type 0
InRange c =
    ((p : Port) → IsValidPort (c.ports p))
    × (length c.hostname ≤ 15)
    × (c.active_protocol ≤ 3)
    × (c.dmx_hold_time < 2 ^ 16)
    × (c.lcd_contrast ≤ 255)
    × ((p : Port) → c.dmx_slot_monitor p ≤ 512)

pub record IsValid (c : NodeConfig) : Type 0 where
  pub in_range : InRange c

pub by_cases {ℓ} :
    {A : Type ℓ} (P : A → Type 0) (b : Bool) (x y : A) → P x → P y → P (if b then x else y)
by_cases P true x y h k = h
by_cases P false x y h k = k

-- A change of one port's value.
pub set_port-all {ℓ} :
    {A : Type ℓ} (P : A → Type 0) (f : Port → A) (p : Port) (v : A)
    → P v
    → ((q : Port) → P (f q))
    → (q : Port) → P (set_port f p v q)
set_port-all P f port0 v h k port0 = h
set_port-all P f port0 v h k port1 = k port1
set_port-all P f port1 v h k port0 = k port0
set_port-all P f port1 v h k port1 = h

to_u16-bound : (x : ℤ) → to_u16 x < 2 ^ 16
unfolding to_u16
to_u16-bound (pos n) = omega arith
to_u16-bound (negsuc n) = omega arith

pub clamp-bound : (x : ℤ) (lo hi : ℕ) → lo ≤ hi → clamp x lo hi ≤ hi
unfolding clamp
clamp-bound (negsuc n) lo hi h = h
clamp-bound (pos n) lo hi h = ground arith

pub parse_mode-bound : (s : List ℕ) → parse_mode s ≤ 2
unfolding parse_mode
parse_mode-bound s =
    by_cases (λ m. m ≤ 2) (streq s (codes "tx") || streq s (codes "TX")) 1
      (if streq s (codes "rx") || streq s (codes "RX")
        then 2
        else (if streq s (codes "off") || streq s (codes "OFF") then 0 else (1)))
      (omega arith)
      (by_cases (λ m. m ≤ 2) (streq s (codes "rx") || streq s (codes "RX")) 2
        (if streq s (codes "off") || streq s (codes "OFF") then 0 else (1)) (omega arith)
        (by_cases (λ m. m ≤ 2) (streq s (codes "off") || streq s (codes "OFF")) 0 (1) (omega arith)
          ((omega arith))))

pub parse_protocol-bound : (s : List ℕ) → parse_protocol s ≤ 3
unfolding parse_protocol
parse_protocol-bound s =
    by_cases (λ m. m ≤ 3) (streq s (codes "sacn") || streq s (codes "sACN")) 1
      (if streq s (codes "artnet") || streq s (codes "Art-Net")
        then 2
        else (if streq s (codes "shownet") || streq s (codes "ShowNet") then 3 else (0)))
      (omega arith)
      (by_cases (λ m. m ≤ 3) (streq s (codes "artnet") || streq s (codes "Art-Net")) 2
        (if streq s (codes "shownet") || streq s (codes "ShowNet") then 3 else (0)) (omega arith)
        (by_cases (λ m. m ≤ 3) (streq s (codes "shownet") || streq s (codes "ShowNet")) 3 (0)
          (omega arith) ((omega arith))))

pub by_key : (b : Bool) (x y : NodeConfig) → IsValid x → IsValid y → IsValid (if b then x else y)
by_key true x y h k = h
by_key false x y h k = k

module _ (c : NodeConfig) (w : InRange c) (p : Port) where
  pub set_universe-IsValid : (u : ℕ) → u < 2 ^ 16 → IsValid (set_universe p u c)
  set_universe-IsValid u h =
      let q = w.0 p in
      let q' : IsValidPort (record (c.ports p) { universe = u }) = record {
        universe = h;
        mode = q.mode;
        label = q.label;
      } in
      record { in_range = (set_port-all IsValidPort c.ports p _ q' w.0, w.1, w.2, w.3, w.4, w.5) }

  pub set_mode-IsValid : (m : ℕ) → m ≤ 2 → IsValid (set_mode p m c)
  set_mode-IsValid m h =
      let q = w.0 p in
      let q' : IsValidPort (record (c.ports p) { mode = m }) = record {
        universe = q.universe;
        mode = h;
        label = q.label;
      } in
      record { in_range = (set_port-all IsValidPort c.ports p _ q' w.0, w.1, w.2, w.3, w.4, w.5) }

  pub set_label-IsValid : (l : List ℕ) → IsValid (set_label p l c)
  set_label-IsValid l =
      let q = w.0 p in
      let q' : IsValidPort (record (c.ports p) { label = take 8 l }) = record {
        universe = q.universe;
        mode = q.mode;
        label = length-take-le 8 l;
      } in
      record { in_range = (set_port-all IsValidPort c.ports p _ q' w.0, w.1, w.2, w.3, w.4, w.5) }

  pub set_monitor-IsValid : (n : ℕ) → n ≤ 512 → IsValid (set_monitor p n c)
  set_monitor-IsValid n h = record {
    in_range = (w.0, w.1, w.2, w.3, w.4, set_port-all (λ k. k ≤ 512) c.dmx_slot_monitor p n h w.5);
  }

set_key-IsValid : (k v : List ℕ) (c : NodeConfig) → InRange c → IsValid (set_key k v c)
unfolding set_key
set_key-IsValid k v c w =
    by_key (streq k (codes "nodeaddr")) _ _ (record { in_range = w })
      (by_key (streq k (codes "hostname")) _ _
        (record { in_range = (w.0, length-take-le 15 v, w.2, w.3, w.4, w.5) })
        (by_key (streq k (codes "macaddr")) _ _ (record { in_range = w })
          (by_key (streq k (codes "netmask")) _ _ (record { in_range = w })
            (by_key (streq k (codes "gateway")) _ _ (record { in_range = w })
              (by_key (streq k (codes "protocol")) _ _
                (record { in_range = (w.0, w.1, parse_protocol-bound v, w.3, w.4, w.5) })
                (by_key (streq k (codes "dmx_holdtime")) _ _
                  (record { in_range = (w.0, w.1, w.2, to_u16-bound (atoi v), w.4, w.5) })
                  (by_key (streq k (codes "sacn_universe_0")) _ _
                    (set_universe-IsValid c w port0 _ (to_u16-bound (atoi v)))
                    (by_key (streq k (codes "sacn_universe_1")) _ _
                      (set_universe-IsValid c w port1 _ (to_u16-bound (atoi v)))
                      (by_key (streq k (codes "dmx1_label")) _ _ (set_label-IsValid c w port0 v) (
                        by_key (streq k (codes "dmx2_label")) _ _ (set_label-IsValid c w port1 v) (
                          by_key (streq k (codes "dmx_port0_mode")) _ _
                            (set_mode-IsValid c w port0 _ (parse_mode-bound v))
                            (by_key (streq k (codes "dmx_port1_mode")) _ _
                              (set_mode-IsValid c w port1 _ (parse_mode-bound v))
                              (by_key (streq k (codes "addr_mode")) _ _ (record { in_range = w })
                                (by_key (streq k (codes "lcd_contrast")) _ _
                                  (record {
                                    in_range = (
                                      w.0,
                                      w.1,
                                      w.2,
                                      w.3,
                                      clamp-bound (atoi v) 0 255 (omega arith),
                                      w.5,
                                    );
                                  })
                                  (by_key (streq k (codes "lcd_backlight")) _ _
                                    (record { in_range = w })
                                    (by_key (streq k (codes "dmx_slot_monitor_0")) _ _
                                      (set_monitor-IsValid c w port0 _
                                        (clamp-bound (atoi v) 0 512 (omega arith)))
                                      (by_key (streq k (codes "dmx_slot_monitor_1")) _ _
                                        (set_monitor-IsValid c w port1 _
                                          (clamp-bound (atoi v) 0 512 (omega arith)))
                                        (record { in_range = w }))))))))))))))))))

load_line-IsValid : (line : List ℕ) (c : NodeConfig) → IsValid c → IsValid (load_line line c)
unfolding load_line set_pair
load_line-IsValid [] c w = w
load_line-IsValid (d ∷ line) c w =
    by_key (d == 35 || d == 10 || d == 13) c _ w (pair (scan_pair (d ∷ line)))
  where
    pair : (r : Option (List ℕ × List ℕ)) → IsValid (set_pair r c)
    pair none = w
    pair (some (k, v)) = set_key-IsValid (trim k) (trim v) c w.in_range

load_lines-IsValid :
    (fuel : ℕ) (s : List ℕ) (c : NodeConfig) → IsValid c → IsValid (load_lines fuel s c)
unfolding load_lines
load_lines-IsValid zero [] c w = w
load_lines-IsValid (suc fuel) [] c w = w
load_lines-IsValid zero (d ∷ s) c w = w
load_lines-IsValid (suc fuel) (d ∷ s) c w =
    let (line, rest) = fgets 255 (d ∷ s) in
    load_lines-IsValid fuel rest (load_line line c) (load_line-IsValid line c w)

pub config_defaults-IsValid : IsValid config_defaults
unfolding config_defaults
config_defaults-IsValid = record {
  in_range = (ports, omega arith, omega arith, omega arith, omega arith, λ p. omega arith);
}
  where
    ports : (p : Port) → IsValidPort (config_defaults.ports p)
    ports port0 = record { universe = omega arith; mode = omega arith; label = omega arith }
    ports port1 = record { universe = omega arith; mode = omega arith; label = omega arith }

infer-IsValid : (c : NodeConfig) → IsValid c → IsValid (infer_addr_mode c)
unfolding infer_addr_mode
infer-IsValid c w = by_key (c.addr_mode == 255) _ _ (record { in_range = w.in_range }) w

-- Whatever the file holds, and if there is none, the configuration that `config_load` gives has
-- universes and a hold time of 16 bits, port modes and protocol among the defined ones, monitored
-- slots of at most 512, a contrast of at most 255, and a host name and labels that fit their arrays.
pub config_load-IsValid : (s : Option (List ℕ)) → IsValid (config_load s).1
unfolding config_load
config_load-IsValid none = config_defaults-IsValid
config_load-IsValid (some s) =
    infer-IsValid _ (load_lines-IsValid (length s) s config_defaults config_defaults-IsValid)
