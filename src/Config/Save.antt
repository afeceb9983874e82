-- ===== src/Config/Save.antt =====
-- src/config/config.c: `config_save` and `config_save_strand`, on the contents of the file before.
-- What `fputs` and `fwrite` are given is what the file holds after `fclose`.
pub mod Line
pub mod Reads
pub mod Printed
pub mod Chunks
pub mod Keys
pub mod Merge
pub mod Restore
pub mod Loads
pub mod Ready
pub mod Managed
pub mod Preserves
pub mod RoundTrip
mod Tests
use sn.Base.{
  ℕ, ◌+◌, ◌-◌, ◌/◌, ◌%◌, ◌^◌, zero, suc, Bool, true, false, not, ◌&&◌, ◌||◌, Option, none, some,
  List, [], ◌∷◌, ◌++◌, codes, take, drop, length, ltb, leb, ◌==◌, if◌then◌else◌, Array, ℤ, pos,
  negsuc, success, failure, is_zero,
}
use sn.Common.{port0, port1, NodeConfig, addr_mode_dhcp}
use sn.Text.{streq}
use sn.Text.Format.{Arg, signed, word, text, snprintf}
use sn.Config.Value.{mode_name, protocol_name, addr_mode_name, backlight_name}
use sn.Config.{trim, scan_pair}

abbrev pub managed_keys : List (List ℕ)
managed_keys =
    codes "nodeaddr"
    ∷ codes "hostname"
    ∷ codes "macaddr"
    ∷ codes "netmask"
    ∷ codes "gateway"
    ∷ codes "protocol"
    ∷ codes "dmx_holdtime"
    ∷ codes "sacn_universe_0"
    ∷ codes "sacn_universe_1"
    ∷ codes "dmx_port0_mode"
    ∷ codes "dmx_port1_mode"
    ∷ codes "dmx1_label"
    ∷ codes "dmx2_label"
    ∷ codes "addr_mode"
    ∷ codes "lcd_contrast"
    ∷ codes "lcd_backlight"
    ∷ codes "dmx_slot_monitor_0"
    ∷ codes "dmx_slot_monitor_1"
    ∷ []

abbrev pub strand_keys : List (List ℕ)
strand_keys =
    codes "nodeaddr"
    ∷ codes "hostname"
    ∷ codes "macaddr"
    ∷ codes "netmask"
    ∷ codes "gateway"
    ∷ codes "protocol"
    ∷ codes "dmx_holdtime"
    ∷ codes "sacn_universe_0"
    ∷ codes "sacn_universe_1"
    ∷ codes "dmx_port0_mode"
    ∷ codes "dmx_port1_mode"
    ∷ codes "dmx1_label"
    ∷ []

-- The four bytes of an address, as arguments.
abbrev pub ip_args : ℕ → List Arg
ip_args ip =
    word (ip / 2 ^ 24 % 256)
    ∷ word (ip / 2 ^ 16 % 256)
    ∷ word (ip / 2 ^ 8 % 256)
    ∷ word (ip % 256)
    ∷ []

abbrev pub mac_args : Array 6 → List Arg
mac_args mac =
    word (mac 0) ∷ word (mac 1) ∷ word (mac 2) ∷ word (mac 3) ∷ word (mac 4) ∷ word (mac 5) ∷ []

-- The line that `format_key` leaves in a buffer of `bufsize` bytes.
unfoldable pub format_key : ℕ → List ℕ → NodeConfig → List ℕ
format_key bufsize k c =
    if streq k (codes "nodeaddr")
    then (if c.addr_mode == addr_mode_dhcp || c.ip_addr == 0
        then snprintf bufsize (codes "nodeaddr = 0\n") []
        else snprintf bufsize (codes "nodeaddr = %u.%u.%u.%u\n") (ip_args c.ip_addr))
    else if streq k (codes "hostname")
    then snprintf bufsize (codes "hostname = %s\n") (text c.hostname ∷ [])
    else if streq k (codes "macaddr")
    then snprintf bufsize (codes "macaddr = %02X:%02X:%02X:%02X:%02X:%02X\n") (mac_args c.mac)
    else if streq k (codes "netmask")
    then snprintf bufsize (codes "netmask = %u.%u.%u.%u\n") (ip_args c.netmask)
    else if streq k (codes "gateway")
    then snprintf bufsize (codes "gateway = %u.%u.%u.%u\n") (ip_args c.gateway)
    else if streq k (codes "protocol")
    then snprintf bufsize (codes "protocol = %s\n") (text (protocol_name c.active_protocol) ∷ [])
    else if streq k (codes "dmx_holdtime")
    then snprintf bufsize (codes "dmx_holdtime = %d\n") (signed (pos c.dmx_hold_time) ∷ [])
    else if streq k (codes "sacn_universe_0")
    then snprintf bufsize (codes "sacn_universe_0 = %d\n")
        (signed (pos (c.ports port0).universe) ∷ [])
    else if streq k (codes "sacn_universe_1")
    then snprintf bufsize (codes "sacn_universe_1 = %d\n")
        (signed (pos (c.ports port1).universe) ∷ [])
    else if streq k (codes "dmx_port0_mode")
    then snprintf bufsize (codes "dmx_port0_mode = %s\n")
        (text (mode_name (c.ports port0).mode) ∷ [])
    else if streq k (codes "dmx_port1_mode")
    then snprintf bufsize (codes "dmx_port1_mode = %s\n")
        (text (mode_name (c.ports port1).mode) ∷ [])
    else if streq k (codes "dmx1_label")
    then snprintf bufsize (codes "dmx1_label = %s\n") (text (c.ports port0).label ∷ [])
    else if streq k (codes "dmx2_label")
    then snprintf bufsize (codes "dmx2_label = %s\n") (text (c.ports port1).label ∷ [])
    else if streq k (codes "addr_mode")
    then snprintf bufsize (codes "addr_mode = %s\n") (text (addr_mode_name c.addr_mode) ∷ [])
    else if streq k (codes "lcd_contrast")
    then snprintf bufsize (codes "lcd_contrast = %d\n") (signed (pos c.lcd_contrast) ∷ [])
    else if streq k (codes "lcd_backlight")
    then snprintf bufsize (codes "lcd_backlight = %s\n")
        (text (backlight_name c.lcd_backlight) ∷ [])
    else if streq k (codes "dmx_slot_monitor_0")
    then snprintf bufsize (codes "dmx_slot_monitor_0 = %d\n")
        (signed (pos (c.dmx_slot_monitor port0)) ∷ [])
    else if streq k (codes "dmx_slot_monitor_1")
    then snprintf bufsize (codes "dmx_slot_monitor_1 = %d\n")
        (signed (pos (c.dmx_slot_monitor port1)) ∷ [])
    else []

-- The string in a buffer, which ends before the first NUL byte.
unfoldable pub until_nul : List ℕ → List ℕ
until_nul [] = []
until_nul (c ∷ s) = let rest = until_nul s in if c == 0 then [] else c ∷ rest

-- `strchr(s, c)`, as the distance from s, for a string s and a c that is not NUL.
unfoldable pub strchr : List ℕ → ℕ → Option ℕ
strchr [] c = none
strchr (d ∷ s) c = elim (d == c) [
  | true ↦ some 0
  | false ↦ elim (strchr s c) [ none ↦ none | some i ↦ some (suc i) ]
]

abbrev upto_newline : Option ℕ → ℕ → ℕ
upto_newline none len = len
upto_newline (some i) len = suc i

-- `linelen`: up to the newline or the end, at most 255.
unfoldable pub line_length : List ℕ → ℕ
line_length s = let n = upto_newline (strchr s 10) (length s) in if leb 256 n then 255 else n

-- The key of a line that is no comment and not empty and has a pair.
abbrev pair_key : Option (List ℕ × List ℕ) → Option (List ℕ)
pair_key none = none
pair_key (some pair) = some (trim pair.0)

unfoldable pub line_key : List ℕ → Option (List ℕ)
line_key [] = none
line_key (d ∷ line) =
    if d == 35 || d == 10 || d == 13 then none else pair_key (scan_pair (d ∷ line))

-- The loop for a key of a list: its index and its spelling there, from index i on.
unfoldable pub find_key : List ℕ → ℕ → List (List ℕ) → Option (ℕ × List ℕ)
find_key k i [] = none
find_key k i (key ∷ keys) =
    let rest = find_key k (i + 1) keys in if streq k key then some (i, key) else rest

-- `written[i] = 1`
abbrev pub mark : (ℕ → Bool) → ℕ → ℕ → Bool
mark written i j = if j == i then true else written j

-- A key that is not in the list.
abbrev pub is_extension : Option (ℕ × List ℕ) → Bool
is_extension none = false
is_extension (some _) = true

module _ (keys : List (List ℕ)) (skip_extension_keys : Bool) (c : NodeConfig) where
  abbrev pub found_line : List ℕ → List ℕ → Option (ℕ × List ℕ) → (ℕ → Bool) → List ℕ × (ℕ → Bool)
  found_line line k (some (i, key)) written = (format_key 256 key c, mark written i)
  found_line line k none written = (
    if skip_extension_keys && is_extension (find_key k 0 managed_keys) then [] else line,
    written,
  )

  abbrev pub keyed_line : List ℕ → Option (List ℕ) → (ℕ → Bool) → List ℕ × (ℕ → Bool)
  keyed_line line none written = (line, written)
  keyed_line line (some k) written = found_line line k (find_key k 0 keys) written

  -- One round of the loop over the lines: what is written for the line.
  unfoldable pub save_line : List ℕ → (ℕ → Bool) → List ℕ × (ℕ → Bool)
  save_line line written = keyed_line line (line_key line) written

  -- The loop over the lines of the string at `p`, which has no NUL byte: `while (*p)`, strchr and
  -- strlen all end where the list does. Each line has a character at least.
  unfoldable pub save_lines : ℕ → List ℕ → (ℕ → Bool) → List ℕ × (ℕ → Bool)
  save_lines fuel [] written = ([], written)
  save_lines zero (d ∷ s) written = ([], written)
  save_lines (suc fuel) (d ∷ s) written =
      let n = line_length (d ∷ s) in
      let (out, written₁) = save_line (take n (d ∷ s)) written in
      let (rest, written₂) = save_lines fuel (drop n (d ∷ s)) written₁ in (out ++ rest, written₂)

  -- Step 3: the keys that no line had.
  unfoldable pub append_missing : ℕ → List (List ℕ) → (ℕ → Bool) → List ℕ
  append_missing i [] written = []
  append_missing i (k ∷ ks) written =
      let rest = append_missing (i + 1) ks written in
      if not (written i) then format_key 256 k c ++ rest else rest

  -- The file that is written for the string in `existing`.
  unfoldable pub saved_text : List ℕ → List ℕ
  saved_text existing =
      let (out, written) = save_lines (length existing) existing (λ _. false) in
      out ++ append_missing 0 keys written

  -- `_config_save_internal`, with the contents of the file, if it opens for reading, and whether
  -- it opens for writing. It returns a code, and the contents if they were written. What is read is
  -- used as a string: what stands after a NUL byte is lost. Both lists of keys have fewer than 20.
  unfoldable pub config_save_internal : Option (List ℕ) → Bool → ℤ × Option (List ℕ)
  config_save_internal none false = (failure, none)
  config_save_internal (some s) false = (failure, none)
  config_save_internal none true = (success, some (saved_text []))
  config_save_internal (some s) true = (success, some (saved_text (until_nul (take 2047 s))))

unfoldable pub config_save : NodeConfig → Option (List ℕ) → Bool → ℤ × Option (List ℕ)
config_save c existing opens = config_save_internal managed_keys false c existing opens

-- The size check on what is read back, where the file opens again.
abbrev check_size : ℤ → Option (List ℕ) → Bool → ℤ
check_size ret none reopens = ret
check_size ret (some s) reopens =
    if is_zero ret && reopens && ltb 2048 (length (take 2049 s)) then negsuc 1 else ret

unfoldable pub config_save_strand : NodeConfig → Option (List ℕ) → Bool → Bool → ℤ × Option (List ℕ)
config_save_strand c existing opens reopens =
    let (ret, contents) = config_save_internal strand_keys true c existing opens in
    (check_size ret contents reopens, contents)
