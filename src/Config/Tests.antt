-- ===== src/Config/Tests.antt =====
-- The theorems on the configuration at concrete texts, and runs of the loader.
use sn.Base.{ℕ, ◌≡◌, refl, some, List, ◌∷◌, ◌++◌, codes, arith}
use sn.Common.{port0}
use sn.Text.{atoi, streq, skip_blanks, span_to, to_u16, scan_digits, scan_u, expect}
use sn.Config.{
  trim, config_load, load_lines, load_line, set_pair, scan_pair, scan_value, set_key, fgets,
  trim_end, infer_addr_mode, config_defaults,
}
use sn.Config.Value.{scan_ip, join_ip, parse_ip, format_ip}
use sn.Config.Address.{parse_ip-format_ip}
use sn.Config.Valid.{IsValid, config_load-IsValid}

abbrev file : List ℕ
file =
    codes "# node" ++ (10 ∷ (codes "nodeaddr = 192.168.0.71" ++ (10 ∷ codes "sacn_universe_0 = 7")))

loads_universe : ((config_load (some file)).1.ports port0).universe ≡ 7
unfolding config_load load_lines load_line set_pair scan_pair scan_value set_key fgets streq trim
    trim_end skip_blanks span_to atoi to_u16 infer_addr_mode config_defaults scan_digits
loads_universe = refl

loads_address : (config_load (some file)).1.ip_addr ≡ 0xC0A80047
unfolding config_load load_lines load_line set_pair scan_pair scan_value set_key fgets streq trim
    trim_end skip_blanks span_to atoi to_u16 infer_addr_mode config_defaults parse_ip scan_ip
    join_ip scan_u scan_digits expect
loads_address = refl

config_load-IsValid_example : IsValid (config_load (some file)).1
config_load-IsValid_example = config_load-IsValid (some file)

parse_ip-format_ip_example : parse_ip (format_ip 0xC0A80047) ≡ 0xC0A80047
parse_ip-format_ip_example = parse_ip-format_ip 0xC0A80047 (omega arith)
