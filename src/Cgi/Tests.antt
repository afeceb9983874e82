-- ===== src/Cgi/Tests.antt =====
-- The theorems on the form parser at concrete forms, and runs of it.
use sn.Base.{ℕ, ◌≡◌, refl, [], ◌∷◌, List, codes, arith}
use sn.Config.{config_defaults}
use sn.Config.Valid.{IsValid, config_defaults-IsValid}
use sn.Text.{streq, span_to}
use sn.Config.Value.{hex_digit, parse_addr_mode}
use sn.Cgi.{
  percent, form_loop, next_field, set_field, skip_char, c_string, clear_dhcp, url_decode,
  parse_formdata,
}
use sn.Cgi.Encode.{form_encode, form_body, set_fields, parse_formdata-form_body}
use sn.Cgi.Change.{IsFormChange}
use sn.Cgi.Valid.{parse_formdata-IsValid}

abbrev form : List ℕ
form = codes "hostname=My+Node&port0_universe=70000&addr_mode=dhcp"

decodes : url_decode 20 (codes "a%20b+c%zz") ≡ codes "a b c%zz"
unfolding url_decode percent hex_digit
decodes = refl

sets_hostname : (parse_formdata form config_defaults).hostname ≡ codes "My Node"
unfolding parse_formdata form_loop next_field set_field span_to skip_char c_string url_decode
    percent clear_dhcp streq hex_digit config_defaults parse_addr_mode
sets_hostname = refl

parse_formdata-IsValid_example :
    IsValid (parse_formdata form config_defaults)
    × IsFormChange config_defaults (parse_formdata form config_defaults)
    × ((parse_formdata form config_defaults).addr_mode ≡ 1
        → ((parse_formdata form config_defaults).ip_addr ≡ 0)
          × ((parse_formdata form config_defaults).netmask ≡ 0)
          × ((parse_formdata form config_defaults).gateway ≡ 0))
parse_formdata-IsValid_example = parse_formdata-IsValid form config_defaults config_defaults-IsValid

-- A host name with a blank, an `&` and a `%`, and a mode.
abbrev fields : List (List ℕ × List ℕ)
fields = (codes "hostname", codes "A & %1") ∷ (codes "addr_mode", codes "dhcp") ∷ []

encodes : form_body fields ≡ codes "hostname=A+%26+%251&addr_mode=dhcp"
unfolding form_body form_encode
encodes = refl

parse_formdata-form_body_example :
    parse_formdata (form_body fields) config_defaults
    ≡ clear_dhcp (set_fields fields config_defaults)
unfolding form_encode
parse_formdata-form_body_example = parse_formdata-form_body fields config_defaults (
  record {
    no_equals = omega arith;
    short_key = omega arith;
    is_text = omega arith;
    short_value = omega arith;
  },
  (
    record {
      no_equals = omega arith;
      short_key = omega arith;
      is_text = omega arith;
      short_value = omega arith;
    },
    tt,
  ),
)
