-- ===== src/Cgi/Request/Tests.antt =====
-- Runs of requests, and the theorems about them at concrete requests.
use sn.Base.{
  ◌≡◌, refl, sym, subst, ℕ, memcmp, [], some, none, true, List, codes, success, if◌then◌else◌,
  arith,
}
use sn.Common.{Port, port0, port1, NodeConfig}
use sn.Text.{streq, skip_blanks}
use sn.Config.{trim, trim_end}
use sn.Config.Valid.{config_defaults-IsValid}
use sn.Config.Save.Line.{IsValue, HasNoNul, NoBreak}
use sn.Config.{config_load, config_defaults}
use sn.Config.Save.Merge.{IsSavable}
use sn.Config.Save.RoundTrip.{Restored}
use sn.Cgi.Page.{emit_html_form, saved_page, page_text}
use sn.Cgi.Page.Alike.{count}
use sn.Cgi.Request.{Request, Access, Files, posted_config, main}
use sn.Cgi.Request.Effect.{is_post, main-markup, main-config_load}

abbrev post : Request
post = record {
  method = some (codes "POST");
  content_length = some (codes "36");
  iface_mac = none;
  input = λ n. some (codes "addr_mode=dhcp&hostname=%3Cb%3E&x=1");
}

abbrev all_open : Access
all_open = record { config = true; strand = true; ifup = true; strand_again = true }

abbrev no_files : Files
no_files = record { config = none; strand = none; ifup = none }

main-markup_example : count 60 (page_text (main post all_open no_files).0) ≡ (
    if is_post post
    then count 60 (page_text (saved_page config_defaults))
    else count 60 (page_text (emit_html_form config_defaults)))
main-markup_example = main-markup 60 post all_open no_files refl

abbrev static_post : Request
static_post = record {
  method = some (codes "POST");
  content_length = some (codes "16");
  iface_mac = none;
  input = λ n. some (codes "addr_mode=static");
}

abbrev static_config : NodeConfig
static_config = record config_defaults { addr_mode = 0 }

posts_static : posted_config static_post no_files ≡ static_config
unfolding posted_config sn.Cgi.parse_formdata sn.Cgi.clear_dhcp sn.Cgi.form_loop
    sn.Cgi.Request.request_body sn.Text.atoi skip_blanks sn.Text.scan_digits sn.Cgi.c_string
    sn.Cgi.next_field sn.Cgi.skip_char sn.Text.span_to sn.Cgi.set_field streq
    sn.Config.Value.parse_addr_mode sn.Cgi.url_decode config_defaults sn.Cgi.Request.current_config
    sn.Cgi.Request.with_mac memcmp sn.Cgi.Request.read_iface_mac sn.Cgi.percent config_load
posts_static = refl

empty-IsValue : IsValue []
unfolding NoBreak trim trim_end skip_blanks
empty-IsValue = record { no_break = tt; trimmed = refl; short = omega arith }

name-IsValue : IsValue (codes "SN110")
unfolding NoBreak trim trim_end skip_blanks
name-IsValue = record {
  no_break = (refl, (refl, (refl, (refl, (refl, tt)))));
  trimmed = refl;
  short = omega arith;
}

labels-IsValue : (p : Port) → IsValue (static_config.ports p).label
unfolding config_defaults
labels-IsValue port0 = empty-IsValue
labels-IsValue port1 = empty-IsValue

labels-HasNoNul : (p : Port) → HasNoNul (static_config.ports p).label
unfolding config_defaults
labels-HasNoNul port0 = tt
labels-HasNoNul port1 = tt

static_config-IsSavable : IsSavable static_config
unfolding config_defaults
static_config-IsSavable = record {
  valid = record { in_range = config_defaults-IsValid.in_range };
  hostname = name-IsValue;
  label = labels-IsValue;
  no_nul = (omega arith, labels-HasNoNul);
  ip_addr = omega arith;
  netmask = omega arith;
  gateway = omega arith;
  mac = λ _ _. omega arith;
  addr_mode = omega arith;
  lcd_backlight = omega arith;
  dhcp = λ h. absurd (cc h);
}

main-config_load_example :
    (saved : List ℕ) × ((main static_post all_open no_files).1.config ≡ some saved)
    × ((config_load (some saved)).0 ≡ success)
    × Restored (posted_config static_post no_files) (config_load (some saved)).1
unfolding streq
main-config_load_example =
    main-config_load static_post all_open no_files refl refl tt
      (subst IsSavable (sym posts_static) static_config-IsSavable)
