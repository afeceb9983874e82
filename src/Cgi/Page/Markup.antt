-- ===== src/Cgi/Page/Markup.antt =====
-- src/cgi/cgi_config.c: no value of the configuration adds markup to a page.
use sn.Base.{◌≡◌, ℕ, true}
use sn.Common.{NodeConfig}
use sn.Config.Valid.{IsValid}
use sn.Cgi.Page.{
  page_text, emit_header, emit_network, emit_protocol, emit_port0, emit_port1, emit_lcd, emit_end,
  emit_html_form, saved_page,
}
use sn.Cgi.Page.Alike.{count, is_markup}
use sn.Cgi.Page.Fields.{Same, Same-refl, append-Same}
use sn.Cgi.Page.Sections.{header-Same, network-Same, protocol-Same, lcd-Same, saved-Same}
use sn.Cgi.Page.Ports.{port0-Same, port1-Same}

module _ (x : ℕ) (m : is_markup x ≡ true) (c d : NodeConfig) (h : IsValid c) (k : IsValid d) where
  form-Same : Same x (emit_html_form c) (emit_html_form d)
  unfolding emit_html_form
  form-Same = append-Same x (emit_header c) (emit_header d) _ _ (header-Same x m c d h k) (
      append-Same x (emit_network c) (emit_network d) _ _ (network-Same x m c d h k) (
        append-Same x (emit_protocol c) (emit_protocol d) _ _ (protocol-Same x m c d h k) (
          append-Same x (emit_port0 c) (emit_port0 d) _ _ (port0-Same x m c d h k) (
            append-Same x (emit_port1 c) (emit_port1 d) _ _ (port1-Same x m c d h k) (
              append-Same x (emit_lcd c) (emit_lcd d) _ _ (lcd-Same x m c d h k)
                (Same-refl x emit_end))))))

-- For each of the characters `"`, `'`, `<` and `>`, the form page has equally many of it for any two
-- configurations with values in range, whatever their names and labels hold, and so has the page
-- after a POST.
pub count-page_text :
    (x : ℕ) (c d : NodeConfig)
    → is_markup x ≡ true
    → IsValid c
    → IsValid d
    → (count x (page_text (emit_html_form c)) ≡ count x (page_text (emit_html_form d)))
      × (count x (page_text (saved_page c)) ≡ count x (page_text (saved_page d)))
count-page_text x c d m h k = ((form-Same x m c d h k).same, (saved-Same x m c d h k).same)
