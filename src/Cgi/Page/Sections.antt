-- ===== src/Cgi/Page/Sections.antt =====
-- src/cgi/cgi_config.c: no value of the configuration adds markup to the parts of the pages that are
-- not about one port.
use sn.Base.{sym, ◌∙◌, ◌≡◌, refl, ◌<◌, ℕ, ◌^◌, ◌||◌, ◌==◌, true, List, [], ◌∷◌, ◌++◌, codes, arith}
use sn.Common.{
  NodeConfig, addr_mode_static, addr_mode_dhcp, addr_mode_dhcp_static, addr_mode_sentinel,
  lcd_backlight_off, lcd_backlight_on, lcd_backlight_auto, proto_sacn, proto_artnet, proto_shownet,
}
use sn.Config.Valid.{IsValid}
use sn.Text.Format.{format, conversion, convert}
use sn.Cgi.Html.{printf, html_escape, emit_css}
use sn.Cgi.Page.{emit_header, emit_network, emit_protocol, emit_lcd, saved_page}
use sn.Cgi.Page.Alike.{count, is_markup, count-html_escape}
use sn.Cgi.Page.Fields.{
  Same, Same-refl, piece-Same, append-Same, number_field, address_field, mac_field, radio_field,
}

hold-word : (c : NodeConfig) → IsValid c → c.dmx_hold_time < 2 ^ 32
hold-word c h = let b = h.in_range.3 in omega arith

contrast-word : (c : NodeConfig) → IsValid c → c.lcd_contrast < 2 ^ 32
contrast-word c h = let b = h.in_range.4 in omega arith

module _ (x : ℕ) (m : is_markup x ≡ true) (c d : NodeConfig) (h : IsValid c) (k : IsValid d) where
  no_markup : (s t : List ℕ) → count x (html_escape s) ≡ count x (html_escape t)
  no_markup s t = count-html_escape x m s ∙ sym (count-html_escape x m t)

  pub header-Same : Same x (emit_header c) (emit_header d)
  unfolding emit_header format conversion convert
  header-Same =
      append-Same x
        (printf (codes "<!DOCTYPE html>\n<html><head><title>") []
          ∷ html_escape c.hostname
          ∷ printf (codes " Configuration</title>\n") []
          ∷ [])
        (printf (codes "<!DOCTYPE html>\n<html><head><title>") []
          ∷ html_escape d.hostname
          ∷ printf (codes " Configuration</title>\n") []
          ∷ [])
        _ _
        (piece-Same x _ _ _ _ refl (
          piece-Same x _ _ _ _ (no_markup (c.hostname) (d.hostname))
            (piece-Same x _ _ _ _ refl (Same-refl x []))))
        (append-Same x emit_css emit_css _ _ (Same-refl x emit_css) (
          piece-Same x _ _ _ _ refl (
            piece-Same x _ _ _ _ refl (
              piece-Same x _ _ _ _ refl (
                piece-Same x _ _ _ _ (no_markup (c.hostname) (d.hostname)) (
                  piece-Same x _ _ _ _ refl (
                    piece-Same x _ _ _ _
                      (mac_field x m (codes "<span class=\"mac\">MAC ") (codes "</span>\n") c.mac
                        d.mac (omega arith))
                      (piece-Same x _ _ _ _ refl
                        (piece-Same x _ _ _ _ refl (Same-refl x []))))))))))

  pub network-Same : Same x (emit_network c) (emit_network d)
  unfolding emit_network format conversion convert
  network-Same = piece-Same x _ _ _ _ refl (
      piece-Same x _ _ _ _ refl (
        piece-Same x _ _ _ _ (no_markup (c.hostname) (d.hostname)) (
          piece-Same x _ _ _ _ refl (
            piece-Same x _ _ _ _
              (radio_field x m
                (codes
                  "<div class=\"row\"><label>Address Mode</label><div class=\"radio-group\"><label><input type=\"radio\" name=\"addr_mode\" value=\"dhcp\"")
                (codes
                  "> DHCP</label><label><input type=\"radio\" name=\"addr_mode\" value=\"static\"")
                (codes
                  "> Static</label><label><input type=\"radio\" name=\"addr_mode\" value=\"dhcp_static\"")
                (codes "> DHCP+Static</label></div></div>\n") (c.addr_mode == addr_mode_dhcp)
                (c.addr_mode == addr_mode_static || c.addr_mode == addr_mode_sentinel)
                (c.addr_mode == addr_mode_dhcp_static) (d.addr_mode == addr_mode_dhcp)
                (d.addr_mode == addr_mode_static || d.addr_mode == addr_mode_sentinel)
                (d.addr_mode == addr_mode_dhcp_static) (omega arith))
              (piece-Same x _ _ _ _ refl (
                piece-Same x _ _ _ _
                  (address_field x m
                    (codes
                      "<div class=\"row\"><label>IP Address</label><input type=\"text\" name=\"ipaddr\" id=\"f_ip\" value=\"")
                    (codes "\"></div>\n") c.ip_addr d.ip_addr (omega arith))
                  (piece-Same x _ _ _ _
                    (address_field x m
                      (codes
                        "<div class=\"row\"><label>Netmask</label><input type=\"text\" name=\"netmask\" id=\"f_nm\" value=\"")
                      (codes "\"></div>\n") c.netmask d.netmask (omega arith))
                    (piece-Same x _ _ _ _
                      (address_field x m
                        (codes
                          "<div class=\"row\"><label>Gateway</label><input type=\"text\" name=\"gateway\" id=\"f_gw\" value=\"")
                        (codes "\"></div>\n") c.gateway d.gateway (omega arith))
                      (piece-Same x _ _ _ _ refl (Same-refl x []))))))))))

  pub protocol-Same : Same x (emit_protocol c) (emit_protocol d)
  unfolding emit_protocol format conversion convert
  protocol-Same = piece-Same x _ _ _ _ refl (
      piece-Same x _ _ _ _
        (radio_field x m
          (codes
            "<div class=\"row\"><label>Protocol</label><div class=\"radio-group\"><label><input type=\"radio\" name=\"protocol\" value=\"sacn\"")
          (codes "> sACN</label><label><input type=\"radio\" name=\"protocol\" value=\"artnet\"")
          (codes
            "> Art-Net</label><label><input type=\"radio\" name=\"protocol\" value=\"shownet\"")
          (codes "> ShowNet</label></div></div>\n") (c.active_protocol == proto_sacn)
          (c.active_protocol == proto_artnet) (c.active_protocol == proto_shownet)
          (d.active_protocol == proto_sacn) (d.active_protocol == proto_artnet)
          (d.active_protocol == proto_shownet) (omega arith))
        (piece-Same x _ _ _ _
          (number_field x m
            (codes
              "<div class=\"row\"><label>DMX Hold (s)</label><input type=\"number\" name=\"dmx_hold_time\" value=\"")
            (codes "\" min=\"0\" max=\"300\"></div>\n") (c.dmx_hold_time) (d.dmx_hold_time)
            (omega arith) (hold-word c h) (hold-word d k))
          (piece-Same x _ _ _ _ refl (Same-refl x []))))

  pub lcd-Same : Same x (emit_lcd c) (emit_lcd d)
  unfolding emit_lcd format conversion convert
  lcd-Same = piece-Same x _ _ _ _ refl (
      piece-Same x _ _ _ _
        (number_field x m
          (codes
            "<div class=\"row\"><label>Contrast</label><input type=\"number\" name=\"lcd_contrast\" value=\"")
          (codes "\" min=\"0\" max=\"255\"></div>\n") (c.lcd_contrast) (d.lcd_contrast)
          (omega arith) (contrast-word c h) (contrast-word d k))
        (piece-Same x _ _ _ _
          (radio_field x m
            (codes
              "<div class=\"row\"><label>Backlight</label><div class=\"radio-group\"><label><input type=\"radio\" name=\"lcd_backlight\" value=\"off\"")
            (codes "> Off</label><label><input type=\"radio\" name=\"lcd_backlight\" value=\"on\"")
            (codes "> On</label><label><input type=\"radio\" name=\"lcd_backlight\" value=\"auto\"")
            (codes "> Auto</label></div></div>\n") (c.lcd_backlight == lcd_backlight_off)
            (c.lcd_backlight == lcd_backlight_on) (c.lcd_backlight == lcd_backlight_auto)
            (d.lcd_backlight == lcd_backlight_off) (d.lcd_backlight == lcd_backlight_on)
            (d.lcd_backlight == lcd_backlight_auto) (omega arith))
          (piece-Same x _ _ _ _ refl (Same-refl x []))))

  pub saved-Same : Same x (saved_page c) (saved_page d)
  unfolding saved_page format conversion convert
  saved-Same =
      append-Same x
        (printf (codes "<!DOCTYPE html>\n<html><head><title>") []
          ∷ html_escape c.hostname
          ∷ printf (codes " " ++ (226 ∷ 128 ∷ 148 ∷ codes " Saved</title>\n")) []
          ∷ printf (codes "<meta http-equiv=\"refresh\" content=\"3;url=/cgi-bin/cfgget.cgi\">\n")
              []
          ∷ [])
        (printf (codes "<!DOCTYPE html>\n<html><head><title>") []
          ∷ html_escape d.hostname
          ∷ printf (codes " " ++ (226 ∷ 128 ∷ 148 ∷ codes " Saved</title>\n")) []
          ∷ printf (codes "<meta http-equiv=\"refresh\" content=\"3;url=/cgi-bin/cfgget.cgi\">\n")
              []
          ∷ [])
        _ _
        (piece-Same x _ _ _ _ refl (
          piece-Same x _ _ _ _ (no_markup (c.hostname) (d.hostname))
            (piece-Same x _ _ _ _ refl (piece-Same x _ _ _ _ refl (Same-refl x [])))))
        (append-Same x emit_css emit_css _ _ (Same-refl x emit_css) (
          piece-Same x _ _ _ _ refl (
            piece-Same x _ _ _ _ refl (
              piece-Same x _ _ _ _ (no_markup (c.hostname) (d.hostname)) (
                piece-Same x _ _ _ _ refl (
                  piece-Same x _ _ _ _ refl (
                    piece-Same x _ _ _ _ refl (
                      piece-Same x _ _ _ _ refl (
                        piece-Same x _ _ _ _ refl (
                          piece-Same x _ _ _ _ refl (
                            piece-Same x _ _ _ _ refl (
                              piece-Same x _ _ _ _ refl
                                (piece-Same x _ _ _ _ refl (Same-refl x []))))))))))))))
