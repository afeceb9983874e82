-- ===== src/Cgi/Page.antt =====
-- src/cgi/cgi_config.c: the form page and the page after a POST.
pub mod Alike
pub mod Fields
pub mod Sections
pub mod Ports
pub mod Markup
mod Tests
use sn.Base.{ℕ, ◌==◌, ◌||◌, Bool, true, false, List, [], ◌∷◌, ◌++◌, codes, if◌then◌else◌, pos}
use sn.Common.{
  port0, port1, NodeConfig, addr_mode_static, addr_mode_dhcp, addr_mode_dhcp_static,
  addr_mode_sentinel, lcd_backlight_off, lcd_backlight_on, lcd_backlight_auto, proto_sacn,
  proto_artnet, proto_shownet, dmx_mode_off, dmx_mode_tx, dmx_mode_rx,
}
use sn.Text.Format.{Arg, signed, text, snprintf}
use sn.Config.Save.{ip_args, mac_args}
use sn.Cgi.Html.{printf, html_escape, checked, emit_css}

unfoldable pub emit_header : NodeConfig → List (List ℕ)
emit_header c =
    (printf (codes "<!DOCTYPE html>\n<html><head><title>") []
      ∷ html_escape c.hostname
      ∷ printf (codes " Configuration</title>\n") []
      ∷ [])
    ++ (emit_css
        ++ (printf (codes "</head><body>\n") []
            ∷ printf (codes "<div class=\"header\">\n") []
            ∷ printf (codes "<h1>") []
            ∷ html_escape c.hostname
            ∷ printf (codes "</h1>\n") []
            ∷ printf (codes "<span class=\"mac\">MAC %02X:%02X:%02X:%02X:%02X:%02X</span>\n")
                (mac_args c.mac)
            ∷ printf (codes "</div>\n") []
            ∷ printf (codes "<form method=\"POST\" action=\"/cgi-bin/cfgpost.cgi\">\n") []
            ∷ []))

unfoldable pub emit_network : NodeConfig → List (List ℕ)
emit_network c =
    printf (codes "<fieldset><legend>Network</legend>\n") []
    ∷ printf
        (codes
          "<div class=\"row\"><label>Hostname</label><input type=\"text\" name=\"hostname\" value=\"")
        []
    ∷ html_escape c.hostname
    ∷ printf (codes "\" maxlength=\"15\"></div>\n") []
    ∷ printf
        (codes
          "<div class=\"row\"><label>Address Mode</label><div class=\"radio-group\"><label><input type=\"radio\" name=\"addr_mode\" value=\"dhcp\"%s> DHCP</label><label><input type=\"radio\" name=\"addr_mode\" value=\"static\"%s> Static</label><label><input type=\"radio\" name=\"addr_mode\" value=\"dhcp_static\"%s> DHCP+Static</label></div></div>\n")
        (checked (c.addr_mode == addr_mode_dhcp)
          ∷ checked (c.addr_mode == addr_mode_static || c.addr_mode == addr_mode_sentinel)
          ∷ checked (c.addr_mode == addr_mode_dhcp_static)
          ∷ [])
    ∷ printf
        (codes
          "<p class=\"note\" id=\"addr_note\">DHCP+Static tries DHCP first, falls back to static IP.</p>\n")
        []
    ∷ printf
        (codes
          "<div class=\"row\"><label>IP Address</label><input type=\"text\" name=\"ipaddr\" id=\"f_ip\" value=\"%u.%u.%u.%u\"></div>\n")
        (ip_args c.ip_addr)
    ∷ printf
        (codes
          "<div class=\"row\"><label>Netmask</label><input type=\"text\" name=\"netmask\" id=\"f_nm\" value=\"%u.%u.%u.%u\"></div>\n")
        (ip_args c.netmask)
    ∷ printf
        (codes
          "<div class=\"row\"><label>Gateway</label><input type=\"text\" name=\"gateway\" id=\"f_gw\" value=\"%u.%u.%u.%u\"></div>\n")
        (ip_args c.gateway)
    ∷ printf (codes "</fieldset>\n") []
    ∷ []

unfoldable pub emit_protocol : NodeConfig → List (List ℕ)
emit_protocol c =
    printf (codes "<fieldset><legend>Protocol</legend>\n") []
    ∷ printf
        (codes
          "<div class=\"row\"><label>Protocol</label><div class=\"radio-group\"><label><input type=\"radio\" name=\"protocol\" value=\"sacn\"%s> sACN</label><label><input type=\"radio\" name=\"protocol\" value=\"artnet\"%s> Art-Net</label><label><input type=\"radio\" name=\"protocol\" value=\"shownet\"%s> ShowNet</label></div></div>\n")
        (checked (c.active_protocol == proto_sacn)
          ∷ checked (c.active_protocol == proto_artnet)
          ∷ checked (c.active_protocol == proto_shownet)
          ∷ [])
    ∷ printf
        (codes
          "<div class=\"row\"><label>DMX Hold (s)</label><input type=\"number\" name=\"dmx_hold_time\" value=\"%d\" min=\"0\" max=\"300\"></div>\n")
        (signed (pos c.dmx_hold_time) ∷ [])
    ∷ printf (codes "</fieldset>\n") []
    ∷ []

unfoldable pub emit_port0 : NodeConfig → List (List ℕ)
emit_port0 c =
    printf (codes "<fieldset><legend>Port 0</legend>\n") []
    ∷ printf
        (codes
          "<div class=\"row\"><label>Mode</label><div class=\"radio-group\"><label><input type=\"radio\" name=\"port0_mode\" value=\"tx\"%s> TX</label><label><input type=\"radio\" name=\"port0_mode\" value=\"rx\"%s> RX</label><label><input type=\"radio\" name=\"port0_mode\" value=\"off\"%s> Off</label></div></div>\n")
        (checked ((c.ports port0).mode == dmx_mode_tx)
          ∷ checked ((c.ports port0).mode == dmx_mode_rx)
          ∷ checked ((c.ports port0).mode == dmx_mode_off)
          ∷ [])
    ∷ printf
        (codes
          "<div class=\"row\"><label>Universe</label><input type=\"number\" name=\"port0_universe\" value=\"%d\" min=\"1\" max=\"63999\"></div>\n")
        (signed (pos (c.ports port0).universe) ∷ [])
    ∷ printf
        (codes
          "<div class=\"row\"><label>Label</label><input type=\"text\" name=\"port0_label\" value=\"")
        []
    ∷ html_escape (c.ports port0).label
    ∷ printf (codes "\" maxlength=\"8\"></div>\n") []
    ∷ printf
        (codes
          "<div class=\"row\"><label>Slot Monitor</label><input type=\"number\" name=\"slot_monitor_0\" value=\"%d\" min=\"0\" max=\"512\"></div>\n")
        (signed (pos (c.dmx_slot_monitor port0)) ∷ [])
    ∷ printf (codes "<p class=\"note\">DMX slot to monitor (0 = disabled, 1-512)</p>\n") []
    ∷ printf (codes "</fieldset>\n") []
    ∷ []

unfoldable pub emit_port1 : NodeConfig → List (List ℕ)
emit_port1 c =
    printf (codes "<fieldset><legend>Port 1</legend>\n") []
    ∷ printf
        (codes
          "<div class=\"row\"><label>Mode</label><div class=\"radio-group\"><label><input type=\"radio\" name=\"port1_mode\" value=\"tx\"%s> TX</label><label><input type=\"radio\" name=\"port1_mode\" value=\"rx\"%s> RX</label><label><input type=\"radio\" name=\"port1_mode\" value=\"off\"%s> Off</label></div></div>\n")
        (checked ((c.ports port1).mode == dmx_mode_tx)
          ∷ checked ((c.ports port1).mode == dmx_mode_rx)
          ∷ checked ((c.ports port1).mode == dmx_mode_off)
          ∷ [])
    ∷ printf
        (codes
          "<div class=\"row\"><label>Universe</label><input type=\"number\" name=\"port1_universe\" value=\"%d\" min=\"1\" max=\"63999\"></div>\n")
        (signed (pos (c.ports port1).universe) ∷ [])
    ∷ printf
        (codes
          "<div class=\"row\"><label>Label</label><input type=\"text\" name=\"port1_label\" value=\"")
        []
    ∷ html_escape (c.ports port1).label
    ∷ printf (codes "\" maxlength=\"8\"></div>\n") []
    ∷ printf
        (codes
          "<div class=\"row\"><label>Slot Monitor</label><input type=\"number\" name=\"slot_monitor_1\" value=\"%d\" min=\"0\" max=\"512\"></div>\n")
        (signed (pos (c.dmx_slot_monitor port1)) ∷ [])
    ∷ printf (codes "<p class=\"note\">DMX slot to monitor (0 = disabled, 1-512)</p>\n") []
    ∷ printf (codes "</fieldset>\n") []
    ∷ []

unfoldable pub emit_lcd : NodeConfig → List (List ℕ)
emit_lcd c =
    printf (codes "<fieldset><legend>LCD</legend>\n") []
    ∷ printf
        (codes
          "<div class=\"row\"><label>Contrast</label><input type=\"number\" name=\"lcd_contrast\" value=\"%d\" min=\"0\" max=\"255\"></div>\n")
        (signed (pos c.lcd_contrast) ∷ [])
    ∷ printf
        (codes
          "<div class=\"row\"><label>Backlight</label><div class=\"radio-group\"><label><input type=\"radio\" name=\"lcd_backlight\" value=\"off\"%s> Off</label><label><input type=\"radio\" name=\"lcd_backlight\" value=\"on\"%s> On</label><label><input type=\"radio\" name=\"lcd_backlight\" value=\"auto\"%s> Auto</label></div></div>\n")
        (checked (c.lcd_backlight == lcd_backlight_off)
          ∷ checked (c.lcd_backlight == lcd_backlight_on)
          ∷ checked (c.lcd_backlight == lcd_backlight_auto)
          ∷ [])
    ∷ printf (codes "</fieldset>\n") []
    ∷ []

unfoldable pub emit_end : List (List ℕ)
emit_end =
    printf (codes "<input type=\"submit\" value=\"Save Configuration\">\n") []
    ∷ printf (codes "</form>\n") []
    ∷ printf (codes "<script>\n") []
    ∷ printf (codes "(function(){\n") []
    ∷ printf
        (codes
          "var f=[document.getElementById('f_ip'),document.getElementById('f_nm'),document.getElementById('f_gw')];\n")
        []
    ∷ printf (codes "var note=document.getElementById('addr_note');\n") []
    ∷ printf (codes "var radios=document.getElementsByName('addr_mode');\n") []
    ∷ printf (codes "function u(){\n") []
    ∷ printf
        (codes
          "var m='';for(var i=0;i<radios.length;i++){if(radios[i].checked)m=radios[i].value}\n")
        []
    ∷ printf (codes "var ro=(m==='dhcp');\n") []
    ∷ printf
        (codes
          "for(var i=0;i<f.length;i++){if(ro){f[i].setAttribute('readonly','readonly')}else{f[i].removeAttribute('readonly')}}\n")
        []
    ∷ printf (codes "if(m==='dhcp')note.textContent='IP assigned by DHCP server.';\n") []
    ∷ printf (codes "else if(m==='dhcp_static')note.textContent='Fallback IP if DHCP fails.';\n") []
    ∷ printf (codes "else note.textContent='';\n") []
    ∷ printf (codes "}\n") []
    ∷ printf (codes "for(var i=0;i<radios.length;i++){radios[i].onchange=u}\n") []
    ∷ printf (codes "u();\n") []
    ∷ printf (codes "})();\n") []
    ∷ printf (codes "</script>\n") []
    ∷ printf (codes "</body></html>\n") []
    ∷ []

unfoldable pub emit_html_form : NodeConfig → List (List ℕ)
emit_html_form c =
    emit_header c
    ++ (emit_network c
        ++ (emit_protocol c ++ (emit_port0 c ++ (emit_port1 c ++ (emit_lcd c ++ emit_end)))))

-- What the browser gets.
unfoldable pub page_text : List (List ℕ) → List ℕ
page_text [] = []
page_text (s ∷ page) = s ++ page_text page

-- The page after a POST.
unfoldable pub saved_page : NodeConfig → List (List ℕ)
saved_page c =
    (printf (codes "<!DOCTYPE html>\n<html><head><title>") []
      ∷ html_escape c.hostname
      ∷ printf (codes " " ++ (226 ∷ 128 ∷ 148 ∷ codes " Saved</title>\n")) []
      ∷ printf (codes "<meta http-equiv=\"refresh\" content=\"3;url=/cgi-bin/cfgget.cgi\">\n") []
      ∷ [])
    ++ (emit_css
        ++ (printf (codes "</head><body>\n") []
            ∷ printf (codes "<div class=\"header\"><h1>") []
            ∷ html_escape c.hostname
            ∷ printf (codes "</h1></div>\n") []
            ∷ printf (codes "<form style=\"text-align:center;padding-top:40px\">\n") []
            ∷ printf (codes "<fieldset><legend>Status</legend>\n") []
            ∷ printf (codes "<p style=\"padding:16px;font-size:1.1em\">Configuration saved.</p>\n")
                []
            ∷ printf
                (codes
                  "<p class=\"note\" style=\"margin-left:0\">Redirecting in 3 seconds...</p>\n")
                []
            ∷ printf (codes "</fieldset>\n") []
            ∷ printf
                (codes
                  "<p style=\"margin-top:16px\"><a href=\"/cgi-bin/cfgget.cgi\">Back to configuration</a></p>\n")
                []
            ∷ printf (codes "</form>\n") []
            ∷ printf (codes "</body></html>\n") []
            ∷ []))
