-- ===== src/Cgi/Page/Ports.antt =====
-- src/cgi/cgi_config.c: no value of the configuration adds markup to the parts about a port.
use sn.Base.{sym, ◌∙◌, ◌≡◌, refl, ◌<◌, ℕ, ◌^◌, ◌==◌, true, List, [], codes, arith}
use sn.Common.{Port, port0, port1, NodeConfig, dmx_mode_off, dmx_mode_tx, dmx_mode_rx}
use sn.Config.Valid.{IsValid}
use sn.Text.Format.{format, conversion, convert}
use sn.Cgi.Html.{html_escape}
use sn.Cgi.Page.{emit_port0, emit_port1}
use sn.Cgi.Page.Alike.{count, is_markup, count-html_escape}
use sn.Cgi.Page.Fields.{Same, Same-refl, piece-Same, number_field, radio_field}

universe-word : (c : NodeConfig) → IsValid c → (p : Port) → (c.ports p).universe < 2 ^ 32
universe-word c h p = let b = (h.in_range.0 p).universe in omega arith

monitor-word : (c : NodeConfig) → IsValid c → (p : Port) → c.dmx_slot_monitor p < 2 ^ 32
monitor-word c h p = let b = h.in_range.5 p in omega arith

module _ (x : ℕ) (m : is_markup x ≡ true) (c d : NodeConfig) (h : IsValid c) (k : IsValid d) where
  no_markup : (s t : List ℕ) → count x (html_escape s) ≡ count x (html_escape t)
  no_markup s t = count-html_escape x m s ∙ sym (count-html_escape x m t)

  pub port0-Same : Same x (emit_port0 c) (emit_port0 d)
  unfolding emit_port0 format conversion convert
  port0-Same = piece-Same x _ _ _ _ refl (
      piece-Same x _ _ _ _
        (radio_field x m
          (codes
            "<div class=\"row\"><label>Mode</label><div class=\"radio-group\"><label><input type=\"radio\" name=\"port0_mode\" value=\"tx\"")
          (codes "> TX</label><label><input type=\"radio\" name=\"port0_mode\" value=\"rx\"")
          (codes "> RX</label><label><input type=\"radio\" name=\"port0_mode\" value=\"off\"")
          (codes "> Off</label></div></div>\n") ((c.ports port0).mode == dmx_mode_tx)
          ((c.ports port0).mode == dmx_mode_rx) ((c.ports port0).mode == dmx_mode_off)
          ((d.ports port0).mode == dmx_mode_tx) ((d.ports port0).mode == dmx_mode_rx)
          ((d.ports port0).mode == dmx_mode_off) (omega arith))
        (piece-Same x _ _ _ _
          (number_field x m
            (codes
              "<div class=\"row\"><label>Universe</label><input type=\"number\" name=\"port0_universe\" value=\"")
            (codes "\" min=\"1\" max=\"63999\"></div>\n") ((c.ports port0).universe)
            ((d.ports port0).universe) (omega arith) (universe-word c h port0)
            (universe-word d k port0))
          (piece-Same x _ _ _ _ refl (
            piece-Same x _ _ _ _ (no_markup ((c.ports port0).label) ((d.ports port0).label)) (
              piece-Same x _ _ _ _ refl (
                piece-Same x _ _ _ _
                  (number_field x m
                    (codes
                      "<div class=\"row\"><label>Slot Monitor</label><input type=\"number\" name=\"slot_monitor_0\" value=\"")
                    (codes "\" min=\"0\" max=\"512\"></div>\n") ((c.dmx_slot_monitor port0))
                    ((d.dmx_slot_monitor port0)) (omega arith) (monitor-word c h port0)
                    (monitor-word d k port0))
                  (piece-Same x _ _ _ _ refl (piece-Same x _ _ _ _ refl (Same-refl x [])))))))))

  pub port1-Same : Same x (emit_port1 c) (emit_port1 d)
  unfolding emit_port1 format conversion convert
  port1-Same = piece-Same x _ _ _ _ refl (
      piece-Same x _ _ _ _
        (radio_field x m
          (codes
            "<div class=\"row\"><label>Mode</label><div class=\"radio-group\"><label><input type=\"radio\" name=\"port1_mode\" value=\"tx\"")
          (codes "> TX</label><label><input type=\"radio\" name=\"port1_mode\" value=\"rx\"")
          (codes "> RX</label><label><input type=\"radio\" name=\"port1_mode\" value=\"off\"")
          (codes "> Off</label></div></div>\n") ((c.ports port1).mode == dmx_mode_tx)
          ((c.ports port1).mode == dmx_mode_rx) ((c.ports port1).mode == dmx_mode_off)
          ((d.ports port1).mode == dmx_mode_tx) ((d.ports port1).mode == dmx_mode_rx)
          ((d.ports port1).mode == dmx_mode_off) (omega arith))
        (piece-Same x _ _ _ _
          (number_field x m
            (codes
              "<div class=\"row\"><label>Universe</label><input type=\"number\" name=\"port1_universe\" value=\"")
            (codes "\" min=\"1\" max=\"63999\"></div>\n") ((c.ports port1).universe)
            ((d.ports port1).universe) (omega arith) (universe-word c h port1)
            (universe-word d k port1))
          (piece-Same x _ _ _ _ refl (
            piece-Same x _ _ _ _ (no_markup ((c.ports port1).label) ((d.ports port1).label)) (
              piece-Same x _ _ _ _ refl (
                piece-Same x _ _ _ _
                  (number_field x m
                    (codes
                      "<div class=\"row\"><label>Slot Monitor</label><input type=\"number\" name=\"slot_monitor_1\" value=\"")
                    (codes "\" min=\"0\" max=\"512\"></div>\n") ((c.dmx_slot_monitor port1))
                    ((d.dmx_slot_monitor port1)) (omega arith) (monitor-word c h port1)
                    (monitor-word d k port1))
                  (piece-Same x _ _ _ _ refl (piece-Same x _ _ _ _ refl (Same-refl x [])))))))))
