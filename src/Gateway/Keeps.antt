-- ===== src/Gateway/Keeps.antt =====
-- What the handlers and the output cycle leave alone: the state of the input side.
use sn.Base.{◌≡◌, ◌∙◌}
use sn.Gateway.{Gateway}

pub record KeepsInput (g g' : Gateway) : Type 0 where
  pub dmx_in : g'.dmx_in ≡ g.dmx_in
  pub sacn_tx : g'.sacn_tx ≡ g.sacn_tx
  pub running : g'.running ≡ g.running

abbrev pub KeepsInput-same :
    {g g' : Gateway}
    → g'.dmx_in ≡ g.dmx_in
    → g'.sacn_tx ≡ g.sacn_tx
    → g'.running ≡ g.running
    → KeepsInput g g'
KeepsInput-same a b c = record { dmx_in = a; sacn_tx = b; running = c }

pub KeepsInput-trans : {g h k : Gateway} → KeepsInput g h → KeepsInput h k → KeepsInput g k
KeepsInput-trans a b = record {
  dmx_in = b.dmx_in ∙ a.dmx_in;
  sacn_tx = b.sacn_tx ∙ a.sacn_tx;
  running = b.running ∙ a.running;
}
