-- ===== src/Gateway/Handlers/Effect.antt =====
-- Steps that change the frame of one port, by a rule; loops over the ports made of them.
use sn.Base.{
  ℕ, ◌≤◌, ◌≡◌, ◌≢◌, refl, ◌∙◌, Bool, true, false, memcpy, subst, sym, Option, some, Array,
  memcpy_within, copied, if◌then◌else◌, arith,
}
use sn.Common.{Port, port0, port1, set_port, DmxFrame, NodeConfig}
use sn.Gateway.{Gateway}
use sn.Gateway.Keeps.{KeepsInput, KeepsInput-same, KeepsInput-trans}
use sn.Gateway.Handlers.{for_ports}

-- A frame whose first `len` channels come from a packet.
abbrev pub overlaid : DmxFrame → Array 512 → ℕ → DmxFrame
overlaid out dmx_data len = record out {
  channels = copied out.channels 0 dmx_data 0 len;
  length = len;
}

-- The port listens to the universe and transmits.
abbrev pub Listens : NodeConfig → Port → ℕ → Type 0
Listens c p universe = ((c.ports p).universe ≡ universe) × ((c.ports p).mode ≡ 1)

-- A step keeps the configuration, the descriptors, the times of the last writes, and the input side.
pub record SameSetup (g g' : Gateway) : Type 0 where
  pub config : g'.config ≡ g.config
  pub fds : g'.fds ≡ g.fds
  pub last_write : g'.last_write ≡ g.last_write
  pub input : KeepsInput g g'

-- A step changes the frame of one port at most.
pub record Touches (p : Port) (g g' : Gateway) : Type 0 where
  pub setup : SameSetup g g'
  pub other : (q : Port) → q ≢ p → g'.dmx_out q ≡ g.dmx_out q

pub set_port_self {ℓ} : {A : Type ℓ} (f : Port → A) (p : Port) (v : A) → set_port f p v p ≡ v
set_port_self f port0 v = refl
set_port_self f port1 v = refl

pub set_port_other {ℓ} :
    {A : Type ℓ} (f : Port → A) (p q : Port) (v : A) → q ≢ p → set_port f p v q ≡ f q
set_port_other f port0 port0 v h = absurd (h refl)
set_port_other f port0 port1 v h = refl
set_port_other f port1 port0 v h = refl
set_port_other f port1 port1 v h = absurd (h refl)

SameSetup-trans : {g h k : Gateway} → SameSetup g h → SameSetup h k → SameSetup g k
SameSetup-trans a b = record {
  config = b.config ∙ a.config;
  fds = b.fds ∙ a.fds;
  last_write = b.last_write ∙ a.last_write;
  input = KeepsInput-trans a.input b.input;
}

-- A rule for the old and the new frame of a port.
abbrev pub Rule : Type 1
Rule = NodeConfig → Port → DmxFrame → DmxFrame → Type 0

-- The step runs, touches one port, and keeps to the rule there.
abbrev pub Effect : Rule → Port → Gateway → Option Gateway → Type 0
Effect R p g r =
    (g' : Gateway) × (r ≡ some g') × Touches p g g' × R g.config p (g.dmx_out p) (g'.dmx_out p)

module _ (R : Rule) (p : Port) (g : Gateway) where
  pub Effect-keep :
      (k : ℕ)
      → R g.config p (g.dmx_out p) (g.dmx_out p)
      → Effect R p g (some (record g { clock_calls = k }))
  Effect-keep k h = (
    _,
    refl,
    record {
      setup = record {
        config = refl;
        fds = refl;
        last_write = refl;
        input = KeepsInput-same refl refl refl;
      };
      other = λ q h. refl;
    },
    h,
  )

  pub Effect-put :
      (f : DmxFrame) (k : ℕ)
      → R g.config p (g.dmx_out p) f
      → Effect R p g (some (record g { dmx_out = set_port g.dmx_out p f; clock_calls = k }))
  Effect-put f k h = (
    _,
    refl,
    record {
      setup = record {
        config = refl;
        fds = refl;
        last_write = refl;
        input = KeepsInput-same refl refl refl;
      };
      other = λ q h. set_port_other g.dmx_out p q f h;
    },
    subst (R g.config p (g.dmx_out p)) (sym (set_port_self g.dmx_out p f)) h,
  )

  pub Effect-if :
      (b : Bool) (r r' : Option Gateway)
      → (b ≡ true → Effect R p g r)
      → (b ≡ false → Effect R p g r')
      → Effect R p g (if b then r else r')
  Effect-if true r r' x y = x refl
  Effect-if false r r' x y = y refl

-- A loop whose body keeps to the rule at its port does so at every port.
pub for_ports-Effect :
    (R : Rule) (body : Port → Gateway → Option Gateway)
    → ((p : Port) (g : Gateway) → Effect R p g (body p g))
    → (g : Gateway)
    → (g' : Gateway) × (for_ports body g ≡ some g')
      × SameSetup g g'
      × ((p : Port) → R g.config p (g.dmx_out p) (g'.dmx_out p))
unfolding for_ports
for_ports-Effect R body step g =
    let (g₁, run₁, t₁, rule₁) = step port0 g in
    let (g₂, run₂, t₂, rule₂) = step port1 g₁ in
    (g₂, rw (run₁, run₂), SameSetup-trans t₁.setup t₂.setup, rules g₁ g₂ t₁ t₂ rule₁ rule₂)
  where
    rules :
        (g₁ g₂ : Gateway)
        → Touches port0 g g₁
        → Touches port1 g₁ g₂
        → R g.config port0 (g.dmx_out port0) (g₁.dmx_out port0)
        → R g₁.config port1 (g₁.dmx_out port1) (g₂.dmx_out port1)
        → (p : Port) → R g.config p (g.dmx_out p) (g₂.dmx_out p)
    rules g₁ g₂ t₁ t₂ rule₁ rule₂ port0 = rw (t₂.other port0 (cc)) rule₁
    rules g₁ g₂ t₁ t₂ rule₁ rule₂ port1 = rw (← t₁.setup.config, ← t₁.other port1 (cc)) rule₂

pub fits-memcpy :
    (out : DmxFrame) (dmx_data : Array 512) (len : ℕ)
    → len ≤ 512
    → memcpy 512 out.channels 0 512 dmx_data 0 len ≡ some (copied out.channels 0 dmx_data 0 len)
fits-memcpy out dmx_data len h =
    memcpy_within 512 out.channels 0 512 dmx_data 0 len (omega arith) (omega arith)
