-- ===== src/Gateway/Loop/Life.antt =====
-- The whole run of the daemon, from the start to any later state.
use sn.Base.{
  List, Option, ℕ, ◌^◌, ◌<◌, ◌≡◌, refl, ap, sym, ◌∙◌, false, ◌==◌, Option, some, [], ℤ, is_negative,
  is_zero, AtMost, arith, Bool-cases, inl, inr,
}
use sn.Common.{Port, port0, port1, set_port, NodeConfig, dmx_mode_off, dmx_mode_rx}
use sn.Sacn.Tx.{SacnTx, sacn_tx_init}
use sn.Sacn.Rx.{RecvStats}
use sn.Gateway.{Env, Gateway}
use sn.Gateway.Handlers.{for_ports, signal_handler}
use sn.Gateway.Input.Safe.{IsWellFormed}
use sn.Gateway.Loop.{Sockets, Arrivals, Daemon, Fits, iteration, Runs, here, iterates, signalled}
use sn.Config.{config_load, config_defaults}
use sn.Config.Valid.{by_cases, config_defaults-IsValid, config_load-IsValid}
use sn.Gateway.Loop.Start.{load_config, Devices, initial, src_name, start_tx, start_port, start}
use sn.Gateway.Loop.Safe.{iteration-Safe}

-- The universes of the configuration have 16 bits.
abbrev pub HasUniverses : NodeConfig → Type 0
HasUniverses c = (p : Port) → (c.ports p).universe < 2 ^ 16

-- A state of the start.
record IsStarting (c : NodeConfig) (g : Gateway) : Type 0 where
  config : g.config ≡ c
  well_formed : IsWellFormed g

Starts : NodeConfig → Option Gateway → Type 0
Starts c r = (g' : Gateway) × (r ≡ some g') × IsStarting c g'

init_runs :
    (o : Devices) (p : Port) (universe : ℕ)
    → (rc : ℤ) × (tx : SacnTx) × (sacn_tx_init (o.socket p) universe (src_name p) ≡ some (rc, tx))
      × (tx.universe ≡ universe)
unfolding sacn_tx_init
init_runs o p universe = (_, _, refl, refl)

set_universe :
    (f : Port → SacnTx) (p : Port) (tx : SacnTx)
    → tx.universe < 2 ^ 16
    → ((q : Port) → (f q).universe < 2 ^ 16)
    → (q : Port) → (set_port f p tx q).universe < 2 ^ 16
set_universe f port0 tx h k port0 = h
set_universe f port0 tx h k port1 = k port1
set_universe f port1 tx h k port0 = k port0
set_universe f port1 tx h k port1 = h

start_tx_runs :
    (c : NodeConfig) (o : Devices) (p : Port) (g : Gateway)
    → HasUniverses c
    → IsStarting c g
    → Starts c (start_tx o p g)
unfolding start_tx Starts
start_tx_runs c o p g u w =
    let (rc, tx, run, same) = init_runs o p (g.config.ports p).universe in
    let small : tx.universe < 2 ^ 16 = rw (same, w.config) (u p) in
    let universes = set_universe g.sacn_tx p tx small w.well_formed.universe in
    elim (Bool-cases (is_zero rc)) [
      | inl ok ↦
          rw (run, ok)
            (
              _,
              refl,
              record {
                config = w.config;
                well_formed = record { length = w.well_formed.length; universe = universes };
              },
            )
      | inr bad ↦
          rw (run, bad)
            (
              _,
              refl,
              record {
                config = w.config;
                well_formed = record { length = w.well_formed.length; universe = universes };
              },
            )
    ]

with_fd :
    (c : NodeConfig) (p : Port) (fd : ℤ) (g : Gateway)
    → IsStarting c g
    → IsStarting c (record g { fds = set_port g.fds p fd })
with_fd c p fd g w = record {
  config = w.config;
  well_formed = record { length = w.well_formed.length; universe = w.well_formed.universe };
}

start_port_runs :
    (c : NodeConfig) (o : Devices) (p : Port) (g : Gateway)
    → HasUniverses c
    → IsStarting c g
    → Starts c (start_port o p g)
unfolding start_port
start_port_runs c o p g u w = elim (Bool-cases ((g.config.ports p).mode == dmx_mode_off)) [
  | inl off ↦ unfold Starts in rw off (_, refl, with_fd c p _ g w)
  | inr on ↦ elim (Bool-cases (is_negative (o.device p))) [
    | inl failed ↦ unfold Starts in rw (on, failed) (_, refl, with_fd c p _ g w)
    | inr fine ↦ elim (Bool-cases ((g.config.ports p).mode == dmx_mode_rx)) [
      | inr sends ↦ unfold Starts in rw (on, fine, sends) (_, refl, with_fd c p _ g w)
      | inl receives ↦
          rw (on, fine, receives)
            (start_tx_runs c o p (record g { fds = set_port g.fds p (o.device p) }) u
              (with_fd c p _ g w))
    ]
  ]
]

start_runs : (c : NodeConfig) (o : Devices) → HasUniverses c → Starts c (start c o)
unfolding start for_ports Starts
start_runs c o u =
    let w : IsStarting c (initial c) = record {
      config = refl;
      well_formed = record { length = λ _. omega arith; universe = λ _. omega arith };
    } in
    let (g₁, run₁, w₁) = start_port_runs c o port0 (initial c) u w in
    let (g₂, run₂, w₂) = start_port_runs c o port1 g₁ u w₁ in (g₂, rw (run₁, run₂) refl, w₂)

signal_keeps : (sig : ℕ) (g : Gateway) → IsWellFormed g → IsWellFormed (signal_handler sig g)
unfolding signal_handler
signal_keeps sig g w = elim (Bool-cases (sig == 15)) [
  | inl term ↦ rw term (record { length = w.length; universe = w.universe })
  | inr other ↦ rw other w
]

some-injective : {A : Type 0} (a b : A) → some a ≡ some b → a ≡ b
some-injective a b h = cc h

Runs-IsWellFormed :
    (e : Env) (s : Sockets) (d d' : Daemon)
    → ((k : ℕ) → AtMost (e.read_frame k).0 512)
    → Runs e s d d'
    → IsWellFormed d.gateway
    → IsWellFormed d'.gateway
Runs-IsWellFormed e s d d' reads (here _) w = w
Runs-IsWellFormed e s d d' reads (iterates {d₂ = d₂} a _ fits run rest) w =
    let (next, run', w', _) = iteration-Safe e s a d reads fits w in
    let same : next ≡ d₂ = cc (run, run') in Runs-IsWellFormed e s d₂ d' reads rest (rw (← same) w')
Runs-IsWellFormed e s d d' reads (signalled sig rest) w =
    Runs-IsWellFormed e s (record d { gateway = signal_handler sig d.gateway }) d' reads rest
      (signal_keeps sig d.gateway w)

-- For a configuration with 16-bit universes, the start runs with no fault whatever the devices and
-- sockets return; and at every state that the event loop comes to from there, under iterations and
-- signals in any order, the next iteration runs with no fault, if no receiving call and no read
-- ever gives more than it has room for.
pub start-Runs-iteration :
    (e : Env) (s : Sockets) (c : NodeConfig) (o : Devices) (stats : RecvStats)
    → HasUniverses c
    → ((k : ℕ) → AtMost (e.read_frame k).0 512)
    → (g : Gateway) × (start c o ≡ some g)
      × ((d : Daemon)
          → Runs e s (record { gateway = g; stats = stats; replies = [] }) d
          → (a : Arrivals) → Fits a
          → (d' : Daemon) × (iteration e s a d ≡ some d'))
unfolding Starts
start-Runs-iteration e s c o stats u reads =
    let (g, run, w) = start_runs c o u in
    (
      g,
      run,
      (λ d reached a fits.
          let w' =
            Runs-IsWellFormed e s (record { gateway = g; stats = stats; replies = [] }) d reads
              reached w.well_formed in
          let (d', run', _, _) = iteration-Safe e s a d reads fits w' in (d', run')),
    )

load_config-HasUniverses : (s : Option (List ℕ)) → HasUniverses (load_config s)
unfolding load_config
load_config-HasUniverses s p =
    let P : NodeConfig → Type 0 = λ c. (c.ports p).universe < 2 ^ 16 in
    by_cases P (is_negative (config_load s).0) config_defaults (config_load s).1
      (config_defaults-IsValid.in_range.0 p).universe
      ((config_load-IsValid s).in_range.0 p).universe

-- Whatever the configuration file holds, and if there is none, the daemon starts with no fault,
-- whatever the devices and sockets return; and at every state that the event loop comes to from
-- there, under iterations and signals in any order, the next iteration runs with no fault, if no
-- receiving call and no read ever gives more than it has room for.
pub load_config-Runs :
    (e : Env) (s : Sockets) (file : Option (List ℕ)) (o : Devices) (stats : RecvStats)
    → ((k : ℕ) → AtMost (e.read_frame k).0 512)
    → (g : Gateway) × (start (load_config file) o ≡ some g)
      × ((d : Daemon)
          → Runs e s (record { gateway = g; stats = stats; replies = [] }) d
          → (a : Arrivals) → Fits a
          → (d' : Daemon) × (iteration e s a d ≡ some d'))
load_config-Runs e s file o stats reads =
    start-Runs-iteration e s (load_config file) o stats (load_config-HasUniverses file) reads

signal_idle : (sig : ℕ) (g : Gateway) → g.running ≡ false → signal_handler sig g ≡ g
unfolding signal_handler
signal_idle sig g h = elim (Bool-cases (sig == 15)) [
  | inl term ↦ rw term (ap (λ b. record g { running = b }) (sym h))
  | inr other ↦ rw other refl
]

stays : (e : Env) (s : Sockets) (d d' : Daemon) → Runs e s d d' → d.gateway.running ≡ false → d' ≡ d
stays e s d d' (here _) h = refl
stays e s d d' (iterates a on _ _ _) h = absurd (cc (on, h))
stays e s d d' (signalled sig rest) h =
    let same = signal_idle sig d.gateway h in
    let still : (signal_handler sig d.gateway).running ≡ false = ap Gateway.running same ∙ h in
    stays e s (record d { gateway = signal_handler sig d.gateway }) d' rest still
    ∙ ap (λ g. record d { gateway = g }) same

-- After SIGTERM no iteration begins: every state that the loop still comes to is the one that the
-- signal left.
pub signal_handler-Runs :
    (e : Env) (s : Sockets) (d d' : Daemon)
    → Runs e s (record d { gateway = signal_handler 15 d.gateway }) d'
    → d' ≡ record d { gateway = signal_handler 15 d.gateway }
signal_handler-Runs e s d d' r =
    stays e s (record d { gateway = signal_handler 15 d.gateway }) d' r
      (unfold signal_handler in refl)
