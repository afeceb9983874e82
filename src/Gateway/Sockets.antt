-- ===== src/Gateway/Sockets.antt =====
-- The opening and closing of sockets: sacn_init, artnet_init and shownet_init of src/sacn/sacn.c,
-- src/artnet/artnet.c and src/shownet/shownet.c, and the begin and the end of `main` of src/main.c.
-- What `socket` and `bind` answer are arguments; the results of the other calls are not used.
pub mod Closes
use sn.Base.{
  ℕ, ◌==◌, Bool, true, false, List, [], ◌∷◌, ◌++◌, if◌then◌else◌, ℤ, pos, negsuc, failure,
  is_negative,
}
use sn.Common.{Port, port0, port1, NodeConfig, proto_sacn, proto_artnet, proto_shownet}
use sn.Sacn.{sacn_multicast_addr, sacn_port}
use sn.Sacn.Tx.{SacnTx}
use sn.Artnet.{artnet_port}
use sn.Gateway.{Gateway}
use sn.Gateway.Loop.{Sockets}

-- SO_REUSEADDR and SO_BROADCAST
pub data SocketOption : Type 0 where
  reuse_addr broadcast_on : SocketOption

-- A call of the system with what it answers or is given.
pub data Call : Type 0 where
  socket_call : ℤ → Call
  set_option : ℤ → SocketOption → Call
  bind_port : ℤ → ℕ → Call
  join_group : ℤ → ℕ → Call
  set_nonblocking : ℤ → Call
  close_call : ℤ → Call

abbrev pub shownet_port : ℕ
shownet_port = 2501

-- `sacn_init(universe)`: its result and its calls.
unfoldable pub sacn_init : ℤ → Bool → ℕ → ℤ × List Call
sacn_init sock bound universe =
    if is_negative sock
    then (failure, socket_call sock ∷ [])
    else if bound
    then (
      sock,
      socket_call sock
          ∷ set_option sock reuse_addr
          ∷ bind_port sock sacn_port
          ∷ join_group sock (sacn_multicast_addr universe)
          ∷ set_nonblocking sock
          ∷ [],
    )
    else (
      failure,
      socket_call sock
          ∷ set_option sock reuse_addr
          ∷ bind_port sock sacn_port
          ∷ close_call sock
          ∷ [],
    )

unfoldable pub artnet_init : ℤ → Bool → ℤ × List Call
artnet_init sock bound =
    if is_negative sock
    then (failure, socket_call sock ∷ [])
    else if bound
    then (
      sock,
      socket_call sock
          ∷ set_option sock reuse_addr
          ∷ bind_port sock artnet_port
          ∷ set_option sock broadcast_on
          ∷ [],
    )
    else (
      failure,
      socket_call sock
          ∷ set_option sock reuse_addr
          ∷ bind_port sock artnet_port
          ∷ close_call sock
          ∷ [],
    )

unfoldable pub shownet_init : ℤ → Bool → ℤ × List Call
shownet_init sock bound =
    if is_negative sock
    then (failure, socket_call sock ∷ [])
    else if bound
    then (
      sock,
      socket_call sock
          ∷ set_option sock reuse_addr
          ∷ set_option sock broadcast_on
          ∷ bind_port sock shownet_port
          ∷ [],
    )
    else (
      failure,
      socket_call sock
          ∷ set_option sock reuse_addr
          ∷ set_option sock broadcast_on
          ∷ bind_port sock shownet_port
          ∷ close_call sock
          ∷ [],
    )

abbrev no_sockets : Sockets
no_sockets = record { sacn_sock = failure; artnet_sock = failure; shownet_sock = failure }

-- The protocol socket that `main` opens.
unfoldable pub open_protocol : ℤ → Bool → NodeConfig → Sockets × List Call
open_protocol sock bound c =
    if c.active_protocol == proto_sacn
    then (let (fd, calls) = sacn_init sock bound (c.ports port0).universe in
        (record no_sockets { sacn_sock = fd }, calls))
    else if c.active_protocol == proto_artnet
    then (let (fd, calls) = artnet_init sock bound in
        (record no_sockets { artnet_sock = fd }, calls))
    else if c.active_protocol == proto_shownet
    then (let (fd, calls) = shownet_init sock bound in
        (record no_sockets { shownet_sock = fd }, calls))
    else (no_sockets, [])

-- `if (fd >= 0) close(fd)`: the descriptors that are closed.
abbrev pub cleanup : ℤ → List ℤ
cleanup fd = if is_negative fd then [] else fd ∷ []

abbrev pub sacn_cleanup : ℤ → List ℤ
sacn_cleanup sock_fd = cleanup sock_fd

abbrev pub artnet_cleanup : ℤ → List ℤ
artnet_cleanup sock_fd = cleanup sock_fd

abbrev pub shownet_cleanup : ℤ → List ℤ
shownet_cleanup sock_fd = cleanup sock_fd

-- The transmitter is not used after it.
abbrev pub sacn_tx_cleanup : SacnTx → List ℤ
sacn_tx_cleanup tx = cleanup tx.sock_fd

-- The descriptors of the ports that the shutdown closes.
abbrev pub one_port_fds : Gateway → Port → List ℤ
one_port_fds g p =
    (if g.sacn_tx_active p then sacn_tx_cleanup (g.sacn_tx p) else []) ++ cleanup (g.fds p)

unfoldable pub port_fds : Gateway → List ℤ
port_fds g = one_port_fds g port0 ++ one_port_fds g port1

abbrev pub closes : List ℤ → List Call
closes [] = []
closes (fd ∷ fds) = close_call fd ∷ closes fds

-- The end of `main`.
unfoldable pub shutdown : Sockets → Gateway → List Call
shutdown s g = closes (
    sacn_cleanup s.sacn_sock
    ++ (artnet_cleanup s.artnet_sock ++ (shownet_cleanup s.shownet_sock ++ port_fds g)))

abbrev pub same_fd : ℤ → ℤ → Bool
same_fd (pos a) (pos b) = a == b
same_fd (pos a) (negsuc b) = false
same_fd (negsuc a) (pos b) = false
same_fd (negsuc a) (negsuc b) = a == b

abbrev pub removed : ℤ → List ℤ → List ℤ
removed fd [] = []
removed fd (x ∷ xs) = let rest = removed fd xs in if same_fd x fd then rest else x ∷ rest

-- The descriptors that are open after the calls.
unfoldable pub open_after : List Call → List ℤ → List ℤ
open_after [] fds = fds
open_after (socket_call fd ∷ calls) fds =
    open_after calls (if is_negative fd then fds else fd ∷ fds)
open_after (set_option _ _ ∷ calls) fds = open_after calls fds
open_after (bind_port _ _ ∷ calls) fds = open_after calls fds
open_after (join_group _ _ ∷ calls) fds = open_after calls fds
open_after (set_nonblocking _ ∷ calls) fds = open_after calls fds
open_after (close_call fd ∷ calls) fds = open_after calls (removed fd fds)
