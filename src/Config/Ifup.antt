-- ===== src/Config/Ifup.antt =====
-- src/config/config.c: the start script of the network interface. `fprintf` of src/oabi/minilib.c
-- formats into 512 bytes and writes what they hold.
use sn.Base.{
  ℕ, ◌-◌, ◌^◌, Bool, true, false, Option, none, some, List, [], ◌++◌, codes, ◌==◌, if◌then◌else◌, ℤ,
  success, failure,
}
use Prim.Native.Nat.{bit_and, bit_or}
use sn.Common.{NodeConfig, addr_mode_dhcp, addr_mode_dhcp_static}
use sn.Text.Format.{Arg, snprintf}
use sn.Config.Save.{ip_args}

-- What `fprintf(f, fmt, ...)` writes.
abbrev pub fprintf : List ℕ → List Arg → List ℕ
fprintf fmt args = snprintf 512 fmt args

abbrev pub network : NodeConfig → ℕ
network c = bit_and c.ip_addr c.netmask

-- `(ip & mask) | (~mask & 0xFFFFFFFF)`
abbrev pub broadcast : NodeConfig → ℕ
broadcast c = bit_or (network c) (2 ^ 32 - 1 - c.netmask)

-- `_ifup_static`
unfoldable pub ifup_static : NodeConfig → List ℕ
ifup_static c =
    fprintf (codes "/sbin/ifconfig eth0 %u.%u.%u.%u netmask %u.%u.%u.%u broadcast %u.%u.%u.%u up\n")
      (ip_args c.ip_addr ++ (ip_args c.netmask ++ ip_args (broadcast c)))
    ++ (fprintf (codes "/sbin/route add -net %u.%u.%u.%u netmask %u.%u.%u.%u eth0\n")
          (ip_args (network c) ++ ip_args c.netmask)
        ++ (if c.gateway == 0
            then []
            else fprintf (codes "/sbin/route add default gw %u.%u.%u.%u\n") (ip_args c.gateway)))

abbrev ifup_commands : NodeConfig → List ℕ
ifup_commands c =
    if c.addr_mode == addr_mode_dhcp
    then fprintf (codes "/sbin/pump -i eth0\n") []
    else if c.addr_mode == addr_mode_dhcp_static
    then fprintf (codes "/sbin/pump -i eth0 || {\n") []
      ++ (ifup_static c ++ fprintf (codes "}\n") [])
    else ifup_static c

-- `config_generate_ifup`: a code, and the script if the file opens.
unfoldable pub config_generate_ifup : NodeConfig → Bool → ℤ × Option (List ℕ)
config_generate_ifup c false = (failure, none)
config_generate_ifup c true = (
  success,
  some (
      fprintf (codes "#!/bin/sh\n") []
      ++ (fprintf (codes "/sbin/ifconfig eth0 down\n") [] ++ ifup_commands c)),
)
