-- ===== src/Network.antt =====
-- internal/service/network/manager.go: the interfaces of the host, and the commands that change
-- them. What the net package answers is a parameter.
pub mod Outcomes
use mingyue_go.Base.{
  Bool, List, Option, String, Text, [], codes, contains_rune, if◌then◌else◌, none, some, text_eq, ℕ,
  ◌%◌, ◌++◌, ◌/◌, ◌==◌, ◌∷◌,
}
use mingyue_go.Errors.{
  GoError, OsError, app, wrapped, internal, not_found, os, lit, quoted, sys, Result, ok, err,
  Status, done,
}
use mingyue_go.Shell.{Runner, Shell, ran, audited}

-- net.Addr: an IPNet with the text of its address and the ones of its mask, an IPAddr with the
-- text of its address and whether To4 gives one, or any other type.
pub data NetAddr : Type 0 where
  ip_net : Text → ℕ → NetAddr
  ip_addr : Text → Bool → NetAddr
  other_addr : NetAddr

-- net.Interface; its addresses, none where Addrs fails.
pub record NetInterface : Type 0 where
  pub name : Text
  pub index : ℕ
  pub mtu : ℕ
  pub hardware_addr : Text
  pub flags : ℕ
  pub addrs : Option (List NetAddr)

-- domain.NetworkAddress of internal/domain/network.go
pub record NetworkAddress : Type 0 where
  pub ip : Text
  pub prefix : ℕ
  pub family : Text

-- domain.NetworkInterface of internal/domain/network.go
pub record NetworkInterface : Type 0 where
  pub name : Text
  pub index : ℕ
  pub flags : List Text
  pub mtu : ℕ
  pub hardware_addr : Text
  pub addresses : List NetworkAddress

-- net.FlagUp to net.FlagMulticast, with the names that the program gives them
abbrev known_flags : List (ℕ × Text)
known_flags =
    (1, codes "UP")
    ∷ (2, codes "BROADCAST")
    ∷ (4, codes "LOOPBACK")
    ∷ (8, codes "POINTTOPOINT")
    ∷ (16, codes "MULTICAST")
    ∷ []

-- The loop of flagStrings; f&k.flag != 0 for a flag that is one bit.
abbrev flags_among : ℕ → List (ℕ × Text) → List Text
flags_among f [] = []
flags_among f (k ∷ ks) =
    let rest = flags_among f ks in if f / k.0 % 2 == 1 then k.1 ∷ rest else rest

-- flagStrings
unfoldable pub flag_strings : ℕ → List Text
flag_strings f = flags_among f known_flags

-- The family that parseNetAddr tells from the text of an address
abbrev family_of : Text → Text
family_of ip = if contains_rune ip b':' then codes "ipv6" else codes "ipv4"

-- parseNetAddr
unfoldable pub parse_net_addr : NetAddr → Option NetworkAddress
unfolding contains_rune
parse_net_addr (ip_net ip ones) = some (record { ip = ip; prefix = ones; family = family_of ip })
parse_net_addr (ip_addr ip is_four) =
    some (record { ip = ip; prefix = if is_four then 32 else 128; family = family_of ip })
parse_net_addr other_addr = none

-- The loop over the addresses of an interface
unfoldable pub parse_addrs : List NetAddr → List NetworkAddress
unfolding parse_net_addr
parse_addrs [] = []
parse_addrs (a ∷ rest) =
    let more = parse_addrs rest in elim (parse_net_addr a) [ none ↦ more | some na ↦ na ∷ more ]

unfoldable pub network_interface : NetInterface → NetworkInterface
unfolding flag_strings parse_addrs
network_interface iface = record {
  name = iface.name;
  index = iface.index;
  flags = flag_strings iface.flags;
  mtu = iface.mtu;
  hardware_addr = iface.hardware_addr;
  addresses = elim iface.addrs [ none ↦ [] | some addrs ↦ parse_addrs addrs ];
}

unfoldable pub network_interfaces : List NetInterface → List NetworkInterface
unfolding network_interface
network_interfaces [] = []
network_interfaces (i ∷ is) = network_interface i ∷ network_interfaces is

-- ListInterfaces, where `answer` is what net.Interfaces returns
unfoldable pub list_interfaces : Result (List NetInterface) → Result (List NetworkInterface)
unfolding network_interfaces
list_interfaces answer = elim answer [
  | err e ↦ err (wrapped internal (lit "failed to list network interfaces" ∷ []) e)
  | ok ifaces ↦ ok (network_interfaces ifaces)
]

-- The loop of GetInterface
unfoldable pub find_interface : Text → List NetworkInterface → Option NetworkInterface
unfolding text_eq
find_interface name [] = none
find_interface name (i ∷ is) =
    let rest = find_interface name is in if text_eq i.name name then some i else rest

-- GetInterface
unfoldable pub get_interface : Result (List NetInterface) → Text → Result NetworkInterface
unfolding list_interfaces find_interface
get_interface answer name = elim (list_interfaces answer) [
  | err e ↦ err e
  | ok ifaces ↦ elim (find_interface name ifaces) [
    | some i ↦ ok i
    | none ↦ err (app not_found (lit "interface " ∷ quoted name ∷ lit " not found" ∷ []))
  ]
]

abbrev pub link_command : Text → Text → List Text
link_command name direction = codes "ip" ∷ codes "link" ∷ codes "set" ∷ name ∷ direction ∷ []

abbrev set_link : Text → String → Runner → Text → Text → Shell → Status × Shell
set_link direction piece run name source s = elim (run (link_command name direction)).1 [
  | some e ↦
      audited source (codes "network.link." ++ direction) name
        (err (
          wrapped internal (lit "failed to bring interface " ∷ quoted name ∷ lit piece ∷ [])
            (os e)))
        (some internal) (ran (link_command name direction) s)
  | none ↦
      audited source (codes "network.link." ++ direction) name done none
        (ran (link_command name direction) s)
]

-- SetLinkUp
unfoldable pub set_link_up : Runner → Text → Text → Shell → Status × Shell
set_link_up = set_link (codes "up") " up"

-- SetLinkDown
unfoldable pub set_link_down : Runner → Text → Text → Shell → Status × Shell
set_link_down = set_link (codes "down") " down"

abbrev pub dhclient_command : Text → List Text
dhclient_command name = codes "dhclient" ∷ name ∷ []

abbrev pub dhcpcd_command : Text → List Text
dhcpcd_command name = codes "dhcpcd" ∷ name ∷ []

abbrev renewal_failed : Text → OsError → OsError → GoError
renewal_failed name e f =
    wrapped internal
      (lit "failed to renew DHCP on "
        ∷ quoted name
        ∷ lit ": dhclient: "
        ∷ sys e
        ∷ lit "; dhcpcd: "
        ∷ sys f
        ∷ [])
      (os e)

-- RenewDHCP
unfoldable pub renew_dhcp : Runner → Text → Text → Shell → Status × Shell
renew_dhcp run name source s = elim (run (dhclient_command name)).1 [
  | none ↦
      audited source (codes "network.dhcp.renew") name done none (ran (dhclient_command name) s)
  | some e ↦ elim (run (dhcpcd_command name)).1 [
    | none ↦
        audited source (codes "network.dhcp.renew") name done none
          (ran (dhcpcd_command name) (ran (dhclient_command name) s))
    | some f ↦
        audited source (codes "network.dhcp.renew") name (err (renewal_failed name e f))
          (some internal) (ran (dhcpcd_command name) (ran (dhclient_command name) s))
  ]
]
