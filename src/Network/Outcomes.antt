-- ===== src/Network/Outcomes.antt =====
-- Manager of internal/service/network/manager.go: which interface, which command, which event.
use mingyue_go.Base.{
  List, Option, Text, [], arith, if◌then◌else◌, none, refl, some, text_eq, ◌++◌, ◌↔◌, ◌∷◌, ◌≡◌, ◌⊎◌,
}
use mingyue_go.Errors.{done}
use mingyue_go.Shell.{Runner, Shell}
use mingyue_go.Network.{
  NetInterface, find_interface, network_interface, network_interfaces, dhclient_command,
  dhcpcd_command, renew_dhcp,
}

-- The first interface of that name, as the net package lists them.
pub first_named : Text → List NetInterface → Option NetInterface
unfolding text_eq
first_named name [] = none
first_named name (i ∷ is) =
    let rest = first_named name is in if text_eq i.name name then some i else rest

find_interface-first_named :
    (name : Text) (is : List NetInterface)
    → find_interface name (network_interfaces is)
      ≡ elim (first_named name is) [ none ↦ none | some i ↦ some (network_interface i) ]
unfolding find_interface first_named network_interfaces network_interface
find_interface-first_named name [] = refl
find_interface-first_named name (i ∷ is) = ground (arith, find_interface-first_named name is)

-- RenewDHCP succeeds exactly where dhclient or, after it, dhcpcd does; the second runs only where
-- the first failed.
pub renew_dhcp-Runner :
    (run : Runner) (name source : Text) (s : Shell)
    → ((renew_dhcp run name source s).1.commands ≡ elim (run (dhclient_command name)).1 [
      | none ↦ s.commands ++ dhclient_command name ∷ []
      | some e ↦ (s.commands ++ dhclient_command name ∷ []) ++ dhcpcd_command name ∷ []
    ])
      × (((renew_dhcp run name source s).0 ≡ done)
          ↔ (((run (dhclient_command name)).1 ≡ none) ⊎ ((run (dhcpcd_command name)).1 ≡ none)))
unfolding renew_dhcp
renew_dhcp-Runner run name source s = ground arith
