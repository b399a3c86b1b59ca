-- ===== src/Tests/Networks.antt =====
-- Interfaces, DHCP and Samba users.
use mingyue_go.Base.{
  List, [], codes, false, if◌then◌else◌, none, refl, some, text_eq, trim_space, ◌++◌, ◌↔◌, ◌∷◌, ◌≡◌,
  ◌⊎◌,
}
use mingyue_go.Errors.{exit_status, done}
use mingyue_go.Shell.{Runner, Shell}
use mingyue_go.Network.{
  ip_addr, flag_strings, parse_net_addr, renew_dhcp, dhclient_command, dhcpcd_command,
}
use mingyue_go.Network.Outcomes.{renew_dhcp-Runner}
use mingyue_go.Share.Users.{UserCall, UserRunner, user_names, add_user, set_password, remove_call}
use mingyue_go.Share.Users.Secrets.{IsSecret, add_user-set_password}

flags : flag_strings 0x13 ≡ codes "UP" ∷ codes "BROADCAST" ∷ codes "MULTICAST" ∷ []
unfolding flag_strings
flags = refl

loopback :
    parse_net_addr (ip_addr (codes "::1") false)
    ≡ some (record { ip = codes "::1"; prefix = 128; family = codes "ipv6" })
unfolding parse_net_addr
loopback = refl

-- dhclient fails, dhcpcd works.
abbrev fallback : Runner
fallback command =
    if elim command [ [] ↦ false | c ∷ cs ↦ text_eq c (codes "dhclient") ]
    then ([], some (exit_status 2))
    else ([], none)

abbrev start : Shell
start = record { commands = []; journal = some [] }

renew_dhcp-Runner_example :
    ((renew_dhcp fallback (codes "eth0") (codes "cli") start).1.commands
      ≡ elim (fallback (dhclient_command (codes "eth0"))).1 [
        | none ↦ start.commands ++ dhclient_command (codes "eth0") ∷ []
        | some e ↦
            (start.commands ++ dhclient_command (codes "eth0") ∷ [])
            ++ dhcpcd_command (codes "eth0") ∷ []
      ])
    × (((renew_dhcp fallback (codes "eth0") (codes "cli") start).0 ≡ done) ↔ (
        ((fallback (dhclient_command (codes "eth0"))).1 ≡ none)
        ⊎ ((fallback (dhcpcd_command (codes "eth0"))).1 ≡ none)))
renew_dhcp-Runner_example = renew_dhcp-Runner fallback (codes "eth0") (codes "cli") start

users :
    user_names (codes "anna:1000:Anna" ∷ [] ∷ codes ":x" ∷ codes " ben " ∷ [])
    ≡ codes "anna" ∷ codes "ben" ∷ []
unfolding user_names
users = refl

abbrev accepting : UserRunner
accepting call = ([], none)

abbrev before : List UserCall
before = remove_call (codes "ben") ∷ []

add_user-set_password_example :
    IsSecret (add_user accepting) (codes "anna") (codes "one") (codes "two") before
    × IsSecret (set_password accepting) (codes "anna") (codes "one") (codes "two") before
unfolding trim_space
add_user-set_password_example =
    add_user-set_password accepting (codes "anna") (codes "one") (codes "two") before
      (λ command a b. refl) refl refl
