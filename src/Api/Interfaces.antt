-- ===== src/Api/Interfaces.antt =====
-- internal/api/network.go.
use mingyue_go.Base.{
  Bool, List, Text, [], codes, false, is_empty, not, split_n, text_eq, trim_prefix, ◌∷◌,
}
use mingyue_go.Auth.{admin}
use mingyue_go.Network.{list_interfaces, get_interface, set_link_up, set_link_down, renew_dhcp}
use mingyue_go.Api.System.{Env, interface_list, interface, ApiHandler, on_shell}
use mingyue_go.Api.Dispatch.{
  choose, reject_if, parsed, only, with_role, by_method, answer, confirm, page_not_found,
  get_method, put_method,
}

module _ {W T : Type 0} (env : Env W T) where
  -- networkInterfacesHandler
  unfoldable pub network_interfaces_handler : ApiHandler W T
  network_interfaces_handler =
      only get_method (λ r role s. (answer interface_list (list_interfaces env.interfaces), s))

  abbrev run_action : Text → Text → ApiHandler W T
  run_action name action =
      choose (text_eq action (codes "up"))
        (λ r role s. confirm 204 (on_shell (set_link_up env.run name r.remote_addr) s))
        (choose (text_eq action (codes "down"))
          (λ r role s. confirm 204 (on_shell (set_link_down env.run name r.remote_addr) s))
          (reject_if (not (text_eq action (codes "dhcp")))
            "action must be \"up\", \"down\", or \"dhcp\""
            (λ r role s. confirm 204 (on_shell (renew_dhcp env.run name r.remote_addr) s))))

  -- The case of GET
  abbrev pub get_named : Text → ApiHandler W T
  get_named name r role s = (answer interface (get_interface env.interfaces name), s)

  -- The case of PUT
  unfoldable pub put_named : Text → ApiHandler W T
  put_named name =
      with_role admin "admin role required"
        (parsed (λ r. env.codecs.decode_action r.body) "invalid JSON body" (run_action name))

  abbrev pub on_interface : Text → ApiHandler W T
  on_interface name = by_method ((get_method, get_named name) ∷ (put_method, put_named name) ∷ [])

  -- The parts of a path: the name, and whether more than "" follows it
  abbrev split_name : List Text → Text × Bool
  split_name [] = ([], false)
  split_name (name ∷ []) = (name, false)
  split_name (name ∷ extra ∷ more) = (name, not (is_empty extra))

  abbrev pub named : Text × Bool → ApiHandler W T
  named (name, extra) =
      reject_if (is_empty name) "interface name is required"
        (choose extra (λ r role s. (page_not_found, s)) (on_interface name))

  -- networkInterfaceDispatchHandler
  unfoldable pub network_interface_dispatch_handler : ApiHandler W T
  network_interface_dispatch_handler r role s =
      named (split_name (split_n b'/' 2 (trim_prefix r.path (codes "/api/v1/network/interfaces/"))))
        r role s
