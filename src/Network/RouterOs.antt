-- ===== src/Network/RouterOs.antt =====
-- internal/network/routeros.go: the script that configures the installed system, as its lines.
pub mod Lines
use install_mikrotik_chr_scr.Common.{
  ℕ, Bool, true, false, not, ◌&&◌, ◌||◌, List, [], ◌∷◌, ◌++◌, Result, ok, err, ◌>>◌, if◌then◌else◌,
}
use install_mikrotik_chr_scr.Common.Text.{
  Bytes, text, same, is_empty, to_upper, sort_texts, decimal,
}
use install_mikrotik_chr_scr.Model.{NetworkPlan, Ipv4Plan, Ipv6Plan}
use install_mikrotik_chr_scr.Network.Address.{NetIp}
use install_mikrotik_chr_scr.Network.Validate.{PlanError, validate, before_byte, no_items}

-- What the script prints of `net` and `net/netip`: the text of the MAC, of the prefix and of the
-- address without its zone that a string parses to, those of the zero values if it does not parse,
-- and the address's zone and kind.
pub record Printer : Type 0 where
  pub mac_text : Bytes → Bytes
  pub prefix_text : Bytes → Bytes
  pub address_text : Bytes → Bytes
  pub has_zone : Bytes → Bool
  pub is_link_local : Bytes → Bool

abbrev pub ros_bool : Bool → Bytes
ros_bool true = text "yes"
ros_bool false = text "no"

-- The lines that do not depend on the plan, and those about the interface.
abbrev pub uplink_lines : List Bytes
uplink_lines =
    text ":local uplink [/interface/ethernet/find where mac-address=$targetMac]"
    ∷ text
        ":if ([:len $uplink] != 1) do={ :log error \"chr-install: uplink MAC not found or ambiguous\"; :error \"chr-install uplink mismatch\" }"
    ∷ text ":local uplinkName [/interface/ethernet/get $uplink name]"
    ∷ text ":log info (\"chr-install: applying network plan to \" . $uplinkName)"
    ∷ []

abbrev pub removal_lines : List Bytes
removal_lines =
    text "/ip/dhcp-client/remove [find where interface=$uplinkName]"
    ∷ text "/ip/address/remove [find where interface=$uplinkName and dynamic=no]"
    ∷ text "/ip/route/remove [find where comment=\"chr-install\"]"
    ∷ text "/ip/route/remove [find where dst-address=\"0.0.0.0/0\" and dynamic=no]"
    ∷ text "/ipv6/dhcp-client/remove [find where interface=$uplinkName]"
    ∷ text "/ipv6/address/remove [find where interface=$uplinkName and dynamic=no]"
    ∷ text "/ipv6/route/remove [find where comment=\"chr-install\"]"
    ∷ text "/ipv6/route/remove [find where dst-address=\"::/0\" and dynamic=no]"
    ∷ text ":delay 1s"
    ∷ []

abbrev pub comment : Bytes
comment = text " comment=\"chr-install\""

abbrev pub join_lines : List Bytes → Bytes
join_lines [] = []
join_lines (l ∷ ls) = l ++ b'\n' ∷ join_lines ls

abbrev pub join_servers : List Bytes → Bytes
join_servers [] = []
join_servers (s ∷ []) = s
join_servers (s ∷ t ∷ ss) = s ++ b',' ∷ join_servers (t ∷ ss)

abbrev pub scope_text : Bool → Bytes
scope_text true = text " target-scope=11"
scope_text false = []

module _ (out : Printer) where
  open out use {mac_text, prefix_text, address_text, has_zone, is_link_local}

  abbrev pub head_lines : NetworkPlan → List Bytes
  head_lines p =
      text ":delay 15s"
      ∷ (text ":local targetMac \"" ++ (to_upper (mac_text p.mac) ++ text "\""))
      ∷ uplink_lines

  abbrev pub mtu_line : NetworkPlan → Bytes
  mtu_line p = text "/interface/ethernet/set $uplink mtu=" ++ decimal p.mtu

  abbrev pub address4_lines : List Bytes → List Bytes
  address4_lines [] = []
  address4_lines (a ∷ as') =
      (text "/ip/address/add address="
        ++ (prefix_text a ++ (text " interface=$uplinkName" ++ comment)))
      ∷ address4_lines as'

  abbrev pub on_link4_lines : Ipv4Plan → List Bytes
  on_link4_lines p =
      if p.gateway_on_link
      then (text "/ip/route/add dst-address="
          ++ (p.gateway ++ (text "/32 gateway=$uplinkName scope=10" ++ comment)))
        ∷ []
      else []

  abbrev pub static4_lines : Ipv4Plan → List Bytes
  unfolding sort_texts
  static4_lines p =
      address4_lines (sort_texts p.addresses)
      ++ (on_link4_lines p
          ++ ((text "/ip/route/add dst-address=0.0.0.0/0 gateway="
                ++ (p.gateway ++ (scope_text p.gateway_on_link ++ comment)))
              ∷ []))

  abbrev pub ipv4_lines : Ipv4Plan → List Bytes
  ipv4_lines p =
      if same p.mode (text "dhcp")
      then (text "/ip/dhcp-client/add interface=$uplinkName add-default-route=yes use-peer-dns="
          ++ (ros_bool p.use_peer_dns ++ (text " use-peer-ntp=no disabled=no" ++ comment)))
        ∷ []
      else if same p.mode (text "static")
      then static4_lines p
      else []

  abbrev pub address6_lines : List Bytes → List Bytes
  address6_lines [] = []
  address6_lines (a ∷ as') =
      (text "/ipv6/address/add address="
        ++ (prefix_text a ++ (text " interface=$uplinkName advertise=no" ++ comment)))
      ∷ address6_lines as'

  -- The routes by the IPv6 gateway, whose zone is cut off.
  abbrev pub gateway6 : Ipv6Plan → Bytes
  gateway6 p = before_byte b'%' p.gateway

  abbrev pub is_recursive : Ipv6Plan → Bool
  is_recursive p = p.gateway_on_link && not (is_link_local (gateway6 p))

  abbrev pub on_link6_lines : Ipv6Plan → List Bytes
  on_link6_lines p =
      if is_recursive p
      then (text "/ipv6/route/add dst-address="
          ++ (gateway6 p ++ (text "/128 gateway=$uplinkName scope=10" ++ comment)))
        ∷ []
      else []

  abbrev pub default6_lines : Ipv6Plan → List Bytes
  default6_lines p =
      if is_link_local (gateway6 p)
      then (text ":local ipv6Gateway (\"" ++ (gateway6 p ++ text "%\" . $uplinkName)"))
        ∷ (text "/ipv6/route/add dst-address=::/0 gateway=$ipv6Gateway" ++ comment)
        ∷ []
      else (text "/ipv6/route/add dst-address=::/0 gateway="
          ++ (gateway6 p ++ (scope_text (is_recursive p) ++ comment)))
        ∷ []

  abbrev pub route6_lines : Ipv6Plan → List Bytes
  route6_lines p = if is_empty p.gateway then [] else on_link6_lines p ++ default6_lines p

  abbrev pub dhcp6_lines : Ipv6Plan → List Bytes
  dhcp6_lines p =
      if p.dhcp
      then (text
            "/ipv6/dhcp-client/add interface=$uplinkName request=address add-default-route=yes use-peer-dns="
          ++ (ros_bool p.use_peer_dns ++ (text " disabled=no" ++ comment)))
        ∷ []
      else []

  abbrev pub ipv6_lines : Ipv6Plan → List Bytes
  unfolding sort_texts
  ipv6_lines p =
      (text "/ipv6/settings/set accept-router-advertisements=" ++ ros_bool p.slaac)
      ∷ (dhcp6_lines p ++ (address6_lines (sort_texts p.addresses) ++ route6_lines p))

  -- `dnsExpression`: the parts joined by ` . `.
  abbrev pub server_part : Bytes → Bytes
  server_part s =
      if has_zone s
      then text "\"" ++ (address_text s ++ text "%\" . $uplinkName")
      else text "\"" ++ (address_text s ++ text "\"")

  abbrev pub more_parts : List Bytes → Bytes
  more_parts [] = []
  more_parts (s ∷ ss) = text " . \",\" . " ++ (server_part s ++ more_parts ss)

  abbrev pub dns_expression : List Bytes → Bytes
  dns_expression [] = []
  dns_expression (s ∷ ss) = server_part s ++ more_parts ss

  abbrev pub any_zoned : List Bytes → Bool
  any_zoned [] = false
  any_zoned (s ∷ ss) = has_zone s || any_zoned ss

  abbrev pub server_lines : List Bytes → List Bytes
  server_lines ss =
      if any_zoned ss
      then (text ":local dnsServers (" ++ (dns_expression ss ++ text ")"))
        ∷ text "/ip/dns/set servers=$dnsServers"
        ∷ []
      else (text "/ip/dns/set servers=\"" ++ (join_servers ss ++ text "\"")) ∷ []

  abbrev pub dns_lines : List Bytes → List Bytes
  unfolding sort_texts
  dns_lines ss =
      if no_items ss then text "/ip/dns/set servers=\"\"" ∷ [] else server_lines (sort_texts ss)

  pub script_lines : NetworkPlan → List Bytes
  script_lines p =
      head_lines p
      ++ (mtu_line p ∷ removal_lines
          ++ (ipv4_lines p.ipv4
              ++ (ipv6_lines p.ipv6
                  ++ (dns_lines p.dns
                      ++ (text ":log info \"chr-install: network plan applied\"" ∷ [])))))

  -- `RouterOSScript`.
  unfoldable pub router_os_script : NetIp → NetworkPlan → Result PlanError Bytes
  unfolding validate
  router_os_script ip p = validate ip p >> ok (join_lines (script_lines p))
