-- ===== src/Network/Detect/Uplink.antt =====
-- What a network detection without a blocker has found.
use install_mikrotik_chr_scr.Common.{
  ◌≡◌, ◌⊎◌, ◌∈◌, true, false, List, [], ◌∷◌, Option, some, decoded,
}
use install_mikrotik_chr_scr.Common.Text.{Bytes, text, same, is_empty}
use install_mikrotik_chr_scr.Model.{verified, NetworkPlan}
use install_mikrotik_chr_scr.Network.Address.{NetIp, NetTools}
use install_mikrotik_chr_scr.Network.Validate.Spec.{IsValidPlan}
use install_mikrotik_chr_scr.Network.Routes.{
  Route, Family, v4, v6, is_default_route, is_automatic, is_gateway_host_route,
}
use install_mikrotik_chr_scr.Network.Routes.Kept.{
  SameHop, OnDevice, IsKept, AllKernelPriorities, IsAlone,
}
use install_mikrotik_chr_scr.Network.Detect.Leased.{HasOffer, HasLeaseFile}
use install_mikrotik_chr_scr.Network.Detect.{
  Link, NetworkHost, supported_network_driver, has_master, link_plan,
}

module _ (ip : NetIp) (tools : NetTools ip) (h : NetworkHost) where
  -- Each route of the family is a default route by the plan's gateway, or is set up by the kernel, or
  -- leads to that gateway, and none leaves the uplink.
  pub record FollowsPlan (family : Family) (interface gateway : Bytes) (routes : List Route)
      : Type 0 where
    pub defaults :
        (r : Route)
        → r ∈ routes
        → is_default_route r.destination ≡ true
        → OnDevice interface r × (r.gateway ≡ gateway)
    pub others :
        (r : Route)
        → r ∈ routes
        → is_default_route r.destination ≡ false
        → is_automatic family r ≡ false
        → OnDevice interface r × (is_gateway_host_route ip tools r.destination gateway ≡ true)

  pub record IsUplink (p : NetworkPlan) : Type 0 where
    pub named : is_empty p.interface_name ≡ false
    pub routes4 : List Route
    pub routes6 : List Route
    pub read4 : h.routes4 ≡ decoded routes4
    pub read6 : h.routes6 ≡ decoded routes6
    pub follows4 : FollowsPlan v4 p.interface_name p.ipv4.gateway routes4
    pub follows6 : FollowsPlan v6 p.interface_name p.ipv6.gateway routes6
    pub rules : AllKernelPriorities h.rules4 × AllKernelPriorities h.rules6
    pub alone : IsAlone h.driver p.interface_name h.all_addresses
    pub driven : supported_network_driver p.driver ≡ true
    pub plain :
        (l : Link) × (h.link p.interface_name ≡ decoded (l ∷ []))
        × (has_master l.master ≡ false)
        × (is_empty l.kind ≡ true)
    pub verified4 : p.ipv4.evidence ≡ verified
    pub leased :
        same p.ipv4.mode (text "dhcp") ≡ true
        → HasOffer ip tools h p.interface_name p.mac
          ⊎ HasLeaseFile ip tools h p.interface_name p.mac
    pub valid : IsValidPlan ip p

  -- What is known of the plan when the routes have been inspected.
  record Routed (interface : Bytes) (d4 d6 : Option Route) : Type 0 where
    named : is_empty interface ≡ false
    routes4 : List Route
    routes6 : List Route
    read4 : h.routes4 ≡ decoded routes4
    read6 : h.routes6 ≡ decoded routes6
    hops4 : (r : Route) → r ∈ routes4 → is_default_route r.destination ≡ true → SameHop d4 r
    hops6 : (r : Route) → r ∈ routes6 → is_default_route r.destination ≡ true → SameHop d6 r
    kept4 : (r : Route) → r ∈ routes4 → IsKept ip tools v4 interface d4 r
    kept6 : (r : Route) → r ∈ routes6 → IsKept ip tools v6 interface d6 r
    on4 : (d : Route) → d4 ≡ some d → OnDevice interface d
    on6 : (d : Route) → d6 ≡ some d → OnDevice interface d
    rules : AllKernelPriorities h.rules4 × AllKernelPriorities h.rules6

  module _ {interface : Bytes} {d4 d6 : Option Route} (r : Routed interface d4 d6) where
    abbrev linked : Link → NetworkPlan
    linked l = link_plan ip tools h interface l

    -- What the link leaves.
    record Linked (l : Link) : Type 0 where
      driven : supported_network_driver (linked l).driver ≡ true
      alone : IsAlone h.driver interface h.all_addresses
      plain :
          (h.link interface ≡ decoded (l ∷ []))
          × (has_master l.master ≡ false)
          × (is_empty l.kind ≡ true)
