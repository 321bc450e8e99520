-- ===== src/Network/Plan.antt =====
-- internal/network/detect.go: the addresses of the uplink, and the plans of the two families that
-- `Detect` makes of them. The texts of the messages are left out.
pub mod Modes
use install_mikrotik_chr_scr.Common.{
  ℕ, Bool, true, false, not, ◌&&◌, ◌||◌, List, [], ◌∷◌, ◌++◌, Option, none, some, ◌==◌,
  if◌then◌else◌, length, Answer, failed, garbled, decoded, Result, ok, err,
}
use install_mikrotik_chr_scr.Common.Text.{
  Bytes, text, same, is_empty, trim_space, to_lower, to_upper, same_fold, contains, has, sort_texts,
  decimal, canonical_driver,
}
use install_mikrotik_chr_scr.Common.Int.{ℤ}
use install_mikrotik_chr_scr.Model.{
  Severity, info, warning, blocker, Issue, note, Check, blocks_if, notes_if, issues_of, Evidence,
  verified, inferred, unset, DhcpProbe, Ipv4Plan, Ipv6Plan, NetworkPlan,
}
use install_mikrotik_chr_scr.Network.Address.{NetIp, NetTools}
use install_mikrotik_chr_scr.Network.Validate.{PlanError, before_byte, no_items, validate}
use install_mikrotik_chr_scr.Network.Routes.{
  Route, Family, v4, v6, select_default, has_flag, inspect_route_set, inspect_rules, AddressInfo,
  is_global, DriverFile, read_network_driver, inspect_additional_physical_uplinks,
}
use install_mikrotik_chr_scr.Network.Sources.{
  ConfigFile, SourceEvidence, inspect_configuration, detect_dns,
}

-- The global addresses, sorted into the four lists, and what the IPv6 protocols say.
pub record Addresses : Type 0 where
  pub v4_dynamic : List Bytes
  pub v4_static : List Bytes
  pub v6_dynamic : List Bytes
  pub v6_static : List Bytes
  pub v6_ra : Bool
  pub v6_dhcp : Bool

abbrev pub no_addresses : Addresses
no_addresses = record {
  v4_dynamic = [];
  v4_static = [];
  v6_dynamic = [];
  v6_static = [];
  v6_ra = false;
  v6_dhcp = false;
}

abbrev pub prefix_text : AddressInfo → Bytes
prefix_text a = a.local ++ b'/' ∷ decimal a.prefix_len

abbrev pub is_v4_dynamic : AddressInfo → Bool
is_v4_dynamic a = a.is_dynamic || same_fold a.protocol (text "dhcp")

abbrev pub add_v4 : AddressInfo → Addresses → Addresses
add_v4 a s =
    if is_v4_dynamic a
    then record s { v4_dynamic = s.v4_dynamic ++ prefix_text a ∷ [] }
    else record s { v4_static = s.v4_static ++ prefix_text a ∷ [] }

abbrev pub protocol_has : Bytes → AddressInfo → Bool
unfolding contains
protocol_has part a = contains part (to_lower a.protocol)

abbrev pub add_v6 : AddressInfo → Addresses → Addresses
add_v6 a s =
    let ra = protocol_has (text "ra") a in
    let dhcp = protocol_has (text "dhcp") a in
    if a.temporary
    then s
    else if a.is_dynamic || ra || dhcp
    then record s {
      v6_dynamic = s.v6_dynamic ++ prefix_text a ∷ [];
      v6_ra = s.v6_ra || ra;
      v6_dhcp = s.v6_dhcp || dhcp;
    }
    else record s { v6_static = s.v6_static ++ prefix_text a ∷ [] }

abbrev pub add_address : AddressInfo → Addresses → Addresses
add_address a s =
    if not (is_global a)
    then s
    else if same a.family (text "inet")
    then add_v4 a s
    else if same a.family (text "inet6")
    then add_v6 a s
    else s

unfoldable pub collect_addresses : List AddressInfo → Addresses → Addresses
collect_addresses [] s = s
collect_addresses (a ∷ as') s = collect_addresses as' (add_address a s)

unfoldable pub sort_addresses : Addresses → Addresses
unfolding sort_texts
sort_addresses s = record s {
  v4_dynamic = sort_texts s.v4_dynamic;
  v4_static = sort_texts s.v4_static;
  v6_dynamic = sort_texts s.v6_dynamic;
  v6_static = sort_texts s.v6_static;
}

-- A plan that nothing was written to.
abbrev pub no_v4 : Ipv4Plan
no_v4 = record {
  mode = [];
  addresses = [];
  gateway = [];
  gateway_on_link = false;
  use_peer_dns = false;
  evidence = unset;
}

abbrev pub no_v6 : Ipv6Plan
no_v6 = record {
  slaac = false;
  dhcp = false;
  addresses = [];
  gateway = [];
  gateway_on_link = false;
  use_peer_dns = false;
  evidence = unset;
}

abbrev pub no_plan : NetworkPlan
no_plan = record {
  interface_name = [];
  mac = [];
  driver = [];
  mtu = 0;
  ipv4 = no_v4;
  ipv6 = no_v6;
  dns = [];
  dhcp_probe = record {
    attempted = false;
    offered = false;
    address = [];
    server = [];
    message = [];
  };
  evidence = unset;
  sources = [];
}

-- The `switch` over the IPv4 addresses.
abbrev pub is_mixed : Addresses → Bool
is_mixed s = not (no_items s.v4_dynamic) && not (no_items s.v4_static)

abbrev pub v4_mode : Addresses → SourceEvidence → Ipv4Plan
v4_mode s e =
    if is_mixed s
    then no_v4
    else if not (no_items s.v4_dynamic)
    then record no_v4 {
      mode = text "dhcp";
      addresses = s.v4_dynamic;
      use_peer_dns = true;
      evidence = verified;
    }
    else if not (no_items s.v4_static)
    then record no_v4 { mode = text "static"; addresses = s.v4_static; evidence = verified }
    else if e.dhcp4
    then record no_v4 { mode = text "dhcp"; use_peer_dns = true; evidence = inferred }
    else record no_v4 { mode = text "none"; evidence = verified }

-- The evidence of the IPv6 plan: the three tests, of which the first that assigns wins.
abbrev pub is_default : Option Route → Bool
is_default none = false
is_default (some r) = true

abbrev pub only_dynamic : Addresses → Bool → Bool → Bool
only_dynamic s slaac dhcp = not (no_items s.v6_dynamic) && not slaac && not dhcp

abbrev pub default_has_ra : Option Route → Bool
unfolding contains
default_has_ra none = false
default_has_ra (some r) = contains (text "ra") (to_lower r.protocol)

abbrev pub v6_evidence : Addresses → SourceEvidence → Option Route → Bool → Bool → Evidence
v6_evidence s e default slaac dhcp =
    if only_dynamic s slaac dhcp
    then inferred
    else if not (no_items s.v6_static) || not (no_items s.v6_dynamic) || is_default default
    then verified
    else if dhcp && not e.lease6
    then inferred
    else verified

abbrev pub is_verified : Evidence → Bool
is_verified verified = true
is_verified _ = false

abbrev pub any_serious : List Issue → Bool
any_serious [] = false
any_serious (i ∷ is) = elim i.severity [ info ↦ any_serious is | warning ↦ true | blocker ↦ true ]

abbrev pub with_message : DhcpProbe × Option Bytes → DhcpProbe
with_message (p, none) = p
with_message (p, some m) = record p { message = m }

module _ (ip : NetIp) (tools : NetTools ip) where
  open ip use {Addr, parse_addr, is_link_local, parse_mac}
  open tools use {covers, show_mac}

  abbrev pub mac_text : Option Bytes → Bytes
  mac_text none = []
  mac_text (some m) = if length m == 6 then to_upper (show_mac m) else []

  -- `normalizeMAC`.
  abbrev pub normalize_mac : Bytes → Bytes
  normalize_mac value = mac_text (parse_mac (trim_space value))

  abbrev pub any_covers : List Bytes → Addr → Bool
  any_covers [] a = false
  any_covers (p ∷ ps) a = covers p a || any_covers ps a

  abbrev pub is_outside : Bytes → List Bytes → Option Addr → Bool
  is_outside gateway prefixes none = false
  is_outside gateway prefixes (some a) =
      not (is_link_local a) && not (any_covers prefixes a) && not (is_empty gateway)

  -- `gatewayOutside`.
  abbrev pub gateway_outside : Bytes → List Bytes → Bool
  gateway_outside gateway prefixes =
      is_outside gateway prefixes (parse_addr (trim_space (before_byte b'%' gateway)))

  abbrev pub plan_v4 : Addresses → SourceEvidence → Option Route → Ipv4Plan
  plan_v4 s e none = v4_mode s e
  plan_v4 s e (some r) = record (v4_mode s e) {
    gateway = r.gateway;
    gateway_on_link =
        has_flag r.flags (text "onlink") || gateway_outside r.gateway (s.v4_dynamic ++ s.v4_static);
  }

  abbrev pub with_gateway6 : Addresses → Option Route → Ipv6Plan → Ipv6Plan
  with_gateway6 s none plan = plan
  with_gateway6 s (some r) plan = record plan {
    gateway = r.gateway;
    gateway_on_link =
        has_flag r.flags (text "onlink") || gateway_outside r.gateway (s.v6_static ++ s.v6_dynamic);
  }

  unfoldable pub plan_v6 : Addresses → SourceEvidence → Option Route → Ipv6Plan
  plan_v6 s e default =
      let slaac = s.v6_ra || default_has_ra default in
      let dhcp = s.v6_dhcp || e.dhcp6 || e.lease6 in
      with_gateway6 s default (record no_v6 {
        slaac = slaac || only_dynamic s slaac dhcp;
        dhcp = dhcp;
        addresses = s.v6_static;
        use_peer_dns = dhcp;
        evidence = v6_evidence s e default slaac dhcp;
      })
