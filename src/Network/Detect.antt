-- ===== src/Network/Detect.antt =====
-- internal/network/detect.go: `Detect`, which finds the one uplink of the host and the plan that
-- preserves its configuration. The texts of the messages are left out.
pub mod Leased
pub mod Uplink
use install_mikrotik_chr_scr.Common.{
  ℕ, Bool, true, false, not, ◌&&◌, ◌||◌, List, [], ◌∷◌, ◌++◌, Option, none, some, ◌==◌,
  if◌then◌else◌, length, Answer, failed, garbled, decoded, Result, ok, err,
}
use install_mikrotik_chr_scr.Common.Text.{
  Bytes, text, same, is_empty, trim_space, to_lower, to_upper, same_fold, contains, has, sort_texts,
  decimal, canonical_driver,
}
use install_mikrotik_chr_scr.Common.Int.{ℤ}
use install_mikrotik_chr_scr.Model.{
  Severity, info, warning, blocker, Issue, note, Check, blocks_if, notes_if, issues_of, Evidence,
  verified, inferred, unset, DhcpProbe, Ipv4Plan, Ipv6Plan, NetworkPlan,
}
use install_mikrotik_chr_scr.Network.Address.{NetIp, NetTools}
use install_mikrotik_chr_scr.Network.Validate.{PlanError, before_byte, no_items, validate}
use install_mikrotik_chr_scr.Network.Routes.{
  Route, Family, v4, v6, select_default, has_flag, inspect_route_set, inspect_rules, AddressInfo,
  is_global, DriverFile, read_network_driver, inspect_additional_physical_uplinks,
}
use install_mikrotik_chr_scr.Network.Plan.{
  Addresses, no_addresses, collect_addresses, sort_addresses, no_plan, is_mixed, is_verified,
  any_serious, with_message, normalize_mac, plan_v4, plan_v6,
}
use install_mikrotik_chr_scr.Network.Sources.{
  ConfigFile, SourceEvidence, inspect_configuration, detect_dns,
}

-- A `link`; `master` is the JSON text of that field.
pub record Link : Type 0 where
  pub index : ℕ
  pub mtu : ℕ
  pub master : Bytes
  pub address : Bytes
  pub link_type : Bytes
  pub kind : Bytes

-- What the host answers: the commands, the files, and the DHCP probe with its error.
pub record NetworkHost : Type 0 where
  pub routes4 : Answer (List Route)
  pub routes6 : Answer (List Route)
  pub rules4 : Answer (List ℤ)
  pub rules6 : Answer (List ℤ)
  pub link : Bytes → Answer (List Link)
  pub driver : Bytes → DriverFile
  pub all_addresses : Answer (List (Bytes × List AddressInfo))
  pub addresses : Bytes → Answer (List (List AddressInfo))
  pub config_files : List ConfigFile
  pub resolvectl : Bytes → Option Bytes
  pub resolv_conf : List (Option (List Bytes))
  pub probe : Bytes → Bytes → DhcpProbe × Option Bytes

abbrev pub supported_network_driver : Bytes → Bool
supported_network_driver driver = has (canonical_driver driver) (
    text "virtio_net"
    ∷ text "virtio_pci"
    ∷ text "e1000"
    ∷ text "e1000e"
    ∷ text "vmxnet3"
    ∷ text "hv_netvsc"
    ∷ text "xen_netfront"
    ∷ text "vif"
    ∷ text "8139cp"
    ∷ text "8139too"
    ∷ [])

abbrev pub has_master : Bytes → Bool
has_master value = not (has (trim_space value) ([] ∷ text "null" ∷ text "0" ∷ text "\"\"" ∷ []))

abbrev pub refuses : Result PlanError (Unit {0}) → Bool
refuses (ok u) = false
refuses (err e) = true

-- The uplink that the default routes name, and whether they name two.
abbrev pub device_of : Option Route → Bytes
device_of none = []
device_of (some r) = r.device

abbrev pub is_multi_wan : Option Route → Option Route → Bool
is_multi_wan d4 none = false
is_multi_wan d4 (some r) = not (is_empty (device_of d4)) && not (same (device_of d4) r.device)

abbrev pub interface_of : Option Route → Option Route → Bytes
interface_of d4 none = device_of d4
interface_of d4 (some r) = if is_multi_wan d4 (some r) then device_of d4 else r.device

module _ (ip : NetIp) (tools : NetTools ip) (h : NetworkHost) where
  abbrev pub probed : Bytes → Option Bytes → DhcpProbe
  probed interface none = no_plan.dhcp_probe
  probed interface (some hardware) = with_message (h.probe interface hardware)

  abbrev pub link_plan : Bytes → Link → NetworkPlan
  link_plan interface l = record no_plan {
    interface_name = interface;
    mac = normalize_mac ip tools l.address;
    driver = read_network_driver (h.driver interface);
    mtu = l.mtu;
  }

  abbrev pub link_checks : NetworkPlan → Link → List Check
  link_checks p l =
      blocks_if (is_empty p.driver) (text "nic-driver")
      ∷ blocks_if (not (is_empty p.driver) && not (supported_network_driver p.driver))
          (text "nic-driver")
      ∷ blocks_if (has_master l.master || not (is_empty l.kind)) (text "complex-uplink")
      ∷ blocks_if (not (same l.link_type (text "ether")) && not (is_empty l.link_type))
          (text "uplink-type")
      ∷ blocks_if (is_empty p.mac) (text "uplink-mac")
      ∷ []

  -- The plan before the DHCP lease is looked at.
  abbrev pub address_plan :
      NetworkPlan → Option Route → Option Route → Addresses → SourceEvidence → NetworkPlan
  address_plan p d4 d6 s e = record p {
    sources = e.paths;
    ipv4 = plan_v4 ip tools s e d4;
    ipv6 = plan_v6 ip tools s e d6;
    dns = detect_dns ip tools p.interface_name (h.resolvectl p.interface_name) h.resolv_conf;
    dhcp_probe = probed p.interface_name (ip.parse_mac p.mac);
  }

  abbrev pub is_mode : NetworkPlan → Bytes → Bool
  is_mode p m = same p.ipv4.mode m

  abbrev pub has_lease : NetworkPlan → SourceEvidence → Bool
  has_lease p e = e.lease4 || p.dhcp_probe.offered

  abbrev pub address_checks : NetworkPlan → Addresses → SourceEvidence → List Check
  address_checks p s e =
      blocks_if (is_mixed s) (text "mixed-ipv4")
      ∷ notes_if (no_items p.dns && is_mode p (text "static") && not p.ipv6.dhcp) warning
          (text "dns")
      ∷ blocks_if (is_mode p (text "dhcp") && not (has_lease p e)) (text "dhcp-unverified")
      ∷ notes_if (is_mode p (text "static") && p.dhcp_probe.attempted && not p.dhcp_probe.offered)
          info (text "dhcp-absent")
      ∷ blocks_if (is_mode p (text "none") && no_items s.v6_static && no_items s.v6_dynamic)
          (text "network")
      ∷ []

  abbrev pub with_lease : NetworkPlan → SourceEvidence → Ipv4Plan
  with_lease p e =
      if is_mode p (text "dhcp") && has_lease p e
      then record p.ipv4 { evidence = verified }
      else p.ipv4

  abbrev pub overall : Ipv4Plan → Ipv6Plan → List Issue → Evidence
  overall p4 p6 is =
      if not (is_verified p4.evidence) || not (is_verified p6.evidence) || any_serious is
      then inferred
      else verified

  abbrev pub final_plan : NetworkPlan → SourceEvidence → List Issue → NetworkPlan
  final_plan p e is = record p {
    ipv4 = with_lease p e;
    evidence = overall (with_lease p e) p.ipv6 is;
  }

  -- The end of `Detect`.
  unfoldable pub conclude : NetworkPlan → List Issue → SourceEvidence → NetworkPlan × List Issue
  unfolding issues_of validate
  conclude p is e =
      let plan = final_plan p e is in
      (plan, is ++ issues_of (blocks_if (refuses (validate ip plan)) (text "network-plan") ∷ []))

  unfoldable pub with_addresses :
      NetworkPlan
      → ℕ
      → Option Route
      → Option Route
      → List Issue
      → Answer (List (List AddressInfo))
      → NetworkPlan × List Issue
  unfolding issues_of
  with_addresses p index d4 d6 is (decoded (infos ∷ [])) =
      let s = sort_addresses (collect_addresses infos no_addresses) in
      let e =
        inspect_configuration h.config_files p.interface_name index p.mac
          (s.v4_dynamic ++ s.v4_static) in
      let plan = address_plan p d4 d6 s e in
      conclude plan (is ++ issues_of (address_checks plan s e)) e
  with_addresses p index d4 d6 is _ = (p, is ++ note blocker (text "addresses") ∷ [])

  unfoldable pub with_link :
      Bytes
      → Option Route
      → Option Route
      → List Issue
      → Answer (List Link)
      → NetworkPlan × List Issue
  unfolding issues_of
  with_link interface d4 d6 is (decoded (l ∷ [])) =
      let p = link_plan interface l in
      with_addresses p l.index d4 d6
        (is
          ++ issues_of (link_checks p l)
          ++ inspect_additional_physical_uplinks h.driver interface h.all_addresses)
        (h.addresses interface)
  with_link interface d4 d6 is _ =
      (record no_plan { interface_name = interface }, is ++ note blocker (text "uplink") ∷ [])

  -- What follows the choice of the default routes.
  unfoldable pub with_defaults :
      List Route
      → List Route
      → Option Route × List Issue
      → Option Route × List Issue
      → NetworkPlan × List Issue
  unfolding issues_of
  with_defaults routes4 routes6 (d4, is4) (d6, is6) =
      let is = is4 ++ is6 ++ issues_of (blocks_if (is_multi_wan d4 d6) (text "multi-wan") ∷ []) in
      let interface = interface_of d4 d6 in
      if is_empty interface
      then (no_plan, is ++ note blocker (text "default-route") ∷ [])
      else with_link interface d4 d6
          (is
            ++ inspect_route_set ip tools routes4 d4 interface v4
            ++ inspect_route_set ip tools routes6 d6 interface v6
            ++ inspect_rules h.rules4 h.rules6)
          (h.link interface)

  abbrev pub with_routes : Answer (List Route) → Answer (List Route) → NetworkPlan × List Issue
  with_routes (decoded routes4) (decoded routes6) =
      with_defaults routes4 routes6 (select_default routes4) (select_default routes6)
  with_routes (decoded routes4) _ = (no_plan, note blocker (text "ipv6-routes") ∷ [])
  with_routes _ _ = (no_plan, note blocker (text "ipv4-routes") ∷ [])

  -- `Detect`.
  unfoldable pub detect : NetworkPlan × List Issue
  detect = with_routes h.routes4 h.routes6
