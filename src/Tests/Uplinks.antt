-- ===== src/Tests/Uplinks.antt =====
-- The detection of the uplink on a concrete host with one interface and a DHCP lease.
use install_mikrotik_chr_scr.Common.{true, false, [], ◌∷◌, none, some, decoded}
use install_mikrotik_chr_scr.Common.Text.{text, same}
use install_mikrotik_chr_scr.Common.Int.{pos}
use install_mikrotik_chr_scr.Network.Address.{NetTools}
use install_mikrotik_chr_scr.Network.Routes.{Route, AddressInfo}
use install_mikrotik_chr_scr.Network.Plan.{no_plan}
use install_mikrotik_chr_scr.Network.Detect.{NetworkHost}
use install_mikrotik_chr_scr.Tests.Plans.{any_text}

abbrev plain_tools : NetTools any_text
plain_tools = record {
  with_zone = λ z a. a;
  show_addr = λ a. a;
  same_addr = same;
  is_loopback = λ a. same a (text "127.0.0.53");
  is_unspecified = λ a. false;
  is_single = λ a. false;
  covers = λ p a. true;
  show_mac = λ m. text "52:54:00:12:34:56";
}

abbrev default_route : Route
default_route = record {
  destination = text "default";
  gateway = text "10.0.2.2";
  device = text "eth0";
  protocol = text "dhcp";
  scope = [];
  metric = pos 100;
  flags = [];
}

abbrev local_route : Route
local_route = record {
  destination = text "10.0.2.0/24";
  gateway = [];
  device = text "eth0";
  protocol = text "kernel";
  scope = text "link";
  metric = pos 0;
  flags = [];
}

abbrev gateway_route : Route
gateway_route = record local_route { destination = text "10.0.2.2"; protocol = text "dhcp" }

abbrev dynamic_address : AddressInfo
dynamic_address = record {
  family = text "inet";
  local = text "10.0.2.15";
  prefix_len = 24;
  scope = text "global";
  is_dynamic = true;
  protocol = [];
  temporary = false;
  deprecated = false;
}

abbrev uplink_host : NetworkHost
uplink_host = record {
  routes4 = decoded (default_route ∷ local_route ∷ gateway_route ∷ []);
  routes6 = decoded [];
  rules4 = decoded (pos 0 ∷ pos 32766 ∷ pos 32767 ∷ []);
  rules6 = decoded (pos 0 ∷ pos 32766 ∷ []);
  link = λ name. decoded (
      record {
        index = 2;
        mtu = 1500;
        master = [];
        address = text "52:54:00:12:34:56";
        link_type = text "ether";
        kind = [];
      }
      ∷ []);
  driver = λ name. record { resolved = some (text "virtio_net"); content = none };
  all_addresses = decoded ((text "lo", []) ∷ (text "eth0", dynamic_address ∷ []) ∷ []);
  addresses = λ name. decoded ((dynamic_address ∷ []) ∷ []);
  config_files = [];
  resolvectl = λ name. none;
  resolv_conf = some (text "nameserver 127.0.0.53" ∷ text "nameserver 1.1.1.1" ∷ []) ∷ [];
  probe = λ name mac. (record no_plan.dhcp_probe { attempted = true; offered = true }, none);
}
