-- ===== src/Network/Routes.antt =====
-- internal/network/detect.go: the routes, the routing rules and the other interfaces of the host, each
-- of which must leave a single uplink. The texts of the messages are left out.
pub mod Kept
use install_mikrotik_chr_scr.Common.{
  ℕ, zero, suc, ◌+◌, Bool, true, false, not, ◌&&◌, ◌||◌, List, [], ◌∷◌, ◌++◌, Option, none, some,
  ltb, leb, ◌==◌, if◌then◌else◌, Answer, failed, garbled, decoded,
}
use install_mikrotik_chr_scr.Common.Text.{
  Bytes, text, same, is_empty, trim_space, to_lower, same_fold, has, last_element,
}
use install_mikrotik_chr_scr.Common.Int.{ℤ, pos, negsuc, leb_ℤ}
use install_mikrotik_chr_scr.Model.{Severity, blocker, Issue, note, note_if}
use install_mikrotik_chr_scr.Network.Address.{NetIp, NetTools}

pub record Route : Type 0 where
  pub destination : Bytes
  pub gateway : Bytes
  pub device : Bytes
  pub protocol : Bytes
  pub scope : Bytes
  pub metric : ℤ
  pub flags : List Bytes

pub data Family : Type 0 where
  v4 v6 : Family

abbrev pub is_v6 : Family → Bool
is_v6 v4 = false
is_v6 v6 = true

abbrev pub is_default_route : Bytes → Bool
is_default_route d = same d (text "default") || same d (text "0.0.0.0/0") || same d (text "::/0")

abbrev pub default_routes : List Route → List Route
default_routes [] = []
default_routes (r ∷ rs) =
    let rest = default_routes rs in if is_default_route r.destination then r ∷ rest else rest

-- `sort.SliceStable` by the metric.
abbrev pub insert_route : Route → List Route → List Route
insert_route r [] = r ∷ []
insert_route r (x ∷ xs) =
    let rest = insert_route r xs in if leb_ℤ r.metric x.metric then r ∷ x ∷ xs else x ∷ rest

abbrev pub sort_routes : List Route → List Route
sort_routes [] = []
sort_routes (r ∷ rs) = insert_route r (sort_routes rs)

abbrev pub same_hop : Route → Route → Bool
same_hop r s = same r.device s.device && same r.gateway s.gateway

abbrev pub all_same_hop : Route → List Route → Bool
all_same_hop s [] = true
all_same_hop s (r ∷ rs) = same_hop r s && all_same_hop s rs

abbrev pub pick_default : List Route → Option Route × List Issue
pick_default [] = (none, [])
pick_default (r ∷ rs) =
    (some r, note_if (not (all_same_hop r rs)) blocker (text "multiple-defaults") [])

-- `selectDefault`, with its issue as a list.
unfoldable pub select_default : List Route → Option Route × List Issue
select_default routes = pick_default (sort_routes (default_routes routes))

abbrev pub has_flag : List Bytes → Bytes → Bool
has_flag [] expected = false
has_flag (f ∷ fs) expected = same_fold f expected || has_flag fs expected

-- A route that the kernel or a router sets up.
abbrev pub is_automatic : Family → Route → Bool
is_automatic family r =
    same (to_lower r.protocol) (text "kernel")
    || (is_v6 family && same (to_lower r.protocol) (text "ra"))

module _ (ip : NetIp) (tools : NetTools ip) where
  open ip use {Addr, parse_addr, parse_prefix}
  open tools use {with_zone, same_addr, is_single}

  abbrev pub single_host : Addr → Bytes → Option Addr → Bool
  single_host gateway destination none = false
  single_host gateway destination (some a) = is_single destination && same_addr a gateway

  abbrev pub host_of : Addr → Bytes → Option Addr → Bool
  host_of gateway destination none = single_host gateway destination (parse_prefix destination)
  host_of gateway destination (some a) = same_addr (with_zone [] a) gateway

  abbrev pub host_of_gateway : Bytes → Option Addr → Bool
  host_of_gateway destination none = false
  host_of_gateway destination (some gateway) =
      host_of (with_zone [] gateway) (trim_space destination) (parse_addr (trim_space destination))

  -- `isGatewayHostRoute`.
  abbrev pub is_gateway_host_route : Bytes → Bytes → Bool
  is_gateway_host_route destination gateway =
      host_of_gateway destination (parse_addr (trim_space gateway))

  abbrev pub reaches_gateway : Route → Option Route → Bool
  reaches_gateway r none = false
  reaches_gateway r (some d) = is_empty r.gateway && is_gateway_host_route r.destination d.gateway

  -- One round of the loop of `inspectRouteSet`.
  abbrev pub inspect_route : Option Route → Bytes → Family → Route → List Issue
  inspect_route default interface family r =
      if is_default_route r.destination || is_automatic family r
      then []
      else if not (is_empty r.device) && not (same r.device interface)
      then note blocker (text "multi-uplink") ∷ []
      else if reaches_gateway r default
      then []
      else note blocker (text "unsupported-route") ∷ []

  -- `inspectRouteSet`.
  unfoldable pub inspect_route_set : List Route → Option Route → Bytes → Family → List Issue
  inspect_route_set [] default interface family = []
  inspect_route_set (r ∷ rs) default interface family =
      inspect_route default interface family r ++ inspect_route_set rs default interface family

-- The priorities of the rules that the kernel sets up.
abbrev pub is_kernel_rule : ℤ → Bool
is_kernel_rule (pos n) = n == 0 || n == 32766 || n == 32767
is_kernel_rule (negsuc n) = false

abbrev pub inspect_priorities : List ℤ → List Issue
inspect_priorities [] = []
inspect_priorities (p ∷ ps) =
    note_if (not (is_kernel_rule p)) blocker (text "policy-routing") (inspect_priorities ps)

abbrev pub inspect_rule_answer : Answer (List ℤ) → List Issue
inspect_rule_answer failed = note blocker (text "policy-routing") ∷ []
inspect_rule_answer garbled = note blocker (text "policy-routing") ∷ []
inspect_rule_answer (decoded ps) = inspect_priorities ps

-- `inspectRules`, of the priorities of the rules of the two families.
unfoldable pub inspect_rules : Answer (List ℤ) → Answer (List ℤ) → List Issue
inspect_rules rules4 rules6 = inspect_rule_answer rules4 ++ inspect_rule_answer rules6

-- An address of `ip address`.
pub record AddressInfo : Type 0 where
  pub family : Bytes
  pub local : Bytes
  pub prefix_len : ℕ
  pub scope : Bytes
  pub is_dynamic : Bool
  pub protocol : Bytes
  pub temporary : Bool
  pub deprecated : Bool

-- The address counts for the plan.
abbrev pub is_global : AddressInfo → Bool
is_global a = same a.scope (text "global") && not a.deprecated

abbrev pub any_global : List AddressInfo → Bool
any_global [] = false
any_global (a ∷ as') = is_global a || any_global as'

-- What sysfs says of an interface's driver: the last element of what the link resolves to, and the
-- contents of the file of that name.
pub record DriverFile : Type 0 where
  pub resolved : Option Bytes
  pub content : Option Bytes

abbrev pub file_text : Option Bytes → Bytes
file_text none = []
file_text (some d) = trim_space d

abbrev pub driver_of : DriverFile → Option Bytes → Bytes
driver_of f none = file_text f.content
driver_of f (some base) = if same base (text "driver") then file_text f.content else base

-- `readNetworkDriver`.
unfoldable pub read_network_driver : DriverFile → Bytes
read_network_driver f = driver_of f f.resolved

-- One round of the loop of `inspectAdditionalPhysicalUplinks`: another interface with a driver and a
-- global address.
abbrev pub is_other_uplink : (Bytes → DriverFile) → Bytes → Bytes × List AddressInfo → Bool
is_other_uplink drivers selected (name, addresses) =
    not (same name selected)
    && not (same name (text "lo"))
    && not (is_empty (read_network_driver (drivers name)))
    && any_global addresses

abbrev pub other_uplinks :
    (Bytes → DriverFile) → Bytes → List (Bytes × List AddressInfo) → List Issue
other_uplinks drivers selected [] = []
other_uplinks drivers selected (i ∷ is) =
    note_if (is_other_uplink drivers selected i) blocker (text "multi-uplink")
      (other_uplinks drivers selected is)

unfoldable pub inspect_additional_physical_uplinks :
    (Bytes → DriverFile) → Bytes → Answer (List (Bytes × List AddressInfo)) → List Issue
inspect_additional_physical_uplinks drivers selected failed =
    note blocker (text "uplink-enumeration") ∷ []
inspect_additional_physical_uplinks drivers selected garbled =
    note blocker (text "uplink-enumeration") ∷ []
inspect_additional_physical_uplinks drivers selected (decoded interfaces) =
    other_uplinks drivers selected interfaces
