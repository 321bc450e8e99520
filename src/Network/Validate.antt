-- ===== src/Network/Validate.antt =====
-- internal/network/validate.go: `Validate` and `ParseList`.
pub mod Spec
use install_mikrotik_chr_scr.Common.{
  ℕ, zero, suc, Bool, true, false, not, ◌&&◌, ◌||◌, List, [], ◌∷◌, ◌++◌, Option, none, some, ltb,
  ◌==◌, if◌then◌else◌, length, Result, ok, err, ◌>>=◌, ◌>>◌, refuse_if, leb,
}
use install_mikrotik_chr_scr.Common.Text.{Bytes, text, same, is_empty, is_space, trim, trim_space}
use install_mikrotik_chr_scr.Model.{NetworkPlan, Ipv4Plan, Ipv6Plan}
use install_mikrotik_chr_scr.Network.Address.{NetIp}

pub data PlanError : Type 0 where
  no_interface bad_mac bad_mtu no_static_address no_static_gateway : PlanError
  bad_mode bad_v4_prefix bad_v4_gateway bad_v6_prefix bad_v6_gateway : Bytes → PlanError
  bad_dns unzoned_dns : Bytes → PlanError
  no_mode : PlanError

-- `strings.Split(s, sep)[0]`: what stands before the first separator.
abbrev pub before_byte : ℕ → Bytes → Bytes
before_byte sep [] = []
before_byte sep (c ∷ cs) = let rest = before_byte sep cs in if c == sep then [] else c ∷ rest

abbrev pub no_items : List Bytes → Bool
no_items [] = true
no_items (x ∷ xs) = false

-- The `switch` over the IPv4 mode.
unfoldable pub check_mode : Ipv4Plan → Result PlanError (Unit {0})
check_mode p =
    if same p.mode (text "dhcp")
    then ok tt
    else if same p.mode (text "static")
    then (do
      refuse_if (no_items p.addresses) no_static_address
      refuse_if (is_empty p.gateway) no_static_gateway)
    else if same p.mode (text "none")
    then ok tt
    else err (bad_mode p.mode)

module _ (ip : NetIp) where
  open ip use {Addr, parse_addr, parse_prefix, is4, is6, is_link_local, zone, parse_mac}

  -- The parse succeeded and the address is of the family.
  abbrev pub is_family : (Addr → Bool) → Option Addr → Bool
  is_family f none = false
  is_family f (some a) = f a

  -- `err != nil || len(mac) != 6`, negated.
  abbrev pub is_ethernet : Option Bytes → Bool
  is_ethernet none = false
  is_ethernet (some m) = length m == 6

  -- The loops over the addresses of the two families.
  unfoldable pub check_v4_prefixes : List Bytes → Result PlanError (Unit {0})
  check_v4_prefixes [] = ok tt
  check_v4_prefixes (v ∷ vs) = do
    refuse_if (not (is_family is4 (parse_prefix (trim_space v)))) (bad_v4_prefix v)
    check_v4_prefixes vs

  unfoldable pub check_v6_prefixes : List Bytes → Result PlanError (Unit {0})
  check_v6_prefixes [] = ok tt
  check_v6_prefixes (v ∷ vs) = do
    refuse_if (not (is_family is6 (parse_prefix (trim_space v)))) (bad_v6_prefix v)
    check_v6_prefixes vs

  abbrev needs_zone : Bytes → Addr → Bool
  needs_zone interface a = is_link_local a && not (same (zone a) interface)

  unfoldable pub check_server : Bytes → Bytes → Option Addr → Result PlanError (Unit {0})
  check_server interface v none = err (bad_dns v)
  check_server interface v (some a) = refuse_if (needs_zone interface a) (unzoned_dns v)

  unfoldable pub check_servers : Bytes → List Bytes → Result PlanError (Unit {0})
  check_servers interface [] = ok tt
  check_servers interface (v ∷ vs) = do
    check_server interface v (parse_addr (trim_space v))
    check_servers interface vs

  abbrev gateway4_is_bad : Ipv4Plan → Bool
  gateway4_is_bad p =
      not (is_empty p.gateway) && not (is_family is4 (parse_addr (trim_space p.gateway)))

  abbrev gateway6_is_bad : Ipv6Plan → Bool
  gateway6_is_bad p =
      not (is_empty p.gateway)
      && not (is_family is6 (parse_addr (before_byte b'%' (trim_space p.gateway))))

  abbrev has_no_mode : NetworkPlan → Bool
  has_no_mode p =
      same p.ipv4.mode (text "none")
      && not p.ipv6.slaac
      && not p.ipv6.dhcp
      && no_items p.ipv6.addresses

  unfoldable pub validate : NetworkPlan → Result PlanError (Unit {0})
  validate p = do
    refuse_if (is_empty (trim_space p.interface_name)) no_interface
    refuse_if (not (is_ethernet (parse_mac p.mac))) bad_mac
    refuse_if (ltb p.mtu 576 || ltb 9216 p.mtu) bad_mtu
    check_mode p.ipv4
    check_v4_prefixes p.ipv4.addresses
    refuse_if (gateway4_is_bad p.ipv4) (bad_v4_gateway p.ipv4.gateway)
    check_v6_prefixes p.ipv6.addresses
    refuse_if (gateway6_is_bad p.ipv6) (bad_v6_gateway p.ipv6.gateway)
    check_servers p.interface_name p.dns
    refuse_if (has_no_mode p) no_mode

-- The separators of `ParseList`.
abbrev pub is_separator : ℕ → Bool
is_separator c = c == b',' || c == b' ' || c == b'\n' || c == b'\t'

-- `strings.FieldsFunc`: the maximal runs of bytes that are no separators. `run` is the run read so
-- far.
abbrev pub end_run : Bytes → List Bytes → List Bytes
end_run [] fields = fields
end_run (c ∷ cs) fields = (c ∷ cs) ∷ fields

unfoldable pub fields_from : (ℕ → Bool) → Bytes → Bytes → List Bytes
fields_from sep run [] = end_run run []
fields_from sep run (c ∷ cs) = elim (sep c) [
  | true ↦ end_run run (fields_from sep [] cs)
  | false ↦ fields_from sep (run ++ c ∷ []) cs
]

abbrev pub keep_trimmed : List Bytes → List Bytes
keep_trimmed [] = []
keep_trimmed (f ∷ fs) = end_run (trim_space f) (keep_trimmed fs)

pub parse_list : Bytes → List Bytes
parse_list s = keep_trimmed (fields_from is_separator [] s)
