-- ===== src/Network/Detect/Leased.antt =====
-- internal/network/detect.go: what an IPv4 plan in DHCP mode rests on.
use install_mikrotik_chr_scr.Common.{
  ◌≡◌, refl, ◌∈◌, true, List, [], ◌∷◌, ◌++◌, Option, none, some, decoded,
}
use install_mikrotik_chr_scr.Common.Text.{Bytes}
use install_mikrotik_chr_scr.Model.{DhcpProbe}
use install_mikrotik_chr_scr.Network.Address.{NetIp, NetTools}
use install_mikrotik_chr_scr.Network.Routes.{AddressInfo}
use install_mikrotik_chr_scr.Network.Plan.{
  sort_addresses, collect_addresses, no_addresses, with_message,
}
use install_mikrotik_chr_scr.Network.Sources.{ConfigFile, inspect_configuration}
use install_mikrotik_chr_scr.Network.Sources.Lease.{IsLease, inspect_configuration-IsLease}
use install_mikrotik_chr_scr.Network.Detect.{Link, NetworkHost, probed}

with_message-offered :
    (r : DhcpProbe × Option Bytes) → (with_message r).offered ≡ true → r.0.offered ≡ true
with_message-offered (p, none) c = c
with_message-offered (p, some m) c = c

module _ (ip : NetIp) (tools : NetTools ip) (h : NetworkHost) where
  abbrev pub addresses_of : List AddressInfo → List Bytes
  addresses_of infos =
      let s = sort_addresses (collect_addresses infos no_addresses) in s.v4_dynamic ++ s.v4_static

  -- The probe over the uplink brought an offer.
  abbrev pub HasOffer : Bytes → Bytes → Type 0
  HasOffer interface mac =
      (hardware : Bytes) × (ip.parse_mac mac ≡ some hardware)
      × ((h.probe interface hardware).0.offered ≡ true)

  -- A lease file of the host speaks of the uplink, which has the link and the addresses it is asked for.
  abbrev pub HasLeaseFile : Bytes → Bytes → Type 0
  HasLeaseFile interface mac =
      (l : Link) × (h.link interface ≡ decoded (l ∷ []))
      × (infos : List AddressInfo) × (h.addresses interface ≡ decoded (infos ∷ []))
      × (f : ConfigFile) × (f ∈ h.config_files)
      × IsLease interface l.index mac (addresses_of infos) f

  pub probed-offered :
      (interface : Bytes) (o : Option Bytes)
      → (probed ip tools h interface o).offered ≡ true
      → (hardware : Bytes) × (o ≡ some hardware) × ((h.probe interface hardware).0.offered ≡ true)
  probed-offered interface none c = cc c
  probed-offered interface (some hardware) c =
      (hardware, refl, with_message-offered (h.probe interface hardware) c)

  pub found_lease :
      (interface mac : Bytes) (l : Link) (infos : List AddressInfo)
      → h.link interface ≡ decoded (l ∷ [])
      → h.addresses interface ≡ decoded (infos ∷ [])
      → (inspect_configuration h.config_files interface l.index mac (addresses_of infos)).lease4
        ≡ true
      → HasLeaseFile interface mac
  found_lease interface mac l infos e k c =
      let (f, i, lease) =
        inspect_configuration-IsLease interface l.index mac (addresses_of infos) h.config_files c in
      (l, e, infos, k, f, i, lease)
