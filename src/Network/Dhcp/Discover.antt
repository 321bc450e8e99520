-- ===== src/Network/Dhcp/Discover.antt =====
-- The frame of the DHCP probe, read back field by field.
use install_mikrotik_chr_scr.Common.{
  ℕ, ◌+◌, ◌*◌, ◌≡◌, refl, [], ◌∷◌, length, get_or, take, drop, replicate, arith,
}
use install_mikrotik_chr_scr.Common.Text.{Bytes}
use install_mikrotik_chr_scr.Common.Slices.{value}
use install_mikrotik_chr_scr.Network.Dhcp.{
  build_dhcp_discover, checksum, fold_carries, magic_cookie, parse_dhcp_options,
}
use install_mikrotik_chr_scr.Network.Dhcp.Options.{parse_dhcp_options-encode}

-- The frame as a receiver takes it apart.
pub record IsDiscover (mac transaction packet : Bytes) : Type 0 where
  pub whole : length packet ≡ 302
  pub to_all : take 6 packet ≡ replicate 6 255
  pub from_mac : take 6 (drop 6 packet) ≡ mac
  pub is_ipv4 : 256 * get_or packet 12 0 + get_or packet 13 0 ≡ 2048
  pub ip_length : 256 * get_or packet 16 0 + get_or packet 17 0 + 14 ≡ length packet
  pub is_udp : get_or packet 23 0 ≡ 17
  pub checksum_holds : checksum (take 20 (drop 14 packet)) ≡ 0
  pub ports : take 4 (drop 34 packet) ≡ 0 ∷ 68 ∷ 0 ∷ 67 ∷ []
  pub udp_length : 256 * get_or packet 38 0 + get_or packet 39 0 + 34 ≡ length packet
  pub is_request : get_or packet 42 0 ≡ 1
  pub transaction_at : take 4 (drop 46 packet) ≡ transaction
  pub broadcast : take 2 (drop 52 packet) ≡ 128 ∷ 0 ∷ []
  pub hardware_at : take 6 (drop 70 packet) ≡ mac
  pub cookie_at : take 4 (drop 278 packet) ≡ magic_cookie
  pub options_are :
      parse_dhcp_options (drop 282 packet)
      ≡ value ((55, 1 ∷ 3 ∷ 6 ∷ 51 ∷ 54 ∷ []) ∷ (61, 1 ∷ mac) ∷ (53, 1 ∷ []) ∷ [])

-- For a MAC of six bytes and a transaction of four the frame is a broadcast DHCPDISCOVER: its
-- lengths and its header checksum are right, the addresses and the transaction stand in their
-- fields, and its options are read back as a discover with the client's identifier and the five
-- requested parameters.
pub build_dhcp_discover-IsDiscover :
    (a b c d e f w x y z : ℕ)
    → let mac : Bytes = a ∷ b ∷ c ∷ d ∷ e ∷ f ∷ [] in
      let transaction : Bytes = w ∷ x ∷ y ∷ z ∷ [] in
      IsDiscover mac transaction (build_dhcp_discover mac transaction)
unfolding build_dhcp_discover checksum fold_carries
build_dhcp_discover-IsDiscover a b c d e f w x y z = record {
  whole = refl;
  to_all = refl;
  from_mac = refl;
  is_ipv4 = refl;
  ip_length = refl;
  is_udp = refl;
  checksum_holds = refl;
  ports = refl;
  udp_length = refl;
  is_request = refl;
  transaction_at = refl;
  broadcast = refl;
  hardware_at = refl;
  cookie_at = refl;
  options_are =
      parse_dhcp_options-encode
        ((53, 1 ∷ []) ∷ (61, 1 ∷ a ∷ b ∷ c ∷ d ∷ e ∷ f ∷ []) ∷ (55, 1 ∷ 3 ∷ 6 ∷ 51 ∷ 54 ∷ []) ∷ [])
        [] (omega arith);
}
