-- ===== src/Tests/Probes.antt =====
-- The DHCP probe and the disks on concrete inputs.
use install_mikrotik_chr_scr.Common.{
  ℕ, ◌+◌, ◌≡◌, ◌≢◌, ◌↔◌, refl, true, [], ◌∷◌, ◌++◌, some, length, replicate, ok, arith,
}
use install_mikrotik_chr_scr.Common.Text.{Bytes, text}
use install_mikrotik_chr_scr.Common.Slices.{value, panic, at, slice, u16_be}
use install_mikrotik_chr_scr.Model.{DhcpProbe}
use install_mikrotik_chr_scr.Network.Dhcp.{
  parse_dhcp_offer, read_udp, read_message, read_offer, parse_dhcp_options, options_loop,
  build_dhcp_discover, checksum, put_u16, accept,
}
use install_mikrotik_chr_scr.Network.Dhcp.Options.{
  parse_dhcp_options_total, parse_dhcp_options-encode,
}
use install_mikrotik_chr_scr.Network.Dhcp.Checksum.{checksum_verifies}
use install_mikrotik_chr_scr.Network.Dhcp.Discover.{IsDiscover, build_dhcp_discover-IsDiscover}
use install_mikrotik_chr_scr.Network.Dhcp.Offer.{
  IsOffer, parse_dhcp_offer-ne-panic, parse_dhcp_offer-IsOffer,
}
use install_mikrotik_chr_scr.Disk.Match.{fingerprints_match, select_authorized_fingerprint}
use install_mikrotik_chr_scr.Disk.Match.Select.{PolicyAllows, IsSoleMatch, select_authorized_iff}
use install_mikrotik_chr_scr.Disk.Match.Policy.{
  IdentityAgrees, DriverAgrees, fingerprints_match_iff,
}
use install_mikrotik_chr_scr.Disk.Vpd.{
  VpdIdentity, parse_vpd83, parse_vpd80, vpd_loop, descriptor_at, descriptor_identity, identity_of,
  descriptor_hex, all_zero, insert_by_rank, sort_by_rank,
}
use install_mikrotik_chr_scr.Disk.Vpd.Best.{IsBestOfPage, parse_vpd83-IsBestOfPage}
use install_mikrotik_chr_scr.Disk.Vpd.Safe.{vpd_pages-ne-panic}
use install_mikrotik_chr_scr.Tests.Plans.{target}

abbrev options_bytes : Bytes
options_bytes = 53 ∷ 1 ∷ []

abbrev transaction : Bytes
transaction = 1 ∷ 2 ∷ 3 ∷ 4 ∷ []

-- The frame of an offer of 10.0.0.9 by the server 10.0.0.1.
abbrev offer_packet : Bytes
offer_packet =
    replicate 12 0
    ++ ((8 ∷ 0 ∷ 0x45 ∷ [])
        ++ (replicate 11 0
            ++ ((10 ∷ 0 ∷ 0 ∷ 1 ∷ 255 ∷ 255 ∷ 255 ∷ 255 ∷ 0 ∷ 67 ∷ 0 ∷ 68 ∷ 0 ∷ 0 ∷ 0 ∷ 0 ∷ [])
                ++ ((2 ∷ 1 ∷ 6 ∷ 0 ∷ [])
                    ++ (transaction
                        ++ (replicate 8 0
                            ++ ((10 ∷ 0 ∷ 0 ∷ 9 ∷ [])
                                ++ (replicate 216 0
                                    ++ (99 ∷ 130 ∷ 83 ∷ 99 ∷ 53 ∷ 1 ∷ 2 ∷ 255 ∷ [])))))))))

abbrev offered : DhcpProbe
offered = (accept (10 ∷ 0 ∷ 0 ∷ 9 ∷ []) (10 ∷ 0 ∷ 0 ∷ 1 ∷ [])).0

offer_is_read : parse_dhcp_offer offer_packet transaction ≡ value (offered, true)
unfolding parse_dhcp_offer read_udp read_message read_offer parse_dhcp_options options_loop at slice
    u16_be
offer_is_read = refl

parse_dhcp_offer-IsOffer_example : IsOffer transaction offer_packet offered
parse_dhcp_offer-IsOffer_example =
    parse_dhcp_offer-IsOffer offer_packet transaction offered offer_is_read

parse_dhcp_offer-ne-panic_example : parse_dhcp_offer offer_packet transaction ≢ panic
parse_dhcp_offer-ne-panic_example = parse_dhcp_offer-ne-panic offer_packet transaction

parse_dhcp_options_total_example :
    (parse_dhcp_options options_bytes ≢ panic)
    × ((more : ℕ)
        → options_loop (length options_bytes + more) options_bytes 0 []
          ≡ parse_dhcp_options options_bytes)
parse_dhcp_options_total_example = parse_dhcp_options_total options_bytes

parse_dhcp_options-encode_example :
    parse_dhcp_options (53 ∷ 1 ∷ 2 ∷ 255 ∷ 7 ∷ []) ≡ value ((53, 2 ∷ []) ∷ [])
parse_dhcp_options-encode_example =
    parse_dhcp_options-encode ((53, 2 ∷ []) ∷ []) (7 ∷ [])
      (((λ e. absurd (omega arith)), (λ e. absurd (omega arith))), tt)

checksum_verifies_example :
    checksum (
      (0x45 ∷ 0 ∷ [])
      ++ (put_u16 (checksum ((0x45 ∷ 0 ∷ []) ++ (put_u16 0 ++ (1 ∷ 2 ∷ [])))) ++ (1 ∷ 2 ∷ [])))
    ≡ 0
checksum_verifies_example = checksum_verifies (0x45 ∷ 0 ∷ []) (1 ∷ 2 ∷ []) refl (omega arith)

build_dhcp_discover-IsDiscover_example :
    IsDiscover
      (2 ∷ 0 ∷ 0 ∷ 0 ∷ 0 ∷ 1 ∷ [])
      transaction
      (build_dhcp_discover (2 ∷ 0 ∷ 0 ∷ 0 ∷ 0 ∷ 1 ∷ []) transaction)
build_dhcp_discover-IsDiscover_example = build_dhcp_discover-IsDiscover 2 0 0 0 0 1 1 2 3 4

select_authorized_iff_example :
    (select_authorized_fingerprint target (target ∷ []) ≡ ok target)
    ↔ (PolicyAllows target (target ∷ []) × IsSoleMatch target target (target ∷ []))
select_authorized_iff_example = select_authorized_iff target target (target ∷ [])

fingerprints_match_iff_example : (fingerprints_match target target ≡ true) ↔ (
    (target.size_bytes ≢ 0)
    × (target.size_bytes ≡ target.size_bytes)
    × IdentityAgrees target target
    × DriverAgrees target target)
fingerprints_match_iff_example = fingerprints_match_iff target target

-- A page 0x83 with one binary NAA identifier of type 5.
abbrev page : Bytes
page = 0 ∷ 0x83 ∷ 0 ∷ 6 ∷ 1 ∷ 3 ∷ 0 ∷ 2 ∷ 0x50 ∷ 1 ∷ []

abbrev identity : VpdIdentity
identity = record { serial = []; wwn = text "naa.5001"; rank = 2 }

page_is_read : parse_vpd83 page ≡ value (some identity)
unfolding parse_vpd83 vpd_loop descriptor_at descriptor_identity identity_of descriptor_hex all_zero
    insert_by_rank sort_by_rank at slice u16_be
page_is_read = refl

parse_vpd83-IsBestOfPage_example : IsBestOfPage page identity
parse_vpd83-IsBestOfPage_example = parse_vpd83-IsBestOfPage page identity page_is_read

vpd_pages-ne-panic_example : (parse_vpd83 page ≢ panic) × (parse_vpd80 page ≢ panic)
vpd_pages-ne-panic_example = vpd_pages-ne-panic page
