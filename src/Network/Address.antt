-- ===== src/Network/Address.antt =====
-- What the program uses of `net` and `net/netip`: a parser of addresses, prefixes and MACs, with
-- the questions that it asks of a parsed address.
use install_mikrotik_chr_scr.Common.{Bool, Option}
use install_mikrotik_chr_scr.Common.Text.{Bytes}

pub record NetIp : Type 1 where
  pub Addr : Type 0
  pub parse_addr : Bytes → Option Addr
  -- The address of `netip.ParsePrefix`.
  pub parse_prefix : Bytes → Option Addr
  pub is4 : Addr → Bool
  pub is6 : Addr → Bool
  pub is_link_local : Addr → Bool
  pub zone : Addr → Bytes
  pub parse_mac : Bytes → Option Bytes

-- What the detection uses besides: `WithZone`, `String`, `==`, the tests of an address, whether the
-- text is a prefix whose bits are all those of its address, whether it is a prefix that contains an
-- address, and `String` of a MAC.
pub record NetTools (ip : NetIp) : Type 0 where
  pub with_zone : Bytes → ip.Addr → ip.Addr
  pub show_addr : ip.Addr → Bytes
  pub same_addr : ip.Addr → ip.Addr → Bool
  pub is_loopback : ip.Addr → Bool
  pub is_unspecified : ip.Addr → Bool
  pub is_single : Bytes → Bool
  pub covers : Bytes → ip.Addr → Bool
  pub show_mac : Bytes → Bytes
