-- ===== src/Network/Sources.antt =====
-- internal/network/detect.go: what the configuration files and the leases of the host say, and its DNS
-- servers. The root directory is `/`.
pub mod Lease
use install_mikrotik_chr_scr.Common.{
  ℕ, Bool, false, not, ◌&&◌, ◌||◌, List, [], ◌∷◌, ◌++◌, Option, none, some, leb, if◌then◌else◌, ◌*◌,
}
use install_mikrotik_chr_scr.Common.Text.{
  Bytes, text, same, is_empty, is_space, trim_space, to_lower, trim_prefix, cut_at, contains, has,
  last_element, sort_texts, decimal,
}
use install_mikrotik_chr_scr.Network.Address.{NetIp, NetTools}
use install_mikrotik_chr_scr.Network.Validate.{fields_from, before_byte}

-- A file that one of the patterns names, in their order. `content` is `none` if it cannot be read.
pub record ConfigFile : Type 0 where
  pub path : Bytes
  pub is_dir : Bool
  pub size : ℕ
  pub content : Option Bytes

pub record SourceEvidence : Type 0 where
  pub dhcp4 : Bool
  pub dhcp6 : Bool
  pub lease4 : Bool
  pub lease6 : Bool
  pub paths : List Bytes

abbrev pub no_evidence : SourceEvidence
no_evidence = record { dhcp4 = false; dhcp6 = false; lease4 = false; lease6 = false; paths = [] }

abbrev pub any_part : List Bytes → Bytes → Bool
unfolding contains
any_part [] s = false
any_part (p ∷ ps) s = contains p s || any_part ps s

abbrev pub hosts_of : List Bytes → List Bytes
hosts_of [] = []
hosts_of (a ∷ as') = to_lower (before_byte b'/' a) ∷ hosts_of as'

-- Whether the file speaks of the uplink: its lease is named by the interface's index.
abbrev pub is_relevant : Bytes → ℕ → Bytes → List Bytes → Bytes → Bytes → Bool
unfolding contains
is_relevant interface index mac addresses path content =
    if contains (text "/run/systemd/netif/leases/") path
    then same (last_element path) (decimal index)
    else any_part (to_lower interface ∷ to_lower mac ∷ hosts_of addresses) content

abbrev pub add_path : Bytes → List Bytes → List Bytes
add_path p ps = if has p ps then ps else ps ++ p ∷ []

-- What a relevant file adds. The code keeps the paths without the root.
abbrev pub note_file : Bytes → Bytes → SourceEvidence → SourceEvidence
unfolding contains
note_file path content e =
    let is_lease = contains (text "lease") (to_lower path) in
    record {
      dhcp4 =
          e.dhcp4
          || any_part
              (text "dhcp4: true"
                ∷ text "inet dhcp"
                ∷ text "method=auto"
                ∷ text "dhcp=ipv4"
                ∷ text "dhcp=yes"
                ∷ [])
              content;
      dhcp6 =
          e.dhcp6
          || any_part
              (text "dhcp6: true" ∷ text "inet6 dhcp" ∷ text "dhcp=ipv6" ∷ text "dhcp=yes" ∷ [])
              content;
      lease4 =
          e.lease4 || (is_lease && any_part (text "address=" ∷ text "fixed-address" ∷ []) content);
      lease6 = e.lease6 || (is_lease && any_part (text "dhcp6" ∷ text "ia-na" ∷ []) content);
      paths = add_path (trim_prefix (text "/") path) e.paths;
    }

abbrev pub largest_config : ℕ
largest_config = 2 * 1024 * 1024

abbrev pub note_content :
    Bytes → ℕ → Bytes → List Bytes → Bytes → Option Bytes → SourceEvidence → SourceEvidence
note_content interface index mac addresses path none e = e
note_content interface index mac addresses path (some c) e =
    if is_relevant interface index mac addresses path (to_lower c)
    then note_file path (to_lower c) e
    else e

unfoldable pub inspect_files :
    Bytes → ℕ → Bytes → List Bytes → List ConfigFile → SourceEvidence → SourceEvidence
inspect_files interface index mac addresses [] e = e
inspect_files interface index mac addresses (f ∷ fs) e =
    inspect_files interface index mac addresses fs (
      if f.is_dir || not (leb f.size largest_config)
      then e
      else note_content interface index mac addresses f.path f.content e)

-- `inspectConfiguration`.
unfoldable pub inspect_configuration :
    List ConfigFile → Bytes → ℕ → Bytes → List Bytes → SourceEvidence
unfolding sort_texts
inspect_configuration files interface index mac addresses =
    let e = inspect_files interface index mac addresses files no_evidence in
    record e { paths = sort_texts e.paths }

-- `strings.Fields`.
abbrev pub fields : Bytes → List Bytes
unfolding fields_from
fields s = fields_from is_space [] s

abbrev pub after_colon : Option (Bytes × Bytes) → List Bytes
after_colon none = []
after_colon (some (before, after)) = fields after

-- The servers that resolvectl prints.
abbrev pub resolved_servers : Option Bytes → List Bytes
unfolding cut_at
resolved_servers none = []
resolved_servers (some out) = after_colon (cut_at b':' (trim_space out))

abbrev pub server_of : List Bytes → List Bytes
server_of [] = []
server_of (w ∷ []) = []
server_of (w ∷ v ∷ []) = if same w (text "nameserver") then v ∷ [] else []
server_of (w ∷ v ∷ u ∷ ws) = []

abbrev pub servers_in : List Bytes → List Bytes
servers_in [] = []
servers_in (line ∷ lines) = server_of (fields line) ++ servers_in lines

-- The files of `resolv.conf`, as their lines: the first one that can be read and has a server.
abbrev pub if_none : List Bytes → List Bytes → List Bytes
if_none [] rest = rest
if_none (s ∷ ss) rest = s ∷ ss

abbrev pub configured_servers : List (Option (List Bytes)) → List Bytes
configured_servers [] = []
configured_servers (none ∷ files) = configured_servers files
configured_servers (some lines ∷ files) = if_none (servers_in lines) (configured_servers files)

module _ (ip : NetIp) (tools : NetTools ip) where
  open ip use {Addr, parse_addr, is_link_local, zone}
  open tools use {with_zone, show_addr, is_loopback, is_unspecified}

  -- A link-local address without a zone is given that of the interface.
  abbrev pub with_scope : Bytes → Addr → Addr
  with_scope interface a = if is_link_local a && is_empty (zone a) then with_zone interface a else a

  abbrev pub is_skipped : List Bytes → Addr → Bool
  is_skipped unique a = is_loopback a || is_unspecified a || has (show_addr a) unique

  abbrev pub keep_server : Bytes → List Bytes → (List Bytes → List Bytes) → Option Addr → List Bytes
  keep_server interface unique rest none = rest unique
  keep_server interface unique rest (some a) =
      if is_skipped unique a
      then rest unique
      else show_addr (with_scope interface a) ∷ rest (show_addr (with_scope interface a) ∷ unique)

  -- The last loop of `detectDNS`; `unique` holds what was kept.
  unfoldable pub keep_servers : Bytes → List Bytes → List Bytes → List Bytes
  keep_servers interface [] unique = []
  keep_servers interface (s ∷ ss) unique =
      keep_server interface unique (keep_servers interface ss) (parse_addr (trim_space s))

  -- `detectDNS`.
  unfoldable pub detect_dns : Bytes → Option Bytes → List (Option (List Bytes)) → List Bytes
  detect_dns interface resolvectl files =
      keep_servers interface (if_none (resolved_servers resolvectl) (configured_servers files)) []
